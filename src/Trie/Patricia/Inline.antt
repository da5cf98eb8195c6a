-- ===== src/Trie/Patricia/Inline.antt =====
-- crates/trie/src/trie.rs: an insertion into a trie in which no reference is a hash does not fail.
use ethereum_rust.Base.{
  ℕ, zero, suc, ◌≡◌, ◌⊎◌, refl, subst, Bool, true, false, ◌&&◌, List, [], ◌∷◌, Option, none, some,
  length, ◌==◌, if◌then◌else◌, take, drop,
}
use ethereum_rust.Base.Result.{Result, ok, err, panic, stuck, or_panic, ◌>>=◌}
use ethereum_rust.Trie.Nibbles.{Nibbles, matching}
use ethereum_rust.Trie.Nibbles
use ethereum_rust.Trie.Node.{
  Node, empty, leaf, extension, branch, NodeRef, hash, inline, Children, nil, absent, present,
  child, set_child, no_children, Externals, TrieError, key_not_found, from_node, ref_of,
}
use ethereum_rust.Trie.Patricia.{
  PatriciaTrie, new, get, insert, path, enough, resolve_node_ref, resolve_slot, place,
  place_extension, with_prefix, split_leaf, split_extension, insert_at_node,
}
use ethereum_rust.Trie.Patricia.WellFormed.{encode_raw-total}
use ethereum_rust.Trie.Patricia.Map.{IsBytes, Op, insert_op, apply, run, replay, update, get-insert}
use ethereum_rust.Trie.Patricia.Client.{ByteKeys, Reads-update, run-new_refines}
use ethereum_rust.Trie.Patricia.Hidden.{
  Missing, unhidden, Nothing, Follows, fails, returns, panics, stops, empty_hides, unhidden-Loads,
  unhidden-Keeps,
}
use ethereum_rust.Trie.Patricia.Fresh.{
  IsInline, IsInlineRef, IsInlineChildren, HidesTrie, run-Follows, apply-Follows, reads,
}

-- No error is returned.
data NoError {A : Type 0} : Result TrieError A → Type 0 where
  value : (a : A) → NoError (ok a)
  a_panic : NoError panic
  no_fuel : NoError stuck

bind-NoError :
    {A B : Type 0} (m : Result TrieError A) {f : A → Result TrieError B}
    → NoError m
    → ((a : A) → m ≡ ok a → NoError (f a))
    → NoError (m >>= f)
bind-NoError m (value a) k = k a refl
bind-NoError m a_panic k = a_panic
bind-NoError m no_fuel k = no_fuel

or_panic-NoError : {A : Type 0} (o : Option A) → NoError (or_panic o)
or_panic-NoError none = a_panic
or_panic-NoError (some a) = value a

if-NoError :
    {A : Type 0} (c : Bool) {x y : Result TrieError A}
    → NoError x
    → NoError y
    → NoError (if c then x else y)
if-NoError true h k = h
if-NoError false h k = k

IsInlineSlot : Option NodeRef → Type 0
IsInlineSlot none = Unit
IsInlineSlot (some r) = IsInlineRef r

child-IsInline :
    (cs : Children) (i : ℕ) (s : Option NodeRef)
    → IsInlineChildren cs
    → or_panic {E = TrieError} (child cs i) ≡ ok s
    → IsInlineSlot s
unfolding child IsInline IsInlineSlot
child-IsInline nil i s w e = absurd (cc e)
child-IsInline (absent cs) zero none w e = tt
child-IsInline (absent cs) zero (some r) w e = absurd (cc e)
child-IsInline (present r cs) zero none w e = absurd (cc e)
child-IsInline (present r cs) zero (some q) w e =
    let same_ref : r ≡ q = cc e in subst IsInlineRef same_ref w.0
child-IsInline (absent cs) (suc i) s w e = child-IsInline cs i s w e
child-IsInline (present r cs) (suc i) s w e = child-IsInline cs i s w.1 e

module _ (x : Externals) where
  from_node-NoError : (n : Node) → NoError (from_node x n)
  unfolding from_node
  from_node-NoError n = let (b, e) = encode_raw-total x n in rw e (value (ref_of x n b))

  place-NoError : (b v : List ℕ) (cs : Children) (o : Option (List ℕ)) → NoError (place x b v cs o)
  unfolding place
  place-NoError [] v cs o = value (cs, some v)
  place-NoError (n ∷ b) v cs o =
      bind-NoError (from_node x (leaf (Nibbles.new b) v))
        (from_node-NoError (leaf (Nibbles.new b) v))
        (λ r _.
          bind-NoError (or_panic (set_child cs n (some r)))
            (or_panic-NoError (set_child cs n (some r))) (λ c _. value (c, o)))

  place_extension-NoError :
      (a : List ℕ) (r : NodeRef) (cs : Children) → NoError (place_extension x a r cs)
  unfolding place_extension
  place_extension-NoError [] r cs = value cs
  place_extension-NoError (n ∷ []) r cs = or_panic-NoError (set_child cs n (some r))
  place_extension-NoError (n ∷ m ∷ a) r cs =
      bind-NoError (from_node x (extension (Nibbles.new (m ∷ a)) r))
        (from_node-NoError (extension (Nibbles.new (m ∷ a)) r))
        (λ q _. or_panic-NoError (set_child cs n (some q)))

  with_prefix-NoError : (p : List ℕ) (n : Node) → NoError (with_prefix x p n)
  unfolding with_prefix
  with_prefix-NoError [] n = value n
  with_prefix-NoError (i ∷ p) n =
      bind-NoError (from_node x n) (from_node-NoError n)
        (λ r _. value (extension (Nibbles.new (i ∷ p)) r))

  split_leaf-NoError : (p a u b v : List ℕ) → NoError (split_leaf x p a u b v)
  unfolding split_leaf
  split_leaf-NoError p a u b v =
      bind-NoError (place x a u (no_children 16) none) (place-NoError a u (no_children 16) none)
        (λ c _.
          bind-NoError (place x b v c.0 c.1) (place-NoError b v c.0 c.1)
            (λ d _. with_prefix-NoError p (branch d.0 d.1)))

  split_extension-NoError :
      (p a : List ℕ) (r : NodeRef) (b v : List ℕ) → NoError (split_extension x p a r b v)
  unfolding split_extension
  split_extension-NoError p a r b v =
      bind-NoError (place_extension x a r (no_children 16))
        (place_extension-NoError a r (no_children 16))
        (λ c _.
          bind-NoError (place x b v c none) (place-NoError b v c none)
            (λ d _. with_prefix-NoError p (branch d.0 d.1)))

  ref-NoError :
      {A : Type 0} (r : NodeRef) {f : Node → Result TrieError A}
      → IsInlineRef r
      → ((n : Node) → IsInline n → NoError (f n))
      → NoError (resolve_node_ref x r >>= f)
  unfolding resolve_node_ref IsInline
  ref-NoError (inline n) w k = k n w
  ref-NoError (hash h) w k = absurd w

  slot-NoError :
      {A : Type 0} (s : Option NodeRef) {f : Node → Result TrieError A}
      → IsInlineSlot s
      → ((n : Node) → IsInline n → NoError (f n))
      → NoError (resolve_slot x s >>= f)
  unfolding resolve_slot IsInlineSlot IsInline
  slot-NoError none w k = k empty tt
  slot-NoError (some r) w k = ref-NoError r w k

  insert_at_node-NoError :
      (f : ℕ) (n : Node) (k v : List ℕ) → IsInline n → NoError (insert_at_node x f n k v)
  unfolding insert_at_node IsInline
  insert_at_node-NoError zero n k v w = no_fuel
  insert_at_node-NoError (suc f) empty k v w = value (leaf (Nibbles.new k) v)
  insert_at_node-NoError (suc f) (leaf l u) k v w =
      let c = matching l.items k in
      if-NoError ((c == length l.items) && (c == length k)) (value (leaf l v))
        (split_leaf-NoError (take c l.items) (drop c l.items) u (drop c k) v)
  insert_at_node-NoError (suc f) (extension e r) k v w =
      let c = matching e.items k in
      if-NoError (c == length e.items)
        (ref-NoError r w (λ n i.
          bind-NoError (insert_at_node x f n (drop c k) v)
            (insert_at_node-NoError f n (drop c k) v i)
            (λ m _.
              bind-NoError (from_node x m) (from_node-NoError m) (λ q _. value (extension e q)))))
        (split_extension-NoError (take c e.items) (drop c e.items) r (drop c k) v)
  insert_at_node-NoError (suc f) (branch cs o) [] v w = value (branch cs (some v))
  insert_at_node-NoError (suc f) (branch cs o) (i ∷ k) v w =
      bind-NoError (or_panic (child cs i)) (or_panic-NoError (child cs i)) (λ s e.
        slot-NoError s (child-IsInline cs i s w e) (λ n j.
          bind-NoError (insert_at_node x f n k v) (insert_at_node-NoError f n k v j) (λ m _.
            bind-NoError (from_node x m) (from_node-NoError m) (λ r _.
              bind-NoError (or_panic (set_child cs i (some r)))
                (or_panic-NoError (set_child cs i (some r))) (λ d _. value (branch d o))))))

  insert-NoError :
      (key v : List ℕ) (t : PatriciaTrie) → IsInline t.root → NoError (insert x key v t)
  unfolding insert
  insert-NoError key v t w =
      bind-NoError (insert_at_node x (enough (path key)) t.root (path key) v)
        (insert_at_node-NoError (enough (path key)) t.root (path key) v w)
        (λ n _. value (record { root = n; cached = none }))

related :
    {r i : Result TrieError PatriciaTrie} (t t0 : PatriciaTrie)
    → Follows HidesTrie r i
    → r ≡ ok t
    → i ≡ ok t0
    → HidesTrie t t0
related t t0 fails p e = absurd (cc p)
related t t0 panics p e = absurd (cc p)
related t t0 stops p e = absurd (cc p)
related t t0 (returns {a} {b} h) p e =
    let one : a ≡ t = cc p in
    let two : b ≡ t0 = cc e in subst (λ z. HidesTrie z t0) one (subst (λ z. HidesTrie a z) two h)

succeeds :
    {r i : Result TrieError PatriciaTrie} (t0 : PatriciaTrie)
    → Follows HidesTrie r i
    → NoError r
    → i ≡ ok t0
    → (t : PatriciaTrie) × ((r ≡ ok t) × HidesTrie t t0)
succeeds t0 fails n e = elim n [ ]
succeeds t0 panics n e = absurd (cc e)
succeeds t0 stops n e = absurd (cc e)
succeeds t0 (returns {a} {b} h) n e =
    let two : b ≡ t0 = cc e in (a, (refl, subst (λ z. HidesTrie a z) two h))

module _ (x : Externals) (missing : Missing x) where
  -- After a sequence of insertions and deletions of byte keys, from the empty trie, over a database that has
  -- no node, with any encoder of lists and any hash, that leaves a trie in which no reference is a hash, an
  -- insertion of a byte key succeeds. The trie then answers every byte key with `KeyNotFound` or as the
  -- same changes of the empty function do.
  pub insert-run :
      (ops : List Op) (t : PatriciaTrie) (key v : List ℕ)
      → ByteKeys ops
      → run x ops new ≡ ok t
      → IsInline t.root
      → IsBytes key
      → (t' : PatriciaTrie) × (insert x key v t ≡ ok t')
        × ((q : List ℕ)
            → IsBytes q
            → (get x t' q ≡ err key_not_found)
              ⊎ (get x t' q ≡ ok (update (replay ops (λ _. none)) key (some v) q)))
  unfolding apply
  insert-run ops t key v i p w j =
      let u = unhidden x in
      let (t0, e, w0, g) =
        run-new_refines u (Nothing x) (unhidden-Loads x) (unhidden-Keeps x) ops i in
      let (t1, e1, w1, here, others) =
        get-insert u (Nothing x) (unhidden-Loads x) (unhidden-Keeps x) key v t0 w0 j in
      let h = related t t0 (run-Follows x missing ops new new empty_hides) p e in
      let (t', (done, h')) =
        succeeds t1 (apply-Follows x missing (insert_op key v) t t0 h) (insert-NoError x key v t w)
          e1 in
      let f = replay ops (λ _. none) in
      let ideal =
        Reads-update u (Nothing x) (unhidden-Loads x) (unhidden-Keeps x) t0 t1 f key (some v) g here
          others in
      (t', done, λ q k. reads x missing t' t1 q (update f key (some v) q) h' (ideal q k))
