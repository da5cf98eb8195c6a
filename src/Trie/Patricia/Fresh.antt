-- ===== src/Trie/Patricia/Fresh.antt =====
-- crates/trie/src/trie.rs: a new trie over a database that has no node, with any encoder and any hash.
use ethereum_rust.Base.{
  ℕ, zero, suc, ◌≡◌, ◌⊎◌, inl, inr, refl, ◌∙◌, subst, List, [], ◌∷◌, none, some, Bool, drop,
}
use ethereum_rust.Base.Result.{Result, ok, err, or_panic, ◌>>=◌}
use ethereum_rust.Trie.Nibbles.{matching}
use ethereum_rust.Trie.Node.{
  Node, empty, leaf, extension, branch, NodeRef, hash, inline, nil, absent, present, Externals,
  TrieError, key_not_found, child, Children,
}
use ethereum_rust.Trie.Patricia.{
  PatriciaTrie, new, get, insert, delete, path, enough, get_at_node, resolve_node_ref,
}
use ethereum_rust.Trie.Patricia.Map.{Op, insert_op, delete_op, IsBytes, apply, run, replay}
use ethereum_rust.Trie.Patricia.Client.{ByteKeys, run-new_refines}
use ethereum_rust.Trie.Patricia.Hidden.{
  Missing, unhidden, Nothing, Hides, empty_hides, leaf_hides, extension_hides, branch_hides,
  HidesChildren, nil_hides, absent_hides, present_hides, shown, hidden, Follows, fails, returns,
  panics, stops, bind, unhidden-Loads, unhidden-Keeps,
}
use ethereum_rust.Trie.Patricia.Hidden.Steps.{
  Value, HidesDeleted, deletes, Same, same_value, insert_at_node-Follows, delete_at_node-Follows,
  get_at_node-Follows,
}

abbrev pub HidesTrie : PatriciaTrie → PatriciaTrie → Type 0
HidesTrie t t' = Hides t.root t'.root

HidesResult : Bool × PatriciaTrie → Bool × PatriciaTrie → Type 0
HidesResult a b = HidesTrie a.1 b.1

deleted_trie :
    (a b : Node × Bool)
    → HidesDeleted a b
    → Follows HidesResult
        (ok (a.1, record { root = a.0; cached = none }))
        (ok (b.1, record { root = b.0; cached = none }))
unfolding HidesResult
deleted_trie a b (deletes d h) = returns h

-- No reference is a hash.
unfoldable mutual
  pub IsInline : Node → Type 0
  IsInline empty = Unit
  IsInline (leaf k v) = Unit
  IsInline (extension k r) = IsInlineRef r
  IsInline (branch cs v) = IsInlineChildren cs

  pub IsInlineRef : NodeRef → Type 0
  IsInlineRef (hash h) = ⊥
  IsInlineRef (inline n) = IsInline n

  pub IsInlineChildren : Children → Type 0
  IsInlineChildren nil = Unit
  IsInlineChildren (absent cs) = IsInlineChildren cs
  IsInlineChildren (present r cs) = IsInlineRef r × IsInlineChildren cs

module _ (x : Externals) where
  SameGet : ℕ → List ℕ → Type 0
  SameGet f k =
      (n m : Node) → Hides n m → IsInline n → get_at_node x f n k ≡ get_at_node (unhidden x) f m k

  get-child :
      (f i : ℕ) (k : List ℕ) {cs cs' : Children}
      → SameGet f k
      → HidesChildren cs cs'
      → IsInlineChildren cs
      → (or_panic (child cs i) >>= λ slot. elim slot [
        | none ↦ ok none
        | some r ↦ resolve_node_ref x r >>= λ n. get_at_node x f n k
      ])
        ≡ (or_panic (child cs' i) >>= λ slot. elim slot [
          | none ↦ ok none
          | some r ↦ resolve_node_ref (unhidden x) r >>= λ n. get_at_node (unhidden x) f n k
        ])
  unfolding SameGet IsInline child resolve_node_ref
  get-child f i k again nil_hides w = refl
  get-child f zero k again (absent_hides h) w = refl
  get-child f (suc i) k again (absent_hides h) w = get-child f i k again h w
  get-child f zero k again (present_hides (shown {n} {m} g) h) w = again n m g w.0
  get-child f zero k again (present_hides (hidden b n) h) w = absurd w.0
  get-child f (suc i) k again (present_hides s h) w = get-child f i k again h w.1

  get_at_node-unhidden : (f : ℕ) (k : List ℕ) → SameGet f k
  unfolding SameGet IsInline get_at_node resolve_node_ref
  get_at_node-unhidden zero k n m h w = refl
  get_at_node-unhidden (suc f) k n m empty_hides w = refl
  get_at_node-unhidden (suc f) k n m (leaf_hides l v) w = refl
  get_at_node-unhidden (suc f) k n m (extension_hides e (hidden b c)) w = absurd w
  get_at_node-unhidden (suc f) k n m (extension_hides e (shown {n = c} {m = d} g)) w =
      rw (get_at_node-unhidden f (drop (matching e.items k) k) c d g w) refl
  get_at_node-unhidden (suc f) [] n m (branch_hides v h) w = refl
  get_at_node-unhidden (suc f) (i ∷ k) n m (branch_hides v h) w =
      get-child f i k (get_at_node-unhidden f k) h w

module _ (x : Externals) (missing : Missing x) where
  pub apply-Follows :
      (op : Op) (t t' : PatriciaTrie)
      → HidesTrie t t'
      → Follows HidesTrie (apply x op t) (apply (unhidden x) op t')
  unfolding apply insert delete HidesResult
  apply-Follows (insert_op key v) t t' h =
      bind (insert_at_node-Follows x missing (enough (path key)) (path key) v h)
        (λ n m g. returns g)
  apply-Follows (delete_op key) t t' h =
      bind
        (bind (delete_at_node-Follows x missing (enough (path key)) (path key) t.root t'.root h)
          deleted_trie)
        (λ a b g. returns g)

  pub run-Follows :
      (ops : List Op) (t t' : PatriciaTrie)
      → HidesTrie t t'
      → Follows HidesTrie (run x ops t) (run (unhidden x) ops t')
  unfolding run
  run-Follows [] t t' h = returns h
  run-Follows (op ∷ ops) t t' h = bind (apply-Follows op t t' h) (run-Follows ops)

  -- What a lookup follows, it answers, unless it fails.
  answered :
      {r i : Result TrieError Value} (v : Value)
      → Follows Same r i
      → i ≡ ok v
      → (r ≡ err key_not_found) ⊎ (r ≡ ok v)
  answered v fails e = inl refl
  answered v (returns (same_value w)) e = inr e
  answered v panics e = absurd (cc e)
  answered v stops e = absurd (cc e)

  -- What a run on a trie with hidden nodes leaves.
  Faithful : (List ℕ → Value) → Result TrieError PatriciaTrie → Type 0
  Faithful f r =
      (r ≡ err key_not_found)
      ⊎ ((t : PatriciaTrie) × ((r ≡ ok t)
            × ((q : List ℕ)
                → IsBytes q
                → (get x t q ≡ err key_not_found) ⊎ (get x t q ≡ ok (f q)))))

  pub reads :
      (t t' : PatriciaTrie) (q : List ℕ) (v : Value)
      → HidesTrie t t'
      → get (unhidden x) t' q ≡ ok v
      → (get x t q ≡ err key_not_found) ⊎ (get x t q ≡ ok v)
  unfolding get
  reads t t' q v h e =
      answered v (get_at_node-Follows x missing (enough (path q)) (path q) t.root t'.root h) e

  faithful :
      (f : List ℕ → Value) (r i : Result TrieError PatriciaTrie) (t' : PatriciaTrie)
      → Follows HidesTrie r i
      → i ≡ ok t'
      → ((q : List ℕ) → IsBytes q → get (unhidden x) t' q ≡ ok (f q))
      → Faithful f r
  unfolding Faithful
  faithful f r i t' fails e g = inl refl
  faithful f r i t' (returns {a} {b} h) e g =
      let same : b ≡ t' = cc e in
      inr (a, (refl, λ q j. reads a t' q (f q) (subst (λ z. HidesTrie a z) same h) (g q j)))
  faithful f r i t' panics e g = absurd (cc e)
  faithful f r i t' stops e g = absurd (cc e)

  -- Any sequence of insertions and deletions of byte keys, from the empty trie, over a database that has no
  -- node, with any encoder of lists and any hash, either fails with `KeyNotFound` or succeeds, without a
  -- panic and within the fuel. The trie then answers every byte key with `KeyNotFound` or as the same
  -- changes of the empty function do: no answer is wrong.
  pub run-new_answers :
      (ops : List Op)
      → ByteKeys ops
      → (run x ops new ≡ err key_not_found)
        ⊎ ((t : PatriciaTrie) × ((run x ops new ≡ ok t)
              × ((q : List ℕ)
                  → IsBytes q
                  → (get x t q ≡ err key_not_found) ⊎ (get x t q ≡ ok (replay ops (λ _. none) q)))))
  unfolding Faithful
  run-new_answers ops i =
      let (t', e, w, g) =
        run-new_refines (unhidden x) (Nothing x) (unhidden-Loads x) (unhidden-Keeps x) ops i in
      faithful (replay ops (λ _. none)) (run x ops new) (run (unhidden x) ops new) t'
        (run-Follows ops new new empty_hides) e g

  exact :
      (f : List ℕ → Value) (r i : Result TrieError PatriciaTrie) (t t' : PatriciaTrie)
      → Follows HidesTrie r i
      → r ≡ ok t
      → i ≡ ok t'
      → IsInline t.root
      → ((q : List ℕ) → IsBytes q → get (unhidden x) t' q ≡ ok (f q))
      → (q : List ℕ) → IsBytes q
      → get x t q ≡ ok (f q)
  unfolding get SameGet
  exact f r i t t' fails p e w g q j = absurd (cc p)
  exact f r i t t' panics p e w g q j = absurd (cc p)
  exact f r i t t' stops p e w g q j = absurd (cc p)
  exact f r i t t' (returns {a} {b} h) p e w g q j =
      let one : a ≡ t = cc p in
      let two : b ≡ t' = cc e in
      let related : HidesTrie t t' =
        subst (λ z. HidesTrie z t') one (subst (λ z. HidesTrie a z) two h) in
      get_at_node-unhidden x (enough (path q)) (path q) t.root t'.root related w ∙ g q j

  -- Where a sequence of insertions and deletions of byte keys, from the empty trie, over a database that has
  -- no node, with any encoder of lists and any hash, leaves a trie in which no reference is a hash, the trie
  -- answers every byte key as the same changes of the empty function do.
  pub run-new_exact :
      (ops : List Op) (t : PatriciaTrie)
      → ByteKeys ops
      → run x ops new ≡ ok t
      → IsInline t.root
      → (q : List ℕ) → IsBytes q
      → get x t q ≡ ok (replay ops (λ _. none) q)
  run-new_exact ops t i p w =
      let (t', e, _, g) =
        run-new_refines (unhidden x) (Nothing x) (unhidden-Loads x) (unhidden-Keeps x) ops i in
      exact (replay ops (λ _. none)) (run x ops new) (run (unhidden x) ops new) t t'
        (run-Follows ops new new empty_hides) p e w g
