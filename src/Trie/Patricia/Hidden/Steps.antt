-- ===== src/Trie/Patricia/Hidden/Steps.antt =====
-- crates/trie/src/trie.rs: the operations on a trie with hidden nodes follow those on the same trie with
-- every node in its parent.
use ethereum_rust.Base.{
  ℕ, zero, suc, Bool, true, false, ◌&&◌, List, [], ◌∷◌, ◌++◌, Option, none, some, ◌==◌, length,
  take, drop,
}
use ethereum_rust.Base.Result.{Result, ok, or_panic, ◌>>=◌}
use ethereum_rust.Trie.Nibbles.{Nibbles, matching}
use ethereum_rust.Trie.Nibbles
use ethereum_rust.Trie.Node.{
  Node, extension, branch, NodeRef, Children, set_child, Externals, TrieError,
}
use ethereum_rust.Trie.Patricia.{
  resolve_node_ref, get_at_node, place, place_extension, with_prefix, split_leaf, split_extension,
  insert_at_node, occupied, join_child, compact_by, join_extension, slot_of, rebuilt,
  delete_at_node, same,
}
use ethereum_rust.Trie.Patricia.Hidden.{
  Missing, unhidden, Hides, empty_hides, leaf_hides, extension_hides, branch_hides, HidesRef,
  HidesChildren, HidesSlot, HidesList, no_more, one_more, Follows, returns, stops, neither, both,
  bind, or_panic-Follows, if-Follows, child-Hides, set_child-Hides, no_children-Hides,
  occupied-Hides, from_node-Follows, resolve_node_ref-Follows, resolve_slot-Follows,
}

abbrev pub Value : Type 0
Value = Option (List ℕ)

-- The children and the value of a branch.
data HidesParts : Children × Value → Children × Value → Type 0 where
  parts : {cs cs' : Children} (v : Value) → HidesChildren cs cs' → HidesParts (cs, v) (cs', v)

pub data HidesDeleted : Node × Bool → Node × Bool → Type 0 where
  deletes : {n m : Node} (b : Bool) → Hides n m → HidesDeleted (n, b) (m, b)

pub data Same : Value → Value → Type 0 where
  same_value : (v : Value) → Same v v

module _ (x : Externals) where
  place-Follows :
      (b v : List ℕ) {cs cs' : Children} (o : Value)
      → HidesChildren cs cs'
      → Follows HidesParts (place x b v cs o) (place (unhidden x) b v cs' o)
  unfolding place
  place-Follows [] v o h = returns (parts (some v) h)
  place-Follows (n ∷ b) v {cs} {cs'} o h =
      bind (from_node-Follows x (leaf_hides (Nibbles.new b) v)) (λ r r' s.
        bind (or_panic-Follows (set_child-Hides h n (both s))) (λ c c' k. returns (parts o k)))

  place_extension-Follows :
      (a : List ℕ) {r r' : NodeRef} {cs cs' : Children}
      → HidesRef r r'
      → HidesChildren cs cs'
      → Follows HidesChildren (place_extension x a r cs) (place_extension (unhidden x) a r' cs')
  unfolding place_extension
  place_extension-Follows [] s h = returns h
  place_extension-Follows (n ∷ []) s h = or_panic-Follows (set_child-Hides h n (both s))
  place_extension-Follows (n ∷ m ∷ a) s h =
      bind (from_node-Follows x (extension_hides (Nibbles.new (m ∷ a)) s))
        (λ r r' s'. or_panic-Follows (set_child-Hides h n (both s')))

  with_prefix-Follows :
      (p : List ℕ) {n m : Node}
      → Hides n m
      → Follows Hides (with_prefix x p n) (with_prefix (unhidden x) p m)
  unfolding with_prefix
  with_prefix-Follows [] h = returns h
  with_prefix-Follows (i ∷ p) h =
      bind (from_node-Follows x h) (λ r r' s. returns (extension_hides (Nibbles.new (i ∷ p)) s))

  branch-Follows :
      (p : List ℕ) (a b : Children × Value)
      → HidesParts a b
      → Follows Hides
          (with_prefix x p (branch a.0 a.1))
          (with_prefix (unhidden x) p (branch b.0 b.1))
  branch-Follows p a b (parts v h) = with_prefix-Follows p (branch_hides v h)

  place_next-Follows :
      (b v p : List ℕ) (c d : Children × Value)
      → HidesParts c d
      → Follows Hides
          (place x b v c.0 c.1 >>= λ (cs, o). with_prefix x p (branch cs o))
          (place (unhidden x) b v d.0 d.1 >>= λ (cs, o). with_prefix (unhidden x) p (branch cs o))
  place_next-Follows b v p c d (parts o h) = bind (place-Follows b v o h) (branch-Follows p)

  split_leaf-Follows :
      (p a u b v : List ℕ)
      → Follows Hides (split_leaf x p a u b v) (split_leaf (unhidden x) p a u b v)
  unfolding split_leaf
  split_leaf-Follows p a u b v =
      bind (place-Follows a u none (no_children-Hides 16)) (place_next-Follows b v p)

  split_extension-Follows :
      (p a b v : List ℕ) {r r' : NodeRef}
      → HidesRef r r'
      → Follows Hides (split_extension x p a r b v) (split_extension (unhidden x) p a r' b v)
  unfolding split_extension
  split_extension-Follows p a b v s =
      bind (place_extension-Follows a s (no_children-Hides 16))
        (λ c c' h. place_next-Follows b v p (c, none) (c', none) (parts none h))

  join_child-Hides :
      (i : ℕ) {r r' : NodeRef} {n m : Node}
      → HidesRef r r'
      → Hides n m
      → Hides (join_child x i r n) (join_child (unhidden x) i r' m)
  unfolding join_child
  join_child-Hides i s (leaf_hides k v) = leaf_hides (Nibbles.new (i ∷ k.items)) v
  join_child-Hides i s (extension_hides k q) = extension_hides (Nibbles.new (i ∷ k.items)) q
  join_child-Hides i s empty_hides = extension_hides (Nibbles.new (i ∷ [])) s
  join_child-Hides i s (branch_hides v h) = extension_hides (Nibbles.new (i ∷ [])) s

  join_extension-Follows :
      (k : Nibbles) {n m : Node}
      → Hides n m
      → Follows Hides (join_extension x k n) (join_extension (unhidden x) k m)
  unfolding join_extension
  join_extension-Follows k empty_hides = returns empty_hides
  join_extension-Follows k (leaf_hides l v) =
      returns (leaf_hides (Nibbles.new (k.items ++ l.items)) v)
  join_extension-Follows k (extension_hides l q) =
      returns (extension_hides (Nibbles.new (k.items ++ l.items)) q)
  join_extension-Follows k (branch_hides v h) =
      bind (from_node-Follows x (branch_hides v h)) (λ r r' s. returns (extension_hides k s))

  slot_of-Follows :
      {n m : Node} → Hides n m → Follows HidesSlot (slot_of x n) (slot_of (unhidden x) m)
  unfolding slot_of
  slot_of-Follows empty_hides = returns neither
  slot_of-Follows (leaf_hides k v) =
      bind (from_node-Follows x (leaf_hides k v)) (λ r r' s. returns (both s))
  slot_of-Follows (extension_hides k q) =
      bind (from_node-Follows x (extension_hides k q)) (λ r r' s. returns (both s))
  slot_of-Follows (branch_hides v h) =
      bind (from_node-Follows x (branch_hides v h)) (λ r r' s. returns (both s))

  rebuilt-Follows :
      (b : Bool) {n m : Node} {new new' : Result TrieError Node}
      → Hides n m
      → Follows Hides new new'
      → Follows HidesDeleted (rebuilt x n b new) (rebuilt (unhidden x) m b new')
  rebuilt-Follows false h k = returns (deletes false h)
  rebuilt-Follows true h k = bind k (λ n m r. returns (deletes true r))

  module _ (missing : Missing x) where
    compact_by-Follows :
        {l l' : List (ℕ × NodeRef)} {cs cs' : Children} (v : Value)
        → HidesList l l'
        → HidesChildren cs cs'
        → Follows Hides (compact_by x l cs v) (compact_by (unhidden x) l' cs' v)
    unfolding compact_by
    compact_by-Follows none no_more h = returns empty_hides
    compact_by-Follows (some v) no_more h = returns (leaf_hides (Nibbles.new []) v)
    compact_by-Follows none (one_more i s no_more) h =
        bind (resolve_node_ref-Follows x missing s) (λ n m r. returns (join_child-Hides i s r))
    compact_by-Follows (some v) (one_more i s no_more) h = returns (branch_hides (some v) h)
    compact_by-Follows v (one_more i s (one_more j t l)) h = returns (branch_hides v h)

    pub insert_at_node-Follows :
        (f : ℕ) {n m : Node} (k v : List ℕ)
        → Hides n m
        → Follows Hides (insert_at_node x f n k v) (insert_at_node (unhidden x) f m k v)
    unfolding insert_at_node
    insert_at_node-Follows zero k v h = stops
    insert_at_node-Follows (suc f) k v empty_hides = returns (leaf_hides (Nibbles.new k) v)
    insert_at_node-Follows (suc f) k v (leaf_hides lk lv) =
        let c = matching lk.items k in
        if-Follows ((c == length lk.items) && (c == length k)) (returns (leaf_hides lk v))
          (split_leaf-Follows (take c lk.items) (drop c lk.items) lv (drop c k) v)
    insert_at_node-Follows (suc f) k v (extension_hides e s) =
        let c = matching e.items k in
        if-Follows (c == length e.items)
          (bind (resolve_node_ref-Follows x missing s) (λ n m h.
            bind (insert_at_node-Follows f (drop c k) v h) (λ n' m' h'.
              bind (from_node-Follows x h') (λ r r' s'. returns (extension_hides e s')))))
          (split_extension-Follows (take c e.items) (drop c e.items) (drop c k) v s)
    insert_at_node-Follows (suc f) [] v (branch_hides o h) = returns (branch_hides (some v) h)
    insert_at_node-Follows (suc f) (i ∷ k) v (branch_hides o h) =
        bind (or_panic-Follows (child-Hides h i)) (λ s s' q.
          bind (resolve_slot-Follows x missing q) (λ n m g.
            bind (insert_at_node-Follows f k v g) (λ n' m' g'.
              bind (from_node-Follows x g') (λ r r' t.
                bind (or_panic-Follows (set_child-Hides h i (both t)))
                  (λ c c' d. returns (branch_hides o d))))))

    deleted-Follows :
        (i : ℕ) (v : Value) {cs cs' : Children} (a b : Node × Bool)
        → HidesChildren cs cs'
        → HidesDeleted a b
        → Follows HidesDeleted
            (rebuilt x (branch cs v) a.1 (
              slot_of x a.0 >>= λ slot'. or_panic (set_child cs i slot') >>= λ children'.
              compact_by x (occupied 0 children') children' v))
            (rebuilt (unhidden x) (branch cs' v) b.1 (
              slot_of (unhidden x) b.0 >>= λ slot'.
              or_panic (set_child cs' i slot') >>= λ children'.
              compact_by (unhidden x) (occupied 0 children') children' v))
    deleted-Follows i v a b h (deletes d g) = rebuilt-Follows d (branch_hides v h) (
        bind (slot_of-Follows g) (λ s s' t.
          bind (or_panic-Follows (set_child-Hides h i t))
            (λ c c' e. compact_by-Follows v (occupied-Hides e 0) e)))

    joined-Follows :
        (k : Nibbles) {r r' : NodeRef} (a b : Node × Bool)
        → HidesRef r r'
        → HidesDeleted a b
        → Follows HidesDeleted
            (rebuilt x (extension k r) a.1 (join_extension x k a.0))
            (rebuilt (unhidden x) (extension k r') b.1 (join_extension (unhidden x) k b.0))
    joined-Follows k a b s (deletes d g) =
        rebuilt-Follows d (extension_hides k s) (join_extension-Follows k g)

    Deletes : ℕ → List ℕ → Type 0
    Deletes f k =
        (n m : Node)
        → Hides n m
        → Follows HidesDeleted (delete_at_node x f n k) (delete_at_node (unhidden x) f m k)

    delete_slot-Follows :
        (f i : ℕ) (k : List ℕ) (v : Value) {cs cs' : Children} (s s' : Option NodeRef)
        → Deletes f k
        → HidesChildren cs cs'
        → HidesSlot s s'
        → Follows HidesDeleted
            (elim s [
              | none ↦ ok (branch cs v, false)
              | some r ↦ resolve_node_ref x r >>= λ node.
                  delete_at_node x f node k >>= λ (new_child, deleted).
                  rebuilt x (branch cs v) deleted (
                    slot_of x new_child >>= λ slot'.
                    or_panic (set_child cs i slot') >>= λ children'.
                    compact_by x (occupied 0 children') children' v)
            ])
            (elim s' [
              | none ↦ ok (branch cs' v, false)
              | some r ↦ resolve_node_ref (unhidden x) r >>= λ node.
                  delete_at_node (unhidden x) f node k >>= λ (new_child, deleted).
                  rebuilt (unhidden x) (branch cs' v) deleted (
                    slot_of (unhidden x) new_child >>= λ slot'.
                    or_panic (set_child cs' i slot') >>= λ children'.
                    compact_by (unhidden x) (occupied 0 children') children' v)
            ])
    unfolding Deletes
    delete_slot-Follows f i k v s s' again h neither = returns (deletes false (branch_hides v h))
    delete_slot-Follows f i k v s s' again h (both q) =
        bind (resolve_node_ref-Follows x missing q)
          (λ n m g. bind (again n m g) (λ a b. deleted-Follows i v a b h))

    pub delete_at_node-Follows :
        (f : ℕ) (k : List ℕ) (n m : Node)
        → Hides n m
        → Follows HidesDeleted (delete_at_node x f n k) (delete_at_node (unhidden x) f m k)
    unfolding delete_at_node Deletes
    delete_at_node-Follows zero k n m h = stops
    delete_at_node-Follows (suc f) k n m empty_hides = returns (deletes false empty_hides)
    delete_at_node-Follows (suc f) k n m (leaf_hides l v) =
        if-Follows (same k l.items) (returns (deletes true empty_hides))
          (returns (deletes false (leaf_hides l v)))
    delete_at_node-Follows (suc f) k n m (extension_hides e s) =
        let c = matching e.items k in
        if-Follows (c == length e.items)
          (bind (resolve_node_ref-Follows x missing s) (λ n' m' h.
            bind (delete_at_node-Follows f (drop c k) n' m' h) (λ a b. joined-Follows e a b s)))
          (returns (deletes false (extension_hides e s)))
    delete_at_node-Follows (suc f) [] n m (branch_hides none h) =
        returns (deletes false (branch_hides none h))
    delete_at_node-Follows (suc f) [] n m (branch_hides (some v) h) =
        bind (compact_by-Follows none (occupied-Hides h 0) h) (λ a b g. returns (deletes true g))
    delete_at_node-Follows (suc f) (i ∷ k) n m (branch_hides v h) =
        bind (or_panic-Follows (child-Hides h i))
          (λ s s'. delete_slot-Follows f i k v s s' (delete_at_node-Follows f k) h)

    get_slot-Follows :
        (f : ℕ) (k : List ℕ) (s s' : Option NodeRef)
        → ((n m : Node)
            → Hides n m
            → Follows Same (get_at_node x f n k) (get_at_node (unhidden x) f m k))
        → HidesSlot s s'
        → Follows Same
            (elim s [ none ↦ ok none | some r ↦ resolve_node_ref x r >>= λ n. get_at_node x f n k ])
            (elim s' [
              | none ↦ ok none
              | some r ↦ resolve_node_ref (unhidden x) r >>= λ n. get_at_node (unhidden x) f n k
            ])
    get_slot-Follows f k s s' again neither = returns (same_value none)
    get_slot-Follows f k s s' again (both q) = bind (resolve_node_ref-Follows x missing q) again

    pub get_at_node-Follows :
        (f : ℕ) (k : List ℕ) (n m : Node)
        → Hides n m
        → Follows Same (get_at_node x f n k) (get_at_node (unhidden x) f m k)
    unfolding get_at_node
    get_at_node-Follows zero k n m h = stops
    get_at_node-Follows (suc f) k n m empty_hides = returns (same_value none)
    get_at_node-Follows (suc f) k n m (leaf_hides l v) =
        if-Follows (same k l.items) (returns (same_value (some v))) (returns (same_value none))
    get_at_node-Follows (suc f) k n m (extension_hides e s) =
        if-Follows (matching e.items k == length e.items)
          (bind (resolve_node_ref-Follows x missing s)
            (get_at_node-Follows f (drop (matching e.items k) k)))
          (returns (same_value none))
    get_at_node-Follows (suc f) [] n m (branch_hides v h) = returns (same_value v)
    get_at_node-Follows (suc f) (i ∷ k) n m (branch_hides v h) =
        bind (or_panic-Follows (child-Hides h i))
          (λ s s'. get_slot-Follows f k s s' (get_at_node-Follows f k))
