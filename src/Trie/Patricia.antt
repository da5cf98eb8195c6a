-- ===== src/Trie/Patricia.antt =====
-- crates/trie/src/trie.rs: `PatriciaTrie`. A function gets the rest of the key from `key_index` on
-- (`key.slice_from(key_index)`) in place of the key and the index, and a recursion is on fuel.
pub mod Holds
pub mod Slots
pub mod WellFormed
pub mod Updated
pub mod Parts
pub mod Branches
pub mod Place
pub mod Inserted
pub mod Compact
pub mod Deleted
pub mod Map
pub mod Hidden
pub mod Client
pub mod Fresh
pub mod Inline
pub mod Commit
mod Tests
use ethereum_rust.Base.{
  ℕ, zero, suc, ◌+◌, ◌≡◌, Bool, true, false, ◌&&◌, List, [], ◌∷◌, ◌++◌, Option, none, some, ltb,
  ◌==◌, if◌then◌else◌, length, take, drop,
}
unfoldable pub use ethereum_rust.Base.Keys.{same}
use ethereum_rust.Base.Result.{Result, ok, err, panic, stuck, or_panic, ok_or, ◌>>=◌}
use ethereum_rust.Trie.Nibbles.{Nibbles, matching, from_bytes}
use ethereum_rust.Trie.Nibbles
use ethereum_rust.Trie.Node.Decoding.{decode_raw}
use ethereum_rust.Trie.Node.{
  Node, empty, leaf, extension, branch, NodeRef, hash, inline, Children, nil, absent, present,
  child, set_child, no_children, Externals, TrieError, key_not_found, from_node, encode_raw,
  hash_of,
}

-- The children that are there, with their places.
unfoldable pub occupied : ℕ → Children → List (ℕ × NodeRef)
occupied i nil = []
occupied i (absent cs) = occupied (suc i) cs
occupied i (present r cs) = (i, r) ∷ occupied (suc i) cs

module _ (x : Externals) where
  -- 't' stands before the hash.
  abbrev pub node_key : List ℕ → List ℕ
  node_key h = 0x74 ∷ h

  unfoldable pub load_node : List ℕ → Result TrieError Node
  load_node h =
      x.db_get (node_key h) >>= λ found. ok_or found key_not_found >>= λ bytes. decode_raw x bytes

  unfoldable pub resolve_node_ref : NodeRef → Result TrieError Node
  resolve_node_ref (inline n) = ok n
  resolve_node_ref (hash h) = load_node h

  -- The node behind a slot of a branch; `Node::Empty` behind an empty one.
  unfoldable pub resolve_slot : Option NodeRef → Result TrieError Node
  resolve_slot none = ok empty
  resolve_slot (some r) = resolve_node_ref r

  unfoldable pub get_at_node : ℕ → Node → List ℕ → Result TrieError (Option (List ℕ))
  get_at_node zero node key = stuck
  get_at_node (suc fuel) empty key = ok none
  get_at_node (suc fuel) (leaf leaf_key value) key =
      if same key leaf_key.items then ok (some value) else ok none
  get_at_node (suc fuel) (extension ext_key r) key =
      let common_len = matching ext_key.items key in
      let below = resolve_node_ref r >>= λ node. get_at_node fuel node (drop common_len key) in
      if common_len == length ext_key.items then below else ok none
  get_at_node (suc fuel) (branch children value) [] = ok value
  get_at_node (suc fuel) (branch children value) (nibble ∷ key) =
      or_panic (child children nibble) >>= λ slot. elim slot [
        | none ↦ ok none
        | some r ↦ resolve_node_ref r >>= λ node. get_at_node fuel node key
      ]

  -- A value put into a new branch: as the value of the branch when nothing of its key is left, else
  -- as a leaf below the first nibble.
  unfoldable pub place :
      List ℕ → List ℕ → Children → Option (List ℕ) → Result TrieError (Children × Option (List ℕ))
  place [] v children value = ok (children, some v)
  place (nibble ∷ rest) v children value = from_node x (leaf (Nibbles.new rest) v) >>= λ r.
      or_panic (set_child children nibble (some r)) >>= λ children'. ok (children', value)

  -- The rest of an extension put into a new branch.
  unfoldable pub place_extension : List ℕ → NodeRef → Children → Result TrieError Children
  place_extension [] r children = ok children
  place_extension (nibble ∷ []) r children = or_panic (set_child children nibble (some r))
  place_extension (nibble ∷ n ∷ rest) r children =
      from_node x (extension (Nibbles.new (n ∷ rest)) r) >>= λ r'.
      or_panic (set_child children nibble (some r'))

  -- The branch, below an extension when the keys have a common prefix.
  unfoldable pub with_prefix : List ℕ → Node → Result TrieError Node
  with_prefix [] node = ok node
  with_prefix (n ∷ prefix) node =
      from_node x node >>= λ r. ok (extension (Nibbles.new (n ∷ prefix)) r)

  -- `a` and `b` are what is left of the key of the leaf and of the new key after the common prefix.
  unfoldable pub split_leaf : List ℕ → List ℕ → List ℕ → List ℕ → List ℕ → Result TrieError Node
  split_leaf prefix a leaf_value b value =
      place a leaf_value (no_children 16) none >>= λ (children, v).
      place b value children v >>= λ (children', v'). with_prefix prefix (branch children' v')

  unfoldable pub split_extension :
      List ℕ → List ℕ → NodeRef → List ℕ → List ℕ → Result TrieError Node
  split_extension prefix a r b value = place_extension a r (no_children 16) >>= λ children.
      place b value children none >>= λ (children', v'). with_prefix prefix (branch children' v')

  unfoldable pub insert_at_node : ℕ → Node → List ℕ → List ℕ → Result TrieError Node
  insert_at_node zero node key value = stuck
  insert_at_node (suc fuel) empty key value = ok (leaf (Nibbles.new key) value)
  insert_at_node (suc fuel) (leaf leaf_key leaf_value) key value =
      let common_len = matching leaf_key.items key in
      if (common_len == length leaf_key.items) && (common_len == length key)
      then ok (leaf leaf_key value)
      else split_leaf (take common_len leaf_key.items) (drop common_len leaf_key.items) leaf_value
          (drop common_len key) value
  insert_at_node (suc fuel) (extension ext_key r) key value =
      let common_len = matching ext_key.items key in
      let below = resolve_node_ref r >>= λ node.
      insert_at_node fuel node (drop common_len key) value >>= λ new_child.
      from_node x new_child >>= λ r'. ok (extension ext_key r') in
      if common_len == length ext_key.items
      then below
      else split_extension (take common_len ext_key.items) (drop common_len ext_key.items) r
          (drop common_len key) value
  insert_at_node (suc fuel) (branch children branch_value) [] value =
      ok (branch children (some value))
  insert_at_node (suc fuel) (branch children branch_value) (nibble ∷ key) value =
      or_panic (child children nibble) >>= λ slot. resolve_slot slot >>= λ node.
      insert_at_node fuel node key value >>= λ new_child. from_node x new_child >>= λ r.
      or_panic (set_child children nibble (some r)) >>= λ children'.
      ok (branch children' branch_value)

  -- What is left of a branch that has one child and no value.
  unfoldable pub join_child : ℕ → NodeRef → Node → Node
  join_child nibble r (leaf child_key value) = leaf (Nibbles.new (nibble ∷ child_key.items)) value
  join_child nibble r (extension child_key node) =
      extension (Nibbles.new (nibble ∷ child_key.items)) node
  join_child nibble r empty = extension (Nibbles.new (nibble ∷ [])) r
  join_child nibble r (branch children value) = extension (Nibbles.new (nibble ∷ [])) r

  unfoldable pub compact_by :
      List (ℕ × NodeRef) → Children → Option (List ℕ) → Result TrieError Node
  compact_by [] children none = ok empty
  compact_by [] children (some v) = ok (leaf (Nibbles.new []) v)
  compact_by ((nibble, r) ∷ []) children none =
      resolve_node_ref r >>= λ node. ok (join_child nibble r node)
  compact_by ((nibble, r) ∷ []) children (some v) = ok (branch children (some v))
  compact_by (c ∷ e ∷ cs) children value = ok (branch children value)

  abbrev pub try_compact_branch : Children → Option (List ℕ) → Result TrieError Node
  try_compact_branch children value = compact_by (occupied 0 children) children value

  -- An extension above the node that is left of its child.
  unfoldable pub join_extension : Nibbles → Node → Result TrieError Node
  join_extension ext_key empty = ok empty
  join_extension ext_key (leaf child_key value) =
      ok (leaf (Nibbles.new (ext_key.items ++ child_key.items)) value)
  join_extension ext_key (extension child_key node) =
      ok (extension (Nibbles.new (ext_key.items ++ child_key.items)) node)
  join_extension ext_key (branch children value) =
      from_node x (branch children value) >>= λ r. ok (extension ext_key r)

  -- The slot of a child that is left of one.
  unfoldable pub slot_of : Node → Result TrieError (Option NodeRef)
  slot_of empty = ok none
  slot_of (leaf k v) = from_node x (leaf k v) >>= λ r. ok (some r)
  slot_of (extension k r) = from_node x (extension k r) >>= λ r'. ok (some r')
  slot_of (branch cs v) = from_node x (branch cs v) >>= λ r. ok (some r)

  -- What a node is after a deletion below it: itself when nothing was deleted.
  abbrev pub rebuilt : Node → Bool → Result TrieError Node → Result TrieError (Node × Bool)
  rebuilt node false new = ok (node, false)
  rebuilt node true new = new >>= λ n. ok (n, true)

  unfoldable pub delete_at_node : ℕ → Node → List ℕ → Result TrieError (Node × Bool)
  delete_at_node zero node key = stuck
  delete_at_node (suc fuel) empty key = ok (empty, false)
  delete_at_node (suc fuel) (leaf leaf_key value) key =
      if same key leaf_key.items then ok (empty, true) else ok (leaf leaf_key value, false)
  delete_at_node (suc fuel) (extension ext_key r) key =
      let common_len = matching ext_key.items key in
      let below = resolve_node_ref r >>= λ node.
      delete_at_node fuel node (drop common_len key) >>= λ (new_child, deleted).
      rebuilt (extension ext_key r) deleted (join_extension ext_key new_child) in
      if common_len == length ext_key.items then below else ok (extension ext_key r, false)
  delete_at_node (suc fuel) (branch children none) [] = ok (branch children none, false)
  delete_at_node (suc fuel) (branch children (some v)) [] =
      try_compact_branch children none >>= λ n. ok (n, true)
  delete_at_node (suc fuel) (branch children value) (nibble ∷ key) =
      or_panic (child children nibble) >>= λ slot. elim slot [
        | none ↦ ok (branch children value, false)
        | some r ↦ resolve_node_ref r >>= λ node.
            delete_at_node fuel node key >>= λ (new_child, deleted).
            rebuilt (branch children value) deleted (
              slot_of new_child >>= λ slot'.
              or_panic (set_child children nibble slot') >>= λ children'.
              try_compact_branch children' value)
      ]

-- The state: the root and its cached hash. The database is a field of `Externals`.
pub record PatriciaTrie : Type 0 where
  pub root : Node
  pub cached : Option (List ℕ)

abbrev pub new : PatriciaTrie
new = record { root = empty; cached = none }

-- `Nibbles::from_bytes(key)`; a key of that length needs one more step than it has nibbles.
abbrev pub path : List ℕ → List ℕ
path key = (from_bytes key).items

abbrev pub enough : List ℕ → ℕ
enough key = suc (length key)

module _ (x : Externals) where
  unfoldable pub new_with_root : List ℕ → Result TrieError PatriciaTrie
  new_with_root root_hash =
      load_node x root_hash >>= λ root. ok (record { root = root; cached = some root_hash })

  -- `root_hash` when the cache holds this.
  unfoldable pub cached_hash :
      Option (List ℕ) → PatriciaTrie → Result TrieError (List ℕ × PatriciaTrie)
  cached_hash (some h) t = ok (h, t)
  cached_hash none t = encode_raw x t.root >>= λ encoded.
      ok (hash_of x encoded, record t { cached = some (hash_of x encoded) })

  unfoldable pub root_hash : PatriciaTrie → Result TrieError (List ℕ × PatriciaTrie)
  root_hash t = cached_hash t.cached t

  unfoldable pub get : PatriciaTrie → List ℕ → Result TrieError (Option (List ℕ))
  get t key = get_at_node x (enough (path key)) t.root (path key)

  unfoldable pub insert : List ℕ → List ℕ → PatriciaTrie → Result TrieError PatriciaTrie
  insert key value t = insert_at_node x (enough (path key)) t.root (path key) value >>= λ root.
      ok (record { root = root; cached = none })

  unfoldable pub delete : List ℕ → PatriciaTrie → Result TrieError (Bool × PatriciaTrie)
  delete key t = delete_at_node x (enough (path key)) t.root (path key) >>= λ (root, deleted).
      ok (deleted, record { root = root; cached = none })
