-- ===== src/Trie/Proof.antt =====
-- crates/trie/src/proof.rs: `MerkleProof`, its verification, and `generate_proof`. A function gets the
-- rest of the key, and a recursion is on fuel.
pub mod Collected
pub mod Complete
pub mod Forged
mod Sample
mod Tests
use ethereum_rust.Base.{
  ℕ, zero, suc, ◌≡◌, Bool, true, false, List, [], ◌∷◌, ◌++◌, Option, none, some, ◌==◌,
  if◌then◌else◌, length, drop, get_elem?,
}
use ethereum_rust.Base.Result.{Result, ok, err, panic, stuck, or_panic, ok_or, ◌>>=◌}
use ethereum_rust.Trie.Nibbles.{Nibbles, matching}
use ethereum_rust.Trie.Node.Decoding.{decode_raw}
use ethereum_rust.Trie.Node.{
  Node, empty, leaf, extension, branch, NodeRef, hash, inline, Children, child, Externals,
  TrieError, invalid_proof, encode_raw, hash_of,
}
use ethereum_rust.Trie.Patricia.{same, path, enough}

pub record MerkleProof : Type 0 where
  pub nodes : List (List ℕ)

abbrev pub new : MerkleProof
new = record { nodes = [] }

abbrev pub add_node : List ℕ → MerkleProof → MerkleProof
add_node encoded p = record { nodes = p.nodes ++ (encoded ∷ []) }

-- The `match (value, expected_value)`.
unfoldable pub agrees : Option (List ℕ) → Option (List ℕ) → Bool
agrees (some v) (some exp) = same v exp
agrees none none = true
agrees (some v) none = false
agrees none (some exp) = false

module _ (x : Externals) where
  -- The hash in the reference is not looked at.
  unfoldable pub resolve_proof_node : MerkleProof → NodeRef → ℕ → Result TrieError Node
  resolve_proof_node p (inline n) proof_index = ok n
  resolve_proof_node p (hash h) proof_index =
      ok_or (get_elem? p.nodes proof_index) invalid_proof >>= λ bytes. decode_raw x bytes

  unfoldable pub verify_at_node :
      ℕ → MerkleProof → Node → List ℕ → ℕ → Result TrieError (Option (List ℕ))
  verify_at_node zero p node key proof_index = stuck
  verify_at_node (suc fuel) p empty key proof_index = ok none
  verify_at_node (suc fuel) p (leaf leaf_key value) key proof_index =
      if same key leaf_key.items then ok (some value) else ok none
  verify_at_node (suc fuel) p (extension ext_key r) key proof_index =
      let common_len = matching ext_key.items key in
      let below = resolve_proof_node p r proof_index >>= λ node.
      verify_at_node fuel p node (drop common_len key) (suc proof_index) in
      if common_len == length ext_key.items then below else ok none
  verify_at_node (suc fuel) p (branch children value) [] proof_index = ok value
  verify_at_node (suc fuel) p (branch children value) (nibble ∷ key) proof_index =
      or_panic (child children nibble) >>= λ slot. elim slot [
        | none ↦ ok none
        | some r ↦ resolve_proof_node p r proof_index >>= λ node.
            verify_at_node fuel p node key (suc proof_index)
      ]

  unfoldable pub verify_first :
      ℕ → MerkleProof → List ℕ → List ℕ → Option (List ℕ) → List ℕ → Result TrieError Bool
  verify_first fuel p root_hash key expected_value first = decode_raw x first >>= λ first_node.
      encode_raw x first_node >>= λ encoded.
      let traversed = verify_at_node fuel p first_node (path key) 1 >>= λ value.
      ok (agrees value expected_value) in
      if same (hash_of x encoded) root_hash then traversed else ok false

  unfoldable pub verify : MerkleProof → List ℕ → List ℕ → Option (List ℕ) → Result TrieError Bool
  verify p root_hash key expected_value = elim p.nodes [
    | [] ↦ ok false
    | first ∷ rest ↦ verify_first (enough (path key)) p root_hash key expected_value first
  ]

  -- The child that the collection goes on with.
  unfoldable pub proof_child :
      (List ℕ → Result TrieError (List ℕ)) → NodeRef → Result TrieError Node
  proof_child load_node (inline n) = ok n
  proof_child load_node (hash h) = load_node h >>= λ bytes. decode_raw x bytes

  -- The nodes that are added, in order; `load_node` is the caller's. In the case of a branch the source
  -- leaves the `Result` of the recursive call as a statement, which is not of the unit type; it is passed on here.
  unfoldable pub collect_proof_nodes :
      ℕ → (List ℕ → Result TrieError (List ℕ)) → Node → List ℕ → Result TrieError (List (List ℕ))
  collect_proof_nodes zero load_node node key = stuck
  collect_proof_nodes (suc fuel) load_node empty key = encode_raw x empty >>= λ e. ok (e ∷ [])
  collect_proof_nodes (suc fuel) load_node (leaf k v) key =
      encode_raw x (leaf k v) >>= λ e. ok (e ∷ [])
  collect_proof_nodes (suc fuel) load_node (extension ext_key r) key =
      let common_len = matching ext_key.items key in
      let below = proof_child load_node r >>= λ node.
      collect_proof_nodes fuel load_node node (drop common_len key) in
      encode_raw x (extension ext_key r) >>= λ e.
      (if common_len == length ext_key.items then below else ok []) >>= λ rest. ok (e ∷ rest)
  collect_proof_nodes (suc fuel) load_node (branch children value) [] =
      encode_raw x (branch children value) >>= λ e. ok (e ∷ [])
  collect_proof_nodes (suc fuel) load_node (branch children value) (nibble ∷ key) =
      encode_raw x (branch children value) >>= λ e.
      (or_panic (child children nibble) >>= λ slot. elim slot [
        | none ↦ ok []
        | some r ↦ proof_child load_node r >>= λ node. collect_proof_nodes fuel load_node node key
      ])
      >>= λ rest. ok (e ∷ rest)

  unfoldable pub generate_proof :
      Node → List ℕ → (List ℕ → Result TrieError (List ℕ)) → Result TrieError MerkleProof
  generate_proof root key load_node =
      collect_proof_nodes (enough (path key)) load_node root (path key) >>= λ nodes.
      ok (record { nodes = nodes })
