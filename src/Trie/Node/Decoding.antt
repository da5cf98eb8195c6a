-- ===== src/Trie/Node/Decoding.antt =====
-- crates/trie/src/node.rs: `Node::decode_raw`. A node inside of a node is decoded on fuel: its bytes are a
-- part of the bytes after the header, so that one unit more than there are bytes is enough.
use ethereum_rust.Base.{
  ℕ, zero, suc, List, [], ◌∷◌, Option, none, some, ◌==◌, if◌then◌else◌, length,
}
use ethereum_rust.Base.Outcome.{Outcome}
use ethereum_rust.Base.Result.{Result, ok, err, panic, stuck, ok_or, ◌>>=◌}
use ethereum_rust.Rlp.Decode.{Decoder, DecoderError, decode_bytes}
use ethereum_rust.Rlp.Decode
use ethereum_rust.Trie.Nibbles.{decode_compact}
use ethereum_rust.Trie.Node.{
  Node, empty, leaf, extension, branch, NodeRef, hash, inline, Children, nil, slot_cons, Externals,
  TrieError, rlp_error, invalid_node, invalid_nibbles,
}

-- `?` on a result of the decoder, with the decoder that it leaves.
unfoldable pub decoded :
    {A : Type 0} → Outcome Decoder DecoderError A → Result TrieError (A × Decoder)
decoded (Outcome.ok a d) = ok (a, d)
decoded (Outcome.err e d) = err rlp_error
decoded Outcome.panic = panic
decoded Outcome.stuck = stuck

abbrev pub next_bytes : Decoder → Result TrieError (List ℕ × Decoder)
next_bytes d = decoded (decode_bytes d)

module _ (again : List ℕ → Result TrieError Node) where
  -- A reference from its bytes: a hash when there are 32 of them.
  unfoldable pub decode_ref : List ℕ → Result TrieError NodeRef
  decode_ref bytes =
      let nested = again bytes >>= λ node. ok (inline node) in
      if length bytes == 32 then ok (hash bytes) else nested

  unfoldable pub decode_slot : List ℕ → Result TrieError (Option NodeRef)
  decode_slot [] = ok none
  decode_slot (b ∷ bytes) = decode_ref (b ∷ bytes) >>= λ r. ok (some r)

  -- The loop over the children; the number is what is left of the 16.
  unfoldable pub decode_children : ℕ → Decoder → Result TrieError (Children × Decoder)
  decode_children zero d = ok (nil, d)
  decode_children (suc n) d = next_bytes d >>= λ (child_data, d1).
      decode_slot child_data >>= λ slot.
      decode_children n d1 >>= λ (children, d2). ok (slot_cons slot children, d2)

  abbrev pub value_of : List ℕ → Option (List ℕ)
  value_of [] = none
  value_of (b ∷ bytes) = some (b ∷ bytes)

  unfoldable pub decode_branch : Decoder → Result TrieError Node
  decode_branch d = decode_children 16 d >>= λ (children, d1).
      next_bytes d1 >>= λ (value_data, d2). ok (branch children (value_of value_data))

  unfoldable pub decode_pair : Decoder → Result TrieError Node
  decode_pair d = next_bytes d >>= λ (key_data, d1).
      ok_or (decode_compact key_data) invalid_nibbles >>= λ (key, is_leaf).
      next_bytes d1 >>= λ (bytes, d2).
      let below = decode_ref bytes >>= λ node. ok (extension key node) in
      if is_leaf then ok (leaf key bytes) else below

  -- The `match list_size`.
  unfoldable pub decode_items : ℕ → Decoder → Result TrieError Node
  decode_items list_size d =
      let pair_node = decode_pair d in
      let branch_node = decode_branch d in
      if list_size == 2
      then pair_node
      else if list_size == 17
      then branch_node
      else err invalid_node

module _ (x : Externals) where
  unfoldable pub decode_on : ℕ → List ℕ → Result TrieError Node
  decode_on zero bytes = stuck
  decode_on (suc fuel) [] = ok empty
  decode_on (suc fuel) (b ∷ bytes) =
      decoded (x.decode_list_header (Decode.new (b ∷ bytes))) >>= λ (list_size, d).
      decode_items (decode_on fuel) list_size d

  unfoldable pub decode_raw : List ℕ → Result TrieError Node
  decode_raw bytes = decode_on (suc (length bytes)) bytes
