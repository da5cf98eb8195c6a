-- ===== src/Trie/Node.antt =====
-- crates/trie/src/node.rs: the nodes of the trie, their encoding, and the reference a parent keeps. The
-- encoder has no `encode_list` that takes a closure and the decoder no `decode_list_header`: these, the
-- hash and the database are the fields of `Externals`.
pub mod Decoding
use ethereum_rust.Base.{
  ℕ, zero, suc, ◌-◌, Bool, true, false, List, [], ◌++◌, Option, none, some, ltb, if◌then◌else◌,
  length, replicate,
}
use ethereum_rust.Base.Result.{Result, ok, or_panic, ◌>>=◌}
use ethereum_rust.Rlp.Decode.{Decode}
use ethereum_rust.Rlp.Encode.{string_form}
use ethereum_rust.Trie.Nibbles.{Nibbles, encode_compact}

pub data TrieError : Type 0 where
  key_not_found invalid_node invalid_proof storage_error rlp_error invalid_key_length : TrieError
  invalid_nibbles : TrieError

-- `Children` is the array `[Option<NodeRef>; 16]`.
mutual
  pub data Node : Type 0 where
    empty : Node
    leaf : Nibbles → List ℕ → Node
    extension : Nibbles → NodeRef → Node
    branch : Children → Option (List ℕ) → Node

  pub data NodeRef : Type 0 where
    hash : List ℕ → NodeRef
    inline : Node → NodeRef

  pub data Children : Type 0 where
    nil : Children
    absent : Children → Children
    present : NodeRef → Children → Children

abbrev pub slot_cons : Option NodeRef → Children → Children
slot_cons none cs = absent cs
slot_cons (some r) cs = present r cs

-- `children[i]`, where `none` is an index out of range.
unfoldable pub child : Children → ℕ → Option (Option NodeRef)
child nil i = none
child (absent cs) zero = some none
child (present r cs) zero = some (some r)
child (absent cs) (suc i) = child cs i
child (present r cs) (suc i) = child cs i

-- `children[i] = slot`
unfoldable pub set_child : Children → ℕ → Option NodeRef → Option Children
set_child nil i slot = none
set_child (absent cs) zero slot = some (slot_cons slot cs)
set_child (present r cs) zero slot = some (slot_cons slot cs)
set_child (absent cs) (suc i) slot =
    let rest = set_child cs i slot in elim rest [ none ↦ none | some cs' ↦ some (absent cs') ]
set_child (present r cs) (suc i) slot =
    let rest = set_child cs i slot in elim rest [ none ↦ none | some cs' ↦ some (present r cs') ]

unfoldable pub no_children : ℕ → Children
no_children zero = nil
no_children (suc n) = absent (no_children n)

abbrev pub new_branch : Node
unfolding no_children
new_branch = branch (no_children 16) none

abbrev pub is_empty : Node → Bool
is_empty empty = true
is_empty _ = false

-- `encode_list` takes the number of the items and the bytes that the closure appends;
-- `decode_list_header` moves past the header of a list and returns the number of its items. The rlp crate
-- has neither.
pub record Externals : Type 0 where
  pub encode_list : ℕ → List ℕ → List ℕ
  pub keccak256 : List ℕ → List ℕ
  pub db_get : List ℕ → Result TrieError (Option (List ℕ))
  pub decode_list_header : Decode ℕ

abbrev pub encode_value : Option (List ℕ) → List ℕ
encode_value none = string_form []
encode_value (some v) = string_form v

module _ (x : Externals) where
  unfoldable mutual
    pub encode_raw : Node → Result TrieError (List ℕ)
    encode_raw empty = ok (string_form [])
    encode_raw (leaf key value) = or_panic (encode_compact key true) >>= λ compact.
        ok (x.encode_list 2 (string_form compact ++ string_form value))
    encode_raw (extension key node) = or_panic (encode_compact key false) >>= λ compact.
        encode_ref node >>= λ bytes. ok (x.encode_list 2 (string_form compact ++ bytes))
    encode_raw (branch children value) =
        encode_children children >>= λ bytes. ok (x.encode_list 17 (bytes ++ encode_value value))

    pub encode_ref : NodeRef → Result TrieError (List ℕ)
    encode_ref (hash h) = ok (string_form h)
    encode_ref (inline n) = encode_raw n >>= λ encoded. ok (string_form encoded)

    pub encode_children : Children → Result TrieError (List ℕ)
    encode_children nil = ok []
    encode_children (absent cs) = encode_children cs >>= λ bytes. ok (string_form [] ++ bytes)
    encode_children (present r cs) =
        encode_ref r >>= λ first. encode_children cs >>= λ bytes. ok (first ++ bytes)

  -- `Node::hash` of a node that has this encoding; one below 32 bytes is padded with zeros.
  abbrev pub hash_of : List ℕ → List ℕ
  hash_of encoded =
      if ltb (length encoded) 32
      then encoded ++ replicate (32 - length encoded) 0
      else x.keccak256 encoded

  -- `NodeRef::from_node` of a node that has this encoding.
  abbrev pub ref_of : Node → List ℕ → NodeRef
  ref_of node encoded = if ltb (length encoded) 32 then inline node else hash (hash_of encoded)

  unfoldable pub from_node : Node → Result TrieError NodeRef
  from_node node = encode_raw node >>= λ encoded. ok (ref_of node encoded)
