-- ===== src/Trie/Proof/Tests.antt =====
-- The theorems on proofs at concrete inputs.
use ethereum_rust.Base.{
  ℕ, ◌≡◌, replicate, refl, sym, ◌∙◌, subst, Bool, true, false, List, [], ◌∷◌, none, some,
  if◌then◌else◌,
}
use ethereum_rust.Base.Result.{Result, ok, ok_or, ◌>>=◌}
use ethereum_rust.Trie.Proof.Sample.{list_header}
use ethereum_rust.Rlp.Decode.{
  decode_header, header, index, skip, add_usize, decode_each, decode_bytes, take_bytes, slice,
}
use ethereum_rust.Rlp.Decode
use ethereum_rust.Trie.Node.Decoding.{
  decode_raw, decode_on, decode_items, decode_pair, decode_ref, decoded,
}
use ethereum_rust.Rlp.Encode.{string_form, list_form}
use ethereum_rust.Trie.Nibbles
use ethereum_rust.Trie.Nibbles.{
  decode_compact, decode_flagged, encode_compact, from_bytes, spread, pack, pack_odd, pair,
  matching,
}
use ethereum_rust.Trie.Node.{
  Node, leaf, extension, hash, Externals, TrieError, key_not_found, encode_raw, hash_of,
}
use ethereum_rust.Trie.Patricia.{PatriciaTrie, same, get, get_at_node, resolve_node_ref, load_node}
use ethereum_rust.Trie.Proof.{MerkleProof, verify, generate_proof, collect_proof_nodes, proof_child}
use ethereum_rust.Trie.Proof.Collected.{Canonical, stored_bytes}
use ethereum_rust.Trie.Proof.Complete.{verify-generate_proof}
use ethereum_rust.Trie.Proof.Forged.{verify_forged}

abbrev below : Node
below = leaf (Nibbles.new (1 ∷ [])) (replicate 30 9)

abbrev below_bytes : List ℕ
below_bytes = 0xe0 ∷ 0x31 ∷ 0x9e ∷ replicate 30 9

abbrev below_hash : List ℕ
below_hash = replicate 32 5

-- An extension over the nibble 7 to a leaf that is behind its hash.
abbrev root : Node
root = extension (Nibbles.new (7 ∷ [])) (hash below_hash)

abbrev root_bytes : List ℕ
root_bytes = 0xe2 ∷ 0x17 ∷ 0xa0 ∷ below_hash

-- The database has the leaf.
abbrev one : Externals
one = record {
  encode_list = λ n payload. list_form payload;
  keccak256 = λ b. below_hash;
  db_get = λ k. if same k (0x74 ∷ below_hash) then ok (some below_bytes) else ok none;
  decode_list_header = list_header;
}

root_encoding : encode_raw one root ≡ ok root_bytes
unfolding encode_raw string_form list_form encode_compact pack_odd pack pair
root_encoding = refl

below_encoding : encode_raw one below ≡ ok below_bytes
unfolding encode_raw string_form list_form encode_compact pack_odd pack pair
below_encoding = refl

below_decoding : decode_raw one below_bytes ≡ ok below
unfolding decode_raw decode_on decode_items decode_pair decode_ref decoded list_header decode_header
    header index skip add_usize decode_each decode_bytes take_bytes slice Decode.new decode_compact
    decode_flagged spread
below_decoding = refl

root_decoding : decode_raw one root_bytes ≡ ok root
unfolding decode_raw decode_on decode_items decode_pair decode_ref decoded list_header decode_header
    header index skip add_usize decode_each decode_bytes take_bytes slice Decode.new decode_compact
    decode_flagged spread
root_decoding = refl

abbrev node_of : Node → Result TrieError Node
node_of n = ok n

abbrev bytes_of : List ℕ → Result TrieError (List ℕ)
bytes_of b = ok b

one-decides :
    (c : Bool) (b : List ℕ) (n : Node)
    → ((if c then ok (some below_bytes) else ok none) >>= λ found. ok_or found key_not_found)
      ≡ bytes_of b
    → decode_raw one b ≡ ok n
    → encode_raw one n ≡ ok b
one-decides false b n f h = absurd (cc f)
one-decides true b n f h =
    let same_bytes : below_bytes ≡ b = cc f in
    let decodes : decode_raw one below_bytes ≡ node_of n =
      subst (λ z. decode_raw one z ≡ node_of n) (sym same_bytes) h in
    let same_node : below ≡ n = cc (sym below_decoding ∙ decodes) in
    subst (λ z. encode_raw one n ≡ bytes_of z) same_bytes
      (subst (λ z. encode_raw one z ≡ bytes_of below_bytes) same_node below_encoding)

one-Canonical : Canonical one
one-Canonical h b n f d = one-decides (same (0x74 ∷ h) (0x74 ∷ below_hash)) b n f d

abbrev proof : MerkleProof
proof = record { nodes = root_bytes ∷ below_bytes ∷ [] }

abbrev trie : PatriciaTrie
trie = record { root = root; cached = none }

proof_generated : generate_proof one root (0x71 ∷ []) (stored_bytes one) ≡ ok proof
unfolding generate_proof collect_proof_nodes proof_child from_bytes spread matching encode_raw
    string_form list_form encode_compact pack_odd pack pair same decode_raw decode_on decode_items
    decode_pair decode_ref decoded list_header decode_header header index skip add_usize decode_each
    decode_bytes take_bytes slice Decode.new decode_compact decode_flagged
proof_generated = refl

trie_answers : get one trie (0x71 ∷ []) ≡ ok (some (replicate 30 9))
unfolding get get_at_node resolve_node_ref load_node from_bytes spread matching same decode_raw
    decode_on decode_items decode_pair decode_ref decoded list_header decode_header header index
    skip add_usize decode_each decode_bytes take_bytes slice Decode.new decode_compact
    decode_flagged
trie_answers = refl

verify-generate_proof_example :
    verify one proof (hash_of one root_bytes) (0x71 ∷ []) (some (replicate 30 9)) ≡ ok true
verify-generate_proof_example =
    verify-generate_proof one trie (0x71 ∷ []) root_bytes proof (some (replicate 30 9))
      one-Canonical root_encoding root_decoding proof_generated trie_answers

-- A leaf with another value than the one that was stored.
abbrev forged_bytes : List ℕ
forged_bytes = 0xc2 ∷ 0x31 ∷ 0x42 ∷ []

forged_decoding : decode_raw one forged_bytes ≡ ok (leaf (Nibbles.new (1 ∷ [])) (66 ∷ []))
unfolding decode_raw decode_on decode_items decode_pair decode_ref decoded list_header decode_header
    header index skip add_usize decode_each decode_bytes take_bytes slice Decode.new decode_compact
    decode_flagged spread
forged_decoding = refl

verify_forged_example :
    verify one
      (record { nodes = root_bytes ∷ forged_bytes ∷ [] })
      (hash_of one root_bytes)
      (0x71 ∷ [])
      (some (66 ∷ []))
    ≡ ok true
unfolding from_bytes spread
verify_forged_example =
    verify_forged one (7 ∷ []) (1 ∷ []) below_hash (66 ∷ []) root_bytes forged_bytes root_bytes
      (0x71 ∷ []) root_decoding root_encoding forged_decoding (λ z. cc z) refl
