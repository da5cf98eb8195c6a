-- ===== src/Trie/Patricia/Tests.antt =====
-- The tests of crates/trie/src/trie.rs, and the theorems at concrete inputs.
use ethereum_rust.Base.{ℕ, ◌≡◌, ◌⊎◌, refl, List, [], ◌∷◌, ◌++◌, none, some, arith, replicate}
use ethereum_rust.Base.Outcome.{Outcome}
use ethereum_rust.Rlp.Decode.{unexpected_eof}
use ethereum_rust.Base.Result.{ok, err, ◌>>=◌}
use ethereum_rust.Rlp.Encode.{string_form, list_form, encode_length}
use ethereum_rust.Trie.Nibbles
use ethereum_rust.Trie.Nibbles.{
  encode_compact, from_bytes, spread, matching, pack, pack_odd, pair, flags_of,
}
use ethereum_rust.Trie.Node.{
  Node, leaf, extension, branch, inline, nil, absent, present, Externals, key_not_found, encode_raw,
  from_node, ref_of, child, set_child, no_children,
}
use ethereum_rust.Trie.Patricia.{
  PatriciaTrie, new, get, insert, delete, same, get_at_node, insert_at_node, delete_at_node, place,
  place_extension, with_prefix, split_leaf, split_extension, load_node, resolve_node_ref,
  resolve_slot, occupied, compact_by, join_child, join_extension, slot_of,
}
use ethereum_rust.Trie.Patricia.Client
use ethereum_rust.Trie.Patricia.Map.{Op, insert_op, delete_op, apply, run, replay, update, IsBytes}
use ethereum_rust.Trie.Patricia.Hidden.{Missing}
use ethereum_rust.Trie.Patricia.Inline.{insert-run}
use ethereum_rust.Trie.Patricia.Fresh.{IsInline, run-new_answers, run-new_exact}
use ethereum_rust.Trie.Patricia.Commit.{commit_node, Inlined, put_of, commit_node-root, Cached}

-- A list is what the encoder makes of the bytes of its items, and a decoder without this header refuses
-- all. The database has nothing.
abbrev plain : Externals
plain = record {
  encode_list = λ n payload. list_form payload;
  keccak256 = λ b. b;
  db_get = λ k. ok none;
  decode_list_header = λ d. Outcome.err unexpected_eof d;
}

plain-Missing : Missing plain
plain-Missing k = refl

abbrev ops : List Op
ops =
    insert_op (0x12 ∷ 0x34 ∷ []) (1 ∷ [])
    ∷ insert_op (0x12 ∷ 0x56 ∷ []) (2 ∷ [])
    ∷ insert_op (0x12 ∷ []) (3 ∷ [])
    ∷ delete_op (0x12 ∷ 0x34 ∷ [])
    ∷ []

ops-bytes : Client.ByteKeys ops
ops-bytes = (
  (omega arith, (omega arith, tt)),
  ((omega arith, (omega arith, tt)), ((omega arith, tt), ((omega arith, (omega arith, tt)), tt))),
)

-- The four operations on the trie, computed.
ops_run : (run plain ops new >>= λ t. get plain t (0x12 ∷ 0x56 ∷ [])) ≡ ok (some (2 ∷ []))
unfolding run apply insert delete get insert_at_node delete_at_node get_at_node place
    place_extension with_prefix split_leaf split_extension resolve_node_ref resolve_slot occupied
    compact_by join_child join_extension slot_of from_node encode_raw string_form encode_compact
    pack pack_odd pair from_bytes spread matching child set_child no_children same list_form
ops_run = refl

run-new_answers_example :
    (run plain ops new ≡ err key_not_found)
    ⊎ ((t : PatriciaTrie) × ((run plain ops new ≡ ok t)
          × ((q : List ℕ)
              → IsBytes q
              → (get plain t q ≡ err key_not_found)
                ⊎ (get plain t q ≡ ok (replay ops (λ _. none) q)))))
run-new_answers_example = run-new_answers plain plain-Missing ops ops-bytes

-- Two values of thirty bytes make a branch that is behind its hash: both keys are lost.
abbrev large_ops : List Op
large_ops =
    insert_op (0x12 ∷ 0x34 ∷ []) (replicate 30 9)
    ∷ insert_op (0x12 ∷ 0x56 ∷ []) (replicate 30 8)
    ∷ []

large_run : (run plain large_ops new >>= λ t. get plain t (0x12 ∷ 0x56 ∷ [])) ≡ err key_not_found
unfolding run apply insert delete get insert_at_node delete_at_node get_at_node place
    place_extension with_prefix split_leaf split_extension resolve_node_ref resolve_slot occupied
    compact_by join_child join_extension slot_of from_node encode_raw string_form encode_compact
    pack pack_odd pair from_bytes spread matching child set_child no_children same load_node
    list_form encode_length
large_run = refl

-- What the operations leave: a branch with a value and a leaf, below the common prefix.
abbrev ops_trie : PatriciaTrie
ops_trie = record {
  root = extension (Nibbles.new (1 ∷ 2 ∷ [])) (
      inline (
        branch
          (absent (
            absent (
              absent (
                absent (
                  absent (
                    present (inline (leaf (Nibbles.new (6 ∷ [])) (2 ∷ []))) (
                      absent (
                        absent (
                          absent (
                            absent
                              (absent (absent (absent (absent (absent (absent nil))))))))))))))))
          (some (3 ∷ []))));
  cached = none;
}

ops_leave : run plain ops new ≡ ok ops_trie
unfolding run apply insert delete get insert_at_node delete_at_node get_at_node place
    place_extension with_prefix split_leaf split_extension resolve_node_ref resolve_slot occupied
    compact_by join_child join_extension slot_of from_node encode_raw string_form encode_compact
    pack pack_odd pair from_bytes spread matching child set_child no_children same list_form
ops_leave = refl

ops_trie-IsInline : IsInline ops_trie.root
unfolding IsInline
ops_trie-IsInline = (tt, tt)

run-new_exact_example : get plain ops_trie (0x12 ∷ 0x56 ∷ []) ≡ ok (some (2 ∷ []))
unfolding same
run-new_exact_example =
    run-new_exact plain plain-Missing ops ops_trie ops-bytes ops_leave ops_trie-IsInline
      (0x12 ∷ 0x56 ∷ []) (omega arith, (omega arith, tt))

insert-run_example :
    (t' : PatriciaTrie) × (insert plain (0x12 ∷ 0x34 ∷ []) (replicate 30 9) ops_trie ≡ ok t')
    × ((q : List ℕ)
        → IsBytes q
        → (get plain t' q ≡ err key_not_found)
          ⊎ (get plain t' q
              ≡ ok (update (replay ops (λ _. none)) (0x12 ∷ 0x34 ∷ []) (some (replicate 30 9)) q)))
insert-run_example =
    insert-run plain plain-Missing ops ops_trie (0x12 ∷ 0x34 ∷ []) (replicate 30 9) ops-bytes
      ops_leave ops_trie-IsInline (omega arith, (omega arith, tt))

abbrev thirty : List ℕ
thirty = replicate 30 9

abbrev large_leaf : Node
large_leaf = leaf (Nibbles.new (1 ∷ 3 ∷ [])) thirty

abbrev large_bytes : List ℕ
large_bytes = 0xe2 ∷ 0x82 ∷ 0x20 ∷ 0x13 ∷ 0x9e ∷ thirty

large_encoding : encode_raw plain large_leaf ≡ ok large_bytes
unfolding encode_raw string_form list_form encode_compact pack pair
large_encoding = refl

-- An extension over the nibble 7 to the leaf, which is behind its hash.
abbrev above : Node
above = extension (Nibbles.new (7 ∷ [])) (ref_of plain large_leaf large_bytes)

abbrev above_trie : PatriciaTrie
above_trie = record { root = above; cached = none }

above_encoding :
    encode_raw plain above ≡ ok (list_form (string_form (0x17 ∷ []) ++ string_form large_bytes))
unfolding encode_raw encode_compact pack_odd pack
above_encoding = refl

commit_node-root_example :
    commit_node plain above
    ≡ ok (put_of plain (list_form (string_form (0x17 ∷ []) ++ string_form large_bytes)))
unfolding Inlined
commit_node-root_example =
    commit_node-root plain above (list_form (string_form (0x17 ∷ []) ++ string_form large_bytes)) tt
      above_encoding

uncached : Cached plain above_trie
uncached h e = absurd (cc e)
