-- ===== src/Rlp/Tests.antt =====
-- The tests of crates/rlp/src/encode.rs and decode.rs, and the theorems at concrete inputs.
use ethereum_rust.Base.{ℕ, ◌≡◌, refl, List, [], ◌∷◌, arith}
use ethereum_rust.Base.Bytes.{from_be_bytes}
use ethereum_rust.Base.Outcome.{ok, panic}
use ethereum_rust.Rlp.Encode.{
  Encoder, new, finish, encode_bytes, string_form, list_form, encode_list,
}
use ethereum_rust.Rlp.Decode.{
  decode_bytes, decode_list, header, decode_header, slice, skip, add_usize, take_bytes, decode_each,
}
use ethereum_rust.Rlp.Header.{at}
use ethereum_rust.Rlp.Words.{encode_bytes-Writes}
use ethereum_rust.Rlp.Reads.{decode_bytes-Reads, string_form_pos}
use ethereum_rust.Rlp.Lists.{decode_list-encode_list}
use ethereum_rust.Rlp.Item.{
  RlpItem, string, list, nil, cons, encode_item, decode_rlp_item, decode_item, from_list,
}
use ethereum_rust.Rlp.ItemRoundTrip.{decode_rlp_item-encode_item, fuel_of, item_form}
use ethereum_rust.Rlp.Hostile.{decode_huge_panics}

abbrev dog : List ℕ
dog = b'd' ∷ b'o' ∷ b'g' ∷ []

abbrev cat : List ℕ
cat = b'c' ∷ b'a' ∷ b't' ∷ []

abbrev started : Encoder
started = record { buffer = 0xc0 ∷ [] }

abbrev cat_dog : List ℕ
cat_dog = 0xc8 ∷ 0x83 ∷ b'c' ∷ b'a' ∷ b't' ∷ 0x83 ∷ b'd' ∷ b'o' ∷ b'g' ∷ []

encode_list_runs : finish (encode_list encode_bytes (cat ∷ dog ∷ []) new) ≡ cat_dog
unfolding encode_list encode_bytes
encode_list_runs = refl

decode_list_runs : decode_list 9 decode_bytes (at cat_dog 0) ≡ ok (cat ∷ dog ∷ []) (at cat_dog 9)
unfolding decode_list decode_bytes decode_header header skip add_usize decode_each take_bytes slice
decode_list_runs = refl

-- A two-byte item in a list of one byte: `decode_item` reads past the end of the list.
abbrev overrun : List ℕ
overrun = 0xc1 ∷ 0x82 ∷ 1 ∷ 2 ∷ []

decode_item_overruns :
    decode_item 5 (at overrun 0) ≡ ok (list (cons (string (1 ∷ 2 ∷ [])) nil)) (at overrun 4)
unfolding decode_item decode_header header skip add_usize decode_each slice from_list
decode_item_overruns = refl

decode_list-encode_list_example :
    decode_list 3 decode_bytes (at cat_dog 0) ≡ ok (cat ∷ dog ∷ []) (at cat_dog 9)
unfolding encode_list encode_bytes
decode_list-encode_list_example =
    decode_list-encode_list encode_bytes decode_bytes string_form (cat ∷ dog ∷ []) 3 [] new
      encode_bytes-Writes
      (
        (string_form_pos cat, decode_bytes-Reads cat (omega arith)),
        ((string_form_pos dog, decode_bytes-Reads dog (omega arith)), tt),
      )
      (omega arith) (omega arith) (omega arith)

abbrev tree : RlpItem
tree = list (cons (string cat) (cons (list nil) nil))

abbrev tree_bytes : List ℕ
tree_bytes = 0xc5 ∷ 0x83 ∷ b'c' ∷ b'a' ∷ b't' ∷ 0xc0 ∷ []

decode_rlp_item-encode_item_example :
    decode_rlp_item 9 (at tree_bytes 0) ≡ ok tree (at tree_bytes 6)
unfolding encode_item encode_bytes list_form fuel_of item_form
decode_rlp_item-encode_item_example =
    decode_rlp_item-encode_item tree 9 [] new ((omega arith, ((tt, omega arith), tt)), omega arith)
      (omega arith) (omega arith)

abbrev all_ones : List ℕ
all_ones = 0xff ∷ 0xff ∷ 0xff ∷ 0xff ∷ 0xff ∷ 0xff ∷ 0xff ∷ []

decode_huge_panics_example :
    (decode_bytes (at (0xbf ∷ 0xff ∷ all_ones) 0) ≡ panic)
    × (decode_list 1 decode_bytes (at (0xff ∷ 0xff ∷ all_ones) 0) ≡ panic)
unfolding from_be_bytes
decode_huge_panics_example =
    decode_huge_panics decode_bytes 1 0xff all_ones [] (omega arith) (omega arith) refl
      (omega arith)
