-- ===== src/Rlp/Item.antt =====
-- crates/rlp/src/lib.rs and traits.rs: `RlpItem`, a tree of byte strings, with its two readers.
use ethereum_rust.Base.{ℕ, zero, suc, true, false, List, [], ◌∷◌, Option, none, some, leb, length}
use ethereum_rust.Base.Outcome.{Outcome, stuck, pure, ◌>>=◌, ◌>>◌, gets, modify, require}
use ethereum_rust.Rlp.Encode.{Encoder, new, finish, extend, encode_bytes, list_form}
use ethereum_rust.Rlp.Decode.{
  Decode, Decoder, DecoderError, unexpected_eof, decode_header, skip, slice, decode_bytes,
  add_usize, is_list, decode_each, decode_list,
}

-- `List(Vec<RlpItem>)`; the vector is a type of its own, `Items`.
mutual
  pub data RlpItem : Type 0 where
    string : List ℕ → RlpItem
    list : Items → RlpItem

  pub data Items : Type 0 where
    nil : Items
    cons : RlpItem → Items → Items

unfoldable pub from_list : List RlpItem → Items
from_list [] = nil
from_list (x ∷ xs) = cons x (from_list xs)

unfoldable pub as_bytes : RlpItem → Option (List ℕ)
as_bytes (string bytes) = some bytes
as_bytes (list items) = none

unfoldable pub as_list : RlpItem → Option Items
as_list (string bytes) = none
as_list (list items) = some items

-- `impl Encode for RlpItem`, with the loop of `encode_list` at this type.
unfoldable mutual
  pub encode_item : RlpItem → Encoder → Encoder
  encode_item (string bytes) e = encode_bytes bytes e
  encode_item (list items) e = extend e (list_form (finish (encode_items items new)))

  pub encode_items : Items → Encoder → Encoder
  encode_items nil e = e
  encode_items (cons x xs) e = encode_items xs (encode_item x e)

-- `encode::<RlpItem>`
unfoldable pub encode : RlpItem → List ℕ
encode x = finish (encode_item x new)

-- `impl Decode for RlpItem`: the fuel bounds the depth and each list's length.
unfoldable pub decode_rlp_item : ℕ → Decode RlpItem
decode_rlp_item zero = λ d. stuck
decode_rlp_item (suc fuel) = do
  l ← is_list
  elim l [
    | true ↦ do items ← decode_list fuel (decode_rlp_item fuel); pure (list (from_list items))
    | false ↦ do bytes ← decode_bytes; pure (string bytes)
  ]

-- `Decoder::decode_item`, which does not compare the end of a list with that of its last item.
unfoldable pub decode_item : ℕ → Decode RlpItem
decode_item zero = λ d. stuck
decode_item (suc fuel) = do
  (offset, len, is_data) ← decode_header
  skip offset
  pos ← gets λ d. d.position
  total ← gets λ d. length d.bytes
  end ← add_usize pos len
  require (leb end total) unexpected_eof
  elim is_data [
    | true ↦ do bytes ← slice pos end; modify λ d. record d { position = end }; pure (string bytes)
    | false ↦ do items ← decode_each fuel (decode_item fuel) end; pure (list (from_list items))
  ]

-- `decode::<RlpItem>`
unfoldable pub decode : ℕ → List ℕ → Outcome Decoder DecoderError RlpItem
unfolding decode_rlp_item
decode fuel bytes = decode_rlp_item fuel (record { bytes = bytes; position = 0 })
