-- ===== src/Rlp/Encode.antt =====
-- crates/rlp/src/encode.rs: `Encoder`, over a growing byte buffer.
use ethereum_rust.Base.{
  ℕ, ◌+◌, ◌/◌, ◌%◌, Bool, List, [], ◌∷◌, ◌++◌, ltb, ◌==◌, if◌then◌else◌, length,
}
use ethereum_rust.Base.Bytes.{to_be_bytes, skip_zeros}

pub record Encoder : Type 0 where
  pub buffer : List ℕ

abbrev pub new : Encoder
new = record { buffer = [] }

abbrev pub finish : Encoder → List ℕ
finish e = e.buffer

-- `self.buffer.extend_from_slice(bytes)`
abbrev pub extend : Encoder → List ℕ → Encoder
extend e bytes = record { buffer = e.buffer ++ bytes }

unfoldable pub encode_length : ℕ → List ℕ
encode_length len =
    if ltb len 256
    then len ∷ []
    else if ltb len 65536
    then (len / 256 % 256) ∷ (len % 256) ∷ []
    else if ltb len 16777216
    then (len / 65536 % 256) ∷ (len / 256 % 256) ∷ (len % 256) ∷ []
    else (len / 16777216 % 256) ∷ (len / 65536 % 256) ∷ (len / 256 % 256) ∷ (len % 256) ∷ []

-- A string or a list of 56 bytes or more: the length of the length, the length, the payload.
-- `base` is 0xb7 or 0xf7.
unfoldable pub long_form : ℕ → List ℕ → List ℕ
long_form base bytes =
    let len_bytes = encode_length (length bytes) in ((base + length len_bytes) ∷ len_bytes) ++ bytes

-- The bytes that `encode_bytes` appends.
unfoldable pub string_form : List ℕ → List ℕ
unfolding long_form
string_form [] = 0x80 ∷ []
string_form (b ∷ []) = if ltb b 0x80 then b ∷ [] else 0x81 ∷ b ∷ []
string_form (b ∷ c ∷ bytes) =
    let len = length (b ∷ c ∷ bytes) in
    if ltb len 56 then (0x80 + len) ∷ b ∷ c ∷ bytes else long_form 0xb7 (b ∷ c ∷ bytes)

unfoldable pub encode_bytes : List ℕ → Encoder → Encoder
unfolding string_form
encode_bytes bytes e = extend e (string_form bytes)

-- The bytes that `encode_list` appends for the encoded items.
unfoldable pub list_form : List ℕ → List ℕ
unfolding long_form
list_form list_bytes =
    if ltb (length list_bytes) 56
    then (0xc0 + length list_bytes) ∷ list_bytes
    else long_form 0xf7 list_bytes

-- `for item in items { item.encode(&mut list_encoder) }`
unfoldable pub encode_each : {A : Type 0} → (A → Encoder → Encoder) → List A → Encoder → Encoder
encode_each encode [] e = e
encode_each encode (x ∷ xs) e = encode_each encode xs (encode x e)

unfoldable pub encode_list : {A : Type 0} → (A → Encoder → Encoder) → List A → Encoder → Encoder
unfolding encode_each list_form
encode_list encode items e = extend e (list_form (finish (encode_each encode items new)))

unfoldable pub encode_u8 : ℕ → Encoder → Encoder
unfolding encode_bytes
encode_u8 value = if value == 0 then encode_bytes [] else encode_bytes (value ∷ [])

unfoldable pub encode_u16 : ℕ → Encoder → Encoder
unfolding encode_bytes
encode_u16 value =
    if value == 0
    then encode_bytes []
    else if ltb value 256
    then encode_bytes (value ∷ [])
    else encode_bytes (to_be_bytes 2 value)

unfoldable pub encode_u32 : ℕ → Encoder → Encoder
unfolding encode_bytes
encode_u32 value =
    if value == 0 then encode_bytes [] else encode_bytes (skip_zeros (to_be_bytes 4 value))

unfoldable pub encode_u64 : ℕ → Encoder → Encoder
unfolding encode_bytes
encode_u64 value =
    if value == 0 then encode_bytes [] else encode_bytes (skip_zeros (to_be_bytes 8 value))

unfoldable pub encode_bool : Bool → Encoder → Encoder
unfolding encode_u8
encode_bool value = encode_u8 (if value then 1 else 0)
