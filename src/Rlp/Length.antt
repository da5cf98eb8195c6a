-- ===== src/Rlp/Length.antt =====
-- The length of a long payload, written and read back.
use ethereum_rust.Base.{ℕ, ◌^◌, ◌≤◌, ◌<◌, ◌≡◌, arith, length}
use ethereum_rust.Base.Outcome.{ok}
use ethereum_rust.Rlp.Encode.{encode_length}
use ethereum_rust.Rlp.Decode.{Decoder, decode_length}

-- A length above 0 and below 2^32 is read back as it was written.
pub decode_length-encode_length :
    (len : ℕ) (d : Decoder)
    → 0 < len
    → len < 2 ^ 32
    → decode_length (encode_length len) d ≡ ok len d
unfolding encode_length decode_length
decode_length-encode_length len d h k = ground arith

-- It takes one to four bytes.
pub length-encode_length :
    (len : ℕ) → (1 ≤ length (encode_length len)) × (length (encode_length len) ≤ 4)
unfolding encode_length
length-encode_length len = ground arith
