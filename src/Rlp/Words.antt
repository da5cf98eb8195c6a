-- ===== src/Rlp/Words.antt =====
-- Integers and booleans, written and read back.
use ethereum_rust.Base.{
  ℕ, zero, suc, ◌+◌, ◌-◌, ◌^◌, ◌≤◌, ◌<◌, ◌≡◌, refl, sym, ap, ◌∙◌, Bool, true, false, List, [], ◌∷◌,
  ◌++◌, ltb, ◌==◌, if◌then◌else◌, arith, length, drop, length-append, drop-append_length,
  append_assoc,
}
use ethereum_rust.Base.Bytes.{
  to_be_bytes, from_be_bytes, skip_zeros, NoLeadingZero, from_be_bytes-replicate_zero,
  from_be_bytes-skip_zeros, from_be_bytes-to_be_bytes, length-to_be_bytes, length-skip_zeros,
  skip_zeros-NoLeadingZero,
}
use ethereum_rust.Base.Outcome.{ok}
use ethereum_rust.Rlp.Encode.{
  string_form, Encoder, finish, encode_bytes, encode_u16, encode_u32, encode_u64, encode_bool,
}
use ethereum_rust.Rlp.Decode.{
  Decoder, Decode, decode_bytes, word, half_word, decode_u8, decode_u16, decode_u32, decode_u64,
  decode_bool,
}
use ethereum_rust.Rlp.Header.{at}
use ethereum_rust.Rlp.Reads.{Reads, decode_bytes-Reads}

-- The writer appends `form`.
abbrev pub Writes : (Encoder → Encoder) → List ℕ → Type 0
Writes encode form = (e : Encoder) → finish (encode e) ≡ finish e ++ form

-- What a writer appends to `e`, a reader that starts behind `e` reads, up to its end.
pub read_back :
    {A : Type 0} (encode : Encoder → Encoder) (decode : Decode A) (form : List ℕ) (x : A)
    → Writes encode form
    → Reads decode form x
    → (e : Encoder) (rest : List ℕ) → length (finish (encode e) ++ rest) < 2 ^ 64
    → decode (at (finish (encode e) ++ rest) (length (finish e)))
      ≡ ok x (at (finish (encode e) ++ rest) (length (finish (encode e))))
read_back encode decode form x w r e rest h =
    r (finish (encode e) ++ rest) rest (length (finish e)) h place
    ∙ ap (λ n. ok x (at (finish (encode e) ++ rest) n)) end
  where
    place : drop (length (finish e)) (finish (encode e) ++ rest) ≡ form ++ rest
    place = rw (w e, append_assoc) (drop-append_length (finish e) (form ++ rest))

    end : length (finish e) + length form ≡ length (finish (encode e))
    end = rw (w e) (sym (length-append (finish e) form))

pub encode_bytes-Writes : (bytes : List ℕ) → Writes (encode_bytes bytes) (string_form bytes)
unfolding encode_bytes
encode_bytes-Writes bytes e = refl

-- A byte string that was appended to any buffer is read back, and the reader stops at its end.
-- The string is shorter than 4 GiB, and the input fits the address space.
pub decode_bytes-encode_bytes :
    (payload rest : List ℕ) (e : Encoder)
    → length payload < 2 ^ 32
    → length (finish (encode_bytes payload e) ++ rest) < 2 ^ 64
    → decode_bytes (at (finish (encode_bytes payload e) ++ rest) (length (finish e)))
      ≡ ok payload
          (at (finish (encode_bytes payload e) ++ rest) (length (finish (encode_bytes payload e))))
decode_bytes-encode_bytes payload rest e small h =
    read_back (encode_bytes payload) decode_bytes (string_form payload) payload
      (encode_bytes-Writes payload) (decode_bytes-Reads payload small) e rest h

word_lem :
    (w : ℕ) (bs : List ℕ) (d : Decoder)
    → length bs ≤ w
    → NoLeadingZero bs
    → word w bs d ≡ ok (from_be_bytes bs) d
unfolding word
word_lem w [] d h k = unfold from_be_bytes in refl
word_lem w (b ∷ bs) d h k =
    ground (arith, from_be_bytes-replicate_zero (w - length (b ∷ bs)) (b ∷ bs))

-- The payload of a word of `w` bytes.
abbrev digits_of : ℕ → ℕ → List ℕ
digits_of w v = skip_zeros (to_be_bytes w v)

word-digits_of : (w v : ℕ) (d : Decoder) → v < 256 ^ w → word w (digits_of w v) d ≡ ok v d
word-digits_of w v d h =
    word_lem w (digits_of w v) d
      (omega (arith, length-skip_zeros (to_be_bytes w v), length-to_be_bytes w v))
      (skip_zeros-NoLeadingZero (to_be_bytes w v))
    ∙ ap (λ n. ok n d)
        (from_be_bytes-skip_zeros (to_be_bytes w v) ∙ from_be_bytes-to_be_bytes w v h)

digits_of_small : (w v : ℕ) → length (digits_of w v) ≤ w
digits_of_small w v = omega (arith, length-skip_zeros (to_be_bytes w v), length-to_be_bytes w v)

decode_u64-Reads : (v : ℕ) → v < 2 ^ 64 → Reads decode_u64 (string_form (digits_of 8 v)) v
unfolding decode_u64
decode_u64-Reads v k bytes rest p h e =
    let n : length (digits_of 8 v) < 2 ^ 32 = omega (arith, digits_of_small 8 v) in
    ground (
      arith,
      decode_bytes-Reads (digits_of 8 v) n bytes rest p h e,
      word-digits_of 8 v (at bytes (p + length (string_form (digits_of 8 v)))) k,
    )

decode_u32-Reads : (v : ℕ) → v < 2 ^ 32 → Reads decode_u32 (string_form (digits_of 4 v)) v
unfolding decode_u32
decode_u32-Reads v k bytes rest p h e =
    let n : length (digits_of 4 v) < 2 ^ 32 = omega (arith, digits_of_small 4 v) in
    ground (
      arith,
      decode_bytes-Reads (digits_of 4 v) n bytes rest p h e,
      word-digits_of 4 v (at bytes (p + length (string_form (digits_of 4 v)))) k,
    )

encode_u64-Writes : (v : ℕ) → Writes (encode_u64 v) (string_form (digits_of 8 v))
unfolding encode_u64
encode_u64-Writes zero e = unfold to_be_bytes skip_zeros in refl
encode_u64-Writes (suc v) e = ground arith

encode_u32-Writes : (v : ℕ) → Writes (encode_u32 v) (string_form (digits_of 4 v))
unfolding encode_u32
encode_u32-Writes zero e = unfold to_be_bytes skip_zeros in refl
encode_u32-Writes (suc v) e = ground arith

-- A `u64` that was appended to any buffer is read back, and the reader stops at its end. The number
-- has 64 bits, and the input fits the address space.
pub decode_u64-encode_u64 :
    (v : ℕ) (rest : List ℕ) (e : Encoder)
    → v < 2 ^ 64
    → length (finish (encode_u64 v e) ++ rest) < 2 ^ 64
    → decode_u64 (at (finish (encode_u64 v e) ++ rest) (length (finish e)))
      ≡ ok v (at (finish (encode_u64 v e) ++ rest) (length (finish (encode_u64 v e))))
decode_u64-encode_u64 v rest e k h =
    read_back (encode_u64 v) decode_u64 _ v (encode_u64-Writes v) (decode_u64-Reads v k) e rest h

-- A `u32` that was appended to any buffer is read back, and the reader stops at its end. The number
-- has 32 bits, and the input fits the address space.
pub decode_u32-encode_u32 :
    (v : ℕ) (rest : List ℕ) (e : Encoder)
    → v < 2 ^ 32
    → length (finish (encode_u32 v e) ++ rest) < 2 ^ 64
    → decode_u32 (at (finish (encode_u32 v e) ++ rest) (length (finish e)))
      ≡ ok v (at (finish (encode_u32 v e) ++ rest) (length (finish (encode_u32 v e))))
decode_u32-encode_u32 v rest e k h =
    read_back (encode_u32 v) decode_u32 _ v (encode_u32-Writes v) (decode_u32-Reads v k) e rest h

half_digits : ℕ → List ℕ
half_digits v = if v == 0 then [] else if ltb v 256 then v ∷ [] else to_be_bytes 2 v

half_word-half_digits : (v : ℕ) (d : Decoder) → v < 2 ^ 16 → half_word (half_digits v) d ≡ ok v d
unfolding half_word half_digits to_be_bytes from_be_bytes
half_word-half_digits v d h = ground arith

half_digits_small : (v : ℕ) → length (half_digits v) ≤ 2
unfolding half_digits to_be_bytes
half_digits_small v = ground arith

decode_u16-Reads : (v : ℕ) → v < 2 ^ 16 → Reads decode_u16 (string_form (half_digits v)) v
unfolding decode_u16
decode_u16-Reads v k bytes rest p h e =
    let n : length (half_digits v) < 2 ^ 32 = omega (arith, half_digits_small v) in
    ground (
      arith,
      decode_bytes-Reads (half_digits v) n bytes rest p h e,
      half_word-half_digits v (at bytes (p + length (string_form (half_digits v)))) k,
    )

encode_u16-Writes : (v : ℕ) → Writes (encode_u16 v) (string_form (half_digits v))
unfolding encode_u16 half_digits
encode_u16-Writes v e = ground arith

-- A `u16` that was appended to any buffer is read back, and the reader stops at its end. The number
-- has 16 bits, and the input fits the address space.
pub decode_u16-encode_u16 :
    (v : ℕ) (rest : List ℕ) (e : Encoder)
    → v < 2 ^ 16
    → length (finish (encode_u16 v e) ++ rest) < 2 ^ 64
    → decode_u16 (at (finish (encode_u16 v e) ++ rest) (length (finish e)))
      ≡ ok v (at (finish (encode_u16 v e) ++ rest) (length (finish (encode_u16 v e))))
decode_u16-encode_u16 v rest e k h =
    read_back (encode_u16 v) decode_u16 _ v (encode_u16-Writes v) (decode_u16-Reads v k) e rest h

bit : Bool → List ℕ
bit value = if value then 1 ∷ [] else []

decode_bool-Reads : (v : Bool) → Reads decode_bool (string_form (bit v)) v
unfolding decode_bool decode_u8 bit
decode_bool-Reads true bytes rest p h e =
    ground (arith, decode_bytes-Reads (1 ∷ []) (omega arith) bytes rest p h e)
decode_bool-Reads false bytes rest p h e =
    ground (arith, decode_bytes-Reads [] (omega arith) bytes rest p h e)

encode_bool-Writes : (v : Bool) → Writes (encode_bool v) (string_form (bit v))
unfolding encode_bool bit
encode_bool-Writes true e = refl
encode_bool-Writes false e = refl

-- A boolean that was appended to any buffer is read back, and the reader stops at its end, if the
-- input fits the address space.
pub decode_bool-encode_bool :
    (v : Bool) (rest : List ℕ) (e : Encoder)
    → length (finish (encode_bool v e) ++ rest) < 2 ^ 64
    → decode_bool (at (finish (encode_bool v e) ++ rest) (length (finish e)))
      ≡ ok v (at (finish (encode_bool v e) ++ rest) (length (finish (encode_bool v e))))
decode_bool-encode_bool v rest e h =
    read_back (encode_bool v) decode_bool _ v (encode_bool-Writes v) (decode_bool-Reads v) e rest h
