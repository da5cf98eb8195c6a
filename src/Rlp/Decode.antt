-- ===== src/Rlp/Decode.antt =====
-- crates/rlp/src/decode.rs: `Decoder`, a byte slice with a position. A `usize` has 64 bits, and an
-- addition that overflows one panics, as in a build with overflow checks.
use ethereum_rust.Base.{
  ℕ, zero, suc, ◌+◌, ◌-◌, ◌*◌, ◌%◌, ◌^◌, Bool, true, false, ◌&&◌, not, List, [], ◌∷◌, ◌++◌, none,
  some, ltb, leb, ◌==◌, if◌then◌else◌, length, get_elem?, take, drop, replicate,
}
use ethereum_rust.Base.Bytes.{from_be_bytes}
use ethereum_rust.Base.Outcome.{
  M, ok, panic, stuck, pure, fail, abort, ◌>>=◌, ◌>>◌, gets, modify, require,
}

-- The errors that the decoder returns; the text of an `InvalidData` is a constructor.
pub data Problem : Type 0 where
  expected_data expected_list empty_length invalid_boolean : Problem

pub data DecoderError : Type 0 where
  unexpected_eof integer_overflow leading_zeros : DecoderError
  invalid_data : Problem → DecoderError
  list_length_mismatch : ℕ → ℕ → DecoderError

pub record Decoder : Type 0 where
  pub bytes : List ℕ
  pub position : ℕ

abbrev pub Decode : Type 0 → Type 0
Decode = M Decoder DecoderError

unfoldable pub new : List ℕ → Decoder
new bytes = record { bytes = bytes; position = 0 }

-- `a + b` on `usize`
unfoldable pub add_usize : ℕ → ℕ → Decode ℕ
add_usize a b = if ltb (a + b) (2 ^ 64) then pure (a + b) else abort

-- `data[i]`
unfoldable pub index : ℕ → Decode ℕ
index i d = elim (get_elem? d.bytes i) [ none ↦ panic | some b ↦ ok b d ]

-- `&data[i..j]`
unfoldable pub slice : ℕ → ℕ → Decode (List ℕ)
slice i j d =
    if leb i j && leb j (length d.bytes) then ok (take (j - i) (drop i d.bytes)) d else panic

-- `self.position += n`
unfoldable pub skip : ℕ → Decode (Unit {0})
skip n = do
  pos ← gets λ d. d.position
  end ← add_usize pos n
  modify λ d. record d { position = end }

-- `checked_shl(8)` refuses no shift by 8, and drops the bits that leave the word.
unfoldable pub length_loop : ℕ → List ℕ → Decode ℕ
length_loop len [] = pure len
length_loop len (byte ∷ bytes) =
    let shifted = len * 256 % 2 ^ 64 in
    let rest = length_loop (shifted + byte) bytes in
    if ltb (shifted + byte) (2 ^ 64) then rest else fail integer_overflow

unfoldable pub decode_length : List ℕ → Decode ℕ
unfolding length_loop
decode_length [] = fail (invalid_data empty_length)
decode_length (b ∷ bytes) = if b == 0 then fail leading_zeros else length_loop 0 (b ∷ bytes)

-- A prefix that announces `len_of_len` bytes of length.
unfoldable pub long_header : ℕ → Bool → Decode (ℕ × ℕ × Bool)
long_header len_of_len is_data = do
  pos ← gets λ d. d.position
  total ← gets λ d. length d.bytes
  require (leb (pos + 1 + len_of_len) total) unexpected_eof
  len_bytes ← slice (pos + 1) (pos + 1 + len_of_len)
  len ← decode_length len_bytes
  pure (1 + len_of_len, len, is_data)

-- The `match prefix`: the offset of the payload, its length, and whether it is a string.
unfoldable pub header : ℕ → Decode (ℕ × ℕ × Bool)
header prefix =
    if leb prefix 0x7f
    then pure (0, 1, true)
    else if leb prefix 0xb7
    then pure (1, prefix - 0x80, true)
    else if leb prefix 0xbf
    then long_header (prefix - 0xb7) true
    else if leb prefix 0xf7
    then pure (1, prefix - 0xc0, false)
    else long_header (prefix - 0xf7) false

unfoldable pub decode_header : Decode (ℕ × ℕ × Bool)
unfolding index
decode_header = do
  pos ← gets λ d. d.position
  total ← gets λ d. length d.bytes
  require (ltb pos total) unexpected_eof
  prefix ← index pos
  header prefix

-- The `len` bytes at the position, which moves past them.
unfoldable pub take_bytes : ℕ → Decode (List ℕ)
take_bytes len = do
  pos ← gets λ d. d.position
  total ← gets λ d. length d.bytes
  end ← add_usize pos len
  require (leb end total) unexpected_eof
  bytes ← slice pos end
  modify λ d. record d { position = end }
  pure bytes

unfoldable pub decode_bytes : Decode (List ℕ)
decode_bytes = do
  (offset, len, is_data) ← decode_header
  require is_data (invalid_data expected_data)
  skip offset
  take_bytes len

unfoldable pub decode_u8 : Decode ℕ
decode_u8 = do
  bytes ← decode_bytes
  elim bytes [ [] ↦ pure 0 | b ∷ [] ↦ pure b | b ∷ c ∷ r ↦ fail integer_overflow ]

-- The checks of `decode_u32` and `decode_u64` on the payload, for a word of `w` bytes.
unfoldable pub word : ℕ → List ℕ → Decode ℕ
word w [] = pure 0
word w (b ∷ bytes) =
    let bs = b ∷ bytes in
    if ltb w (length bs)
    then fail integer_overflow
    else if ltb 1 (length bs) && b == 0
    then fail leading_zeros
    else pure (from_be_bytes (replicate (w - length bs) 0 ++ bs))

unfoldable pub decode_u32 : Decode ℕ
decode_u32 = do bytes ← decode_bytes; word 4 bytes

unfoldable pub decode_u64 : Decode ℕ
decode_u64 = do bytes ← decode_bytes; word 8 bytes

-- The payload of a `u16`.
unfoldable pub half_word : List ℕ → Decode ℕ
half_word [] = pure 0
half_word (b ∷ []) = pure b
half_word (b ∷ c ∷ []) = if b == 0 then fail leading_zeros else pure (from_be_bytes (b ∷ c ∷ []))
half_word (b ∷ c ∷ e ∷ bytes) = fail integer_overflow

unfoldable pub decode_u16 : Decode ℕ
decode_u16 = do bytes ← decode_bytes; half_word bytes

unfoldable pub decode_bool : Decode Bool
decode_bool = do
  v ← decode_u8
  if v == 0 then pure false else if v == 1 then pure true else fail (invalid_data invalid_boolean)

unfoldable pub is_list : Decode Bool
is_list = do
  pos ← gets λ d. d.position
  total ← gets λ d. length d.bytes
  require (ltb pos total) unexpected_eof
  prefix ← index pos
  pure (leb 0xc0 prefix)

-- `while self.position < end_position { items.push(T::decode(self)?) }` on fuel.
unfoldable pub decode_each : {A : Type 0} → ℕ → Decode A → ℕ → Decode (List A)
decode_each zero decode end d = stuck
decode_each (suc fuel) decode end d = elim (ltb d.position end) [
  | false ↦ ok [] d
  | true ↦ (do x ← decode; xs ← decode_each fuel decode end; pure (x ∷ xs)) d
]

unfoldable pub decode_list : {A : Type 0} → ℕ → Decode A → Decode (List A)
decode_list fuel decode = do
  (offset, len, is_data) ← decode_header
  require (not is_data) (invalid_data expected_list)
  skip offset
  pos ← gets λ d. d.position
  end ← add_usize pos len
  total ← gets λ d. length d.bytes
  require (leb end total) unexpected_eof
  items ← decode_each fuel decode end
  pos' ← gets λ d. d.position
  require (pos' == end) (list_length_mismatch len (pos' - (end - len)))
  pure items
