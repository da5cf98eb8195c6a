-- ===== src/Rlp/Hostile.antt =====
-- The length field of a long form, whatever bytes it holds.
use native.Mathlib.Nat.{pow-suc, mul-le-mul_right, le-mul_of_pos_right}
use ethereum_rust.Base.{
  ℕ, zero, suc, ◌+◌, ◌*◌, ◌%◌, ◌^◌, ◌≤◌, ◌<◌, ◌≡◌, refl, Bool, true, false, List, [], ◌∷◌, ◌++◌,
  ltb, arith, lt→ltb, le→ltb, length, All, length-append,
}
use ethereum_rust.Base.Bytes.{IsByte, from_be_loop, from_be_bytes}
use ethereum_rust.Base.Outcome.{ok, panic}
use ethereum_rust.Rlp.Decode.{
  Decoder, Decode, decode_length, length_loop, decode_bytes, decode_list, slice, header,
  long_header, take_bytes, add_usize,
}
use ethereum_rust.Rlp.Header.{at, slice-drop, decode_header-header}
use ethereum_rust.Rlp.Reads.{skip_lem}

power : (b n : ℕ) → b ^ suc n ≡ b * b ^ n
power b n = omega (arith, pow-suc b n)

pow_pos : (n : ℕ) → 0 < 256 ^ n
pow_pos zero = omega arith
pow_pos (suc n) = omega (arith, pow-suc 256 n, pow_pos n)

-- One more byte of a number that has room for `q`.
shift_room :
    (len b q : ℕ)
    → b < 256
    → 0 < q
    → (len + 1) * (256 * q) ≤ 2 ^ 64
    → ((len * 256 + b + 1) * q ≤ 2 ^ 64) × (len * 256 + b < 2 ^ 64)
shift_room len b q hb hq h =
    let next : (len * 256 + b + 1) * q ≤ (len * 256 + 256) * q = mul-le-mul_right q (omega arith) in
    let one : len * 256 + b + 1 ≤ (len * 256 + b + 1) * q =
      le-mul_of_pos_right (len * 256 + b + 1) hq in
    (omega (arith, h, next), omega (arith, h, next, one))

length_loop-from_be_loop :
    (len : ℕ) (bytes : List ℕ) (d : Decoder)
    → All IsByte bytes
    → (len + 1) * 256 ^ length bytes ≤ 2 ^ 64
    → length_loop len bytes d ≡ ok (from_be_loop len bytes) d
unfolding length_loop from_be_loop
length_loop-from_be_loop len [] d all h = refl
length_loop-from_be_loop len (b ∷ bytes) d all h =
    let q = 256 ^ length bytes in
    let whole : (len + 1) * (256 * q) ≤ 2 ^ 64 = rw (power 256 (length bytes)) at h in
    let room = shift_room len b q all.0 (pow_pos (length bytes)) whole in
    let wraps : len * 256 % 2 ^ 64 ≡ len * 256 = omega (arith, room.1) in
    let rest = length_loop-from_be_loop (len * 256 + b) bytes d all.1 room.0 in
    let fine : ltb (len * 256 + b) (2 ^ 64) ≡ true = lt→ltb _ _ room.1 in rw (wraps, fine) rest

pow_mono : (m n : ℕ) → m ≤ n → 256 ^ m ≤ 256 ^ n
pow_mono zero n h = pow_pos n
pow_mono (suc m) zero h = absurd (omega arith)
pow_mono (suc m) (suc n) h = omega (arith, power 256 m, power 256 n, pow_mono m n (omega arith))

-- A length field of one to eight bytes, the first of them not zero, is read as the number that it
-- writes in base 256: the overflow error is never returned.
pub decode_length-from_be_bytes :
    (b : ℕ) (bytes : List ℕ) (d : Decoder)
    → All IsByte (b ∷ bytes)
    → 0 < b
    → length (b ∷ bytes) ≤ 8
    → decode_length (b ∷ bytes) d ≡ ok (from_be_bytes (b ∷ bytes)) d
unfolding decode_length from_be_bytes
decode_length-from_be_bytes b bytes d all h n =
    let room : 256 ^ suc (length bytes) ≤ 2 ^ 64 = pow_mono (suc (length bytes)) 8 n in
    ground (arith, length_loop-from_be_loop 0 (b ∷ bytes) d all (omega (arith, room)))

add_usize_huge : (a b : ℕ) (d : Decoder) → 2 ^ 64 ≤ a + b → add_usize a b d ≡ panic
unfolding add_usize
add_usize_huge a b d h = rw (le→ltb _ _ h)

huge_header :
    (prefix b : ℕ) (bytes rest : List ℕ) (is_data : Bool)
    → All IsByte (b ∷ bytes)
    → 0 < b
    → length bytes ≡ 7
    → long_header 8 is_data (at (prefix ∷ (b ∷ bytes) ++ rest) 0)
      ≡ ok (9, from_be_bytes (b ∷ bytes), is_data) (at (prefix ∷ (b ∷ bytes) ++ rest) 0)
unfolding long_header
huge_header prefix b bytes rest is_data all h n =
    let whole = prefix ∷ (b ∷ bytes) ++ rest in
    let size = length-append (b ∷ bytes) rest in
    let eight : 1 + length (b ∷ bytes) ≡ 9 = omega (arith, n) in
    let place = slice-drop whole (b ∷ bytes) rest 0 1 (omega (arith, size)) refl in
    let place' : slice 1 9 (at whole 0) ≡ ok (b ∷ bytes) (at whole 0) = rw eight at place in
    let value = decode_length-from_be_bytes b bytes (at whole 0) all h (omega (arith, n)) in
    ground (arith, size, place', value)

-- A string or a list whose header has eight length bytes, the first of them not zero, and announces so
-- many bytes that their end is 2^64 or later: the sum that should be compared with the input's length
-- overflows, and the reader panics on whatever follows.
pub decode_huge_panics :
    {A : Type 0} (decode : Decode A) (fuel b : ℕ) (bytes rest : List ℕ)
    → All IsByte (b ∷ bytes)
    → 0 < b
    → length bytes ≡ 7
    → 2 ^ 64 ≤ 9 + from_be_bytes (b ∷ bytes)
    → (decode_bytes (at (0xbf ∷ (b ∷ bytes) ++ rest) 0) ≡ panic)
      × (decode_list fuel decode (at (0xff ∷ (b ∷ bytes) ++ rest) 0) ≡ panic)
unfolding decode_bytes decode_list header take_bytes
decode_huge_panics decode fuel b bytes rest all h n big =
    let string = 0xbf ∷ (b ∷ bytes) ++ rest in
    let list = 0xff ∷ (b ∷ bytes) ++ rest in
    let len = from_be_bytes (b ∷ bytes) in
    (
      ground (
        arith,
        decode_header-header string ((b ∷ bytes) ++ rest) 0 0xbf refl,
        huge_header 0xbf b bytes rest true all h n,
        skip_lem string 0 9 (omega arith),
        add_usize_huge 9 len (at string 9) big,
      ),
      ground (
        arith,
        decode_header-header list ((b ∷ bytes) ++ rest) 0 0xff refl,
        huge_header 0xff b bytes rest false all h n,
        skip_lem list 0 9 (omega arith),
        add_usize_huge 9 len (at list 9) big,
      ),
    )
