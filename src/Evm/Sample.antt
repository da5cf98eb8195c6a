-- ===== src/Evm/Sample.antt =====
-- A library for runs of the model: the operations of `U256` on ℕ. The hash stands for a real one: it is
-- the number that the bytes spell.
use ethereum_rust.Base.{
  ℕ, zero, suc, ◌+◌, ◌-◌, ◌*◌, ◌/◌, ◌%◌, ◌^◌, ◌<◌, ◌≤◌, ◌≡◌, refl, Bool, true, false, Option, none,
  some, ◌==◌, ltb, if◌then◌else◌, min, arith,
}
use ethereum_rust.Base.Bytes.{to_be_bytes, from_be_bytes}
use ethereum_rust.Evm.Library.{Library, Documented}

-- A bit of the result for each of the two bits.
unfoldable pub bitwise : (Bool → Bool → Bool) → ℕ → ℕ → ℕ → ℕ
bitwise op zero a b = 0
bitwise op (suc n) a b =
    (if op (a % 2 == 1) (b % 2 == 1) then 1 else 0) + 2 * bitwise op n (a / 2) (b / 2)

unfoldable pub bit_count : ℕ → ℕ → ℕ
bit_count zero a = 0
bit_count (suc n) a = if a == 0 then 0 else suc (bit_count n (a / 2))

abbrev below : ℕ → ℕ → Option ℕ
below limit a = if ltb a limit then some a else none

abbrev pub word_library : Library
word_library = record {
  overflowing_add = λ a b. (a + b) % 2 ^ 256;
  overflowing_sub = λ a b. (a + (2 ^ 256 - b)) % 2 ^ 256;
  overflowing_mul = λ a b. a * b % 2 ^ 256;
  overflowing_pow = λ a b. a ^ b % 2 ^ 256;
  saturating_add = λ a b. min (a + b) (2 ^ 256 - 1);
  quotient = λ a b. a / b;
  remainder = λ a b. a % b;
  bitand = bitwise (λ x y. if x then y else false) 256;
  bitor = bitwise (λ x y. if x then true else y) 256;
  bitxor = bitwise (λ x y. if x then (if y then false else true) else y) 256;
  complement = λ a. 2 ^ 256 - 1 - a;
  shift_left = λ a k. a * 2 ^ k % 2 ^ 256;
  shift_right = λ a k. a / 2 ^ k;
  bit = λ a i. (a / 2 ^ i % 2) == 1;
  byte = λ a i. a / 256 ^ i % 256;
  bits = bit_count 256;
  full_mul = λ a b. a * b;
  wide_overflowing_add = λ a b. (a + b) % 2 ^ 512;
  wide_remainder = λ a b. a % b;
  narrow = below (2 ^ 256);
  as_u64 = below (2 ^ 64);
  as_usize = below (2 ^ 64);
  to_big_endian = to_be_bytes 32;
  from_big_endian = from_be_bytes;
  keccak256 = from_be_bytes;
}

top_bit : (a : ℕ) → a < 2 ^ 256 → ((a / 2 ^ 255 % 2) == 1) ≡ (a / 2 ^ 255 == 1)
top_bit a h = ground arith

fits : (limit a : ℕ) → a < limit → below limit a ≡ some a
fits limit a h = ground arith

panics : (limit a : ℕ) → limit ≤ a → below limit a ≡ none
panics limit a h = ground arith

pub word_library-Documented : Documented word_library
word_library-Documented = record {
  add_wraps = λ a b. refl;
  not_flips = λ a h. refl;
  divides = λ a b h. refl;
  leaves = λ a b h. refl;
  top_bit = top_bit;
  byte_at = λ a i h. refl;
  shifts_left = λ a k. refl;
  u64_fits = fits (2 ^ 64);
  u64_panics = panics (2 ^ 64);
  usize_fits = fits (2 ^ 64);
  usize_panics = panics (2 ^ 64);
  big_endian = λ a h. refl;
  number = λ bs h. refl;
}
