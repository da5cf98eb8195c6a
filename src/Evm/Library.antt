-- ===== src/Evm/Library.antt =====
-- What the interpreter calls of other packages: `U256` and `U512` of primitive-types, and Keccak-256.
-- A `U256` is the number that it stands for; an `H256` and an `Address` are the numbers whose
-- big-endian bytes they hold. `none` is a panic.
use ethereum_rust.Base.{
  ℕ, ◌+◌, ◌-◌, ◌*◌, ◌/◌, ◌%◌, ◌^◌, ◌≤◌, ◌<◌, ◌≡◌, Bool, Option, none, some, List, ◌==◌, length,
}
use ethereum_rust.Base.Bytes.{to_be_bytes, from_be_bytes}

pub record Library : Type 0 where
  pub overflowing_add : ℕ → ℕ → ℕ
  pub overflowing_sub : ℕ → ℕ → ℕ
  pub overflowing_mul : ℕ → ℕ → ℕ
  pub overflowing_pow : ℕ → ℕ → ℕ
  pub saturating_add : ℕ → ℕ → ℕ
  pub quotient : ℕ → ℕ → ℕ
  pub remainder : ℕ → ℕ → ℕ
  pub bitand : ℕ → ℕ → ℕ
  pub bitor : ℕ → ℕ → ℕ
  pub bitxor : ℕ → ℕ → ℕ
  pub complement : ℕ → ℕ
  pub shift_left : ℕ → ℕ → ℕ
  pub shift_right : ℕ → ℕ → ℕ
  pub bit : ℕ → ℕ → Bool
  pub byte : ℕ → ℕ → ℕ
  pub bits : ℕ → ℕ
  pub full_mul : ℕ → ℕ → ℕ
  pub wide_overflowing_add : ℕ → ℕ → ℕ
  pub wide_remainder : ℕ → ℕ → ℕ
  pub narrow : ℕ → Option ℕ
  pub as_u64 : ℕ → Option ℕ
  pub as_usize : ℕ → Option ℕ
  pub to_big_endian : ℕ → List ℕ
  pub from_big_endian : List ℕ → ℕ
  pub keccak256 : List ℕ → ℕ

-- The documented behaviour of the operations that the theorems rely on.
pub record Documented (lib : Library) : Type 0 where
  pub add_wraps : (a b : ℕ) → lib.overflowing_add a b ≡ (a + b) % 2 ^ 256
  pub not_flips : (a : ℕ) → a < 2 ^ 256 → lib.complement a ≡ 2 ^ 256 - 1 - a
  pub divides : (a b : ℕ) → 0 < b → lib.quotient a b ≡ a / b
  pub leaves : (a b : ℕ) → 0 < b → lib.remainder a b ≡ a % b
  pub top_bit : (a : ℕ) → a < 2 ^ 256 → lib.bit a 255 ≡ (a / 2 ^ 255 == 1)
  pub byte_at : (a i : ℕ) → i < 32 → lib.byte a i ≡ a / 256 ^ i % 256
  pub shifts_left : (a k : ℕ) → lib.shift_left a k ≡ a * 2 ^ k % 2 ^ 256
  pub u64_fits : (a : ℕ) → a < 2 ^ 64 → lib.as_u64 a ≡ some a
  pub u64_panics : (a : ℕ) → 2 ^ 64 ≤ a → lib.as_u64 a ≡ none
  pub usize_fits : (a : ℕ) → a < 2 ^ 64 → lib.as_usize a ≡ some a
  pub usize_panics : (a : ℕ) → 2 ^ 64 ≤ a → lib.as_usize a ≡ none
  pub big_endian : (a : ℕ) → a < 2 ^ 256 → lib.to_big_endian a ≡ to_be_bytes 32 a
  pub number : (bs : List ℕ) → length bs ≤ 32 → lib.from_big_endian bs ≡ from_be_bytes bs
