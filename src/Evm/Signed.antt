-- ===== src/Evm/Signed.antt =====
-- crates/evm/src/interpreter.rs: `signed_div` and `signed_mod` against division that rounds to zero.
use ethereum_rust.Base.{
  ℕ, ◌+◌, ◌-◌, ◌/◌, ◌%◌, ◌≤◌, ◌<◌, ◌^◌, ◌≡◌, refl, ap, ◌∙◌, Bool, true, false, ◌&&◌, not, arith,
  ◌==◌, if◌then◌else◌,
}
use native.Mathlib.Nat.{div-le_self, mod-lt}
use ethereum_rust.Evm.Library.{Library, Documented}
use ethereum_rust.Evm.Arithmetic.{
  same, is_negative, twos_complement, magnitude, signed_div, signed_mod,
}

-- The word of a number that is given by its sign and its absolute value.
abbrev pub word_of : Bool → ℕ → ℕ
word_of false n = n
word_of true n = (2 ^ 256 - n) % 2 ^ 256

-- The numbers of 256 bits in two's complement, with one sign for 0.
abbrev pub InRange : Bool → ℕ → Type 0
InRange false n = n < 2 ^ 255
InRange true n = (0 < n) × (n ≤ 2 ^ 255)

small : (n : ℕ) → n < 2 ^ 255 → (n / 2 ^ 255 == 1) ≡ false
small n h = ground arith

large : (n : ℕ) → (0 < n) × (n ≤ 2 ^ 255) → ((2 ^ 256 - n) % 2 ^ 256 / 2 ^ 255 == 1) ≡ true
large n h = ground (arith, h)

magnitude_bound : (s : Bool) (n : ℕ) → InRange s n → n ≤ 2 ^ 255
magnitude_bound false n h = omega (arith, h)
magnitude_bound true n h = h.1

word_of_nonzero : (s : Bool) (n : ℕ) → InRange s n → 0 < n → (word_of s n == 0) ≡ false
word_of_nonzero false n h k = ground (arith, k)
word_of_nonzero true n h k = ground (arith, h)

module _ (lib : Library) (documented : Documented lib) where
  is_negative-word_of : (s : Bool) (n : ℕ) → InRange s n → is_negative lib (word_of s n) ≡ s
  unfolding is_negative
  is_negative-word_of false n h = documented.top_bit n (omega arith) ∙ small n h
  is_negative-word_of true n h =
      documented.top_bit ((2 ^ 256 - n) % 2 ^ 256) (omega arith) ∙ large n h

  twos_complement_wraps : (v : ℕ) → v < 2 ^ 256 → twos_complement lib v ≡ (2 ^ 256 - v) % 2 ^ 256
  unfolding twos_complement
  twos_complement_wraps v h =
      documented.add_wraps (lib.complement v) 1
      ∙ ap (λ c. (c + 1) % 2 ^ 256) (documented.not_flips v h)
      ∙ omega arith

  magnitude-word_of : (s : Bool) (n : ℕ) → InRange s n → magnitude lib (word_of s n) ≡ n
  unfolding magnitude
  magnitude-word_of false n h = rw (is_negative-word_of false n h) refl
  magnitude-word_of true n h =
      rw (is_negative-word_of true n h)
        (twos_complement_wraps ((2 ^ 256 - n) % 2 ^ 256) (omega arith) ∙ omega arith)

  signed_result :
      (b : Bool) (q : ℕ)
      → q < 2 ^ 256
      → (if b then q else twos_complement lib q) ≡ word_of (not b) q
  signed_result true q h = refl
  signed_result false q h = twos_complement_wraps q h

  -- `signed_div` of two words in two's complement is the quotient of their absolute values with the
  -- sign of the quotient, if the divisor is not 0: division rounds to zero. The library's operations on
  -- `U256` do what is documented.
  pub signed_div-word_of :
      (s t : Bool) (m n : ℕ)
      → InRange s m
      → InRange t n
      → 0 < n
      → signed_div lib (word_of s m) (word_of t n) ≡ word_of (not (same s t)) (m / n)
  unfolding signed_div
  signed_div-word_of s t m n h k l =
      rw
        (
          word_of_nonzero t n k l,
          magnitude-word_of s m h,
          magnitude-word_of t n k,
          is_negative-word_of s m h,
          is_negative-word_of t n k,
          documented.divides m n l,
        )
        (signed_result (same s t) (m / n) (omega (arith, div-le_self m n, magnitude_bound s m h)))

  signed_remainder :
      (s : Bool) (r : ℕ)
      → r < 2 ^ 256
      → (if s && not (r == 0) then twos_complement lib r else r) ≡ word_of s r
  signed_remainder false r h = refl
  signed_remainder true r h = ground (arith, twos_complement_wraps r h)

  -- `signed_mod` of two words in two's complement is the remainder of their absolute values with the
  -- sign of the dividend, if the divisor is not 0. The library's operations on `U256` do what is
  -- documented.
  pub signed_mod-word_of :
      (s t : Bool) (m n : ℕ)
      → InRange s m
      → InRange t n
      → 0 < n
      → signed_mod lib (word_of s m) (word_of t n) ≡ word_of s (m % n)
  unfolding signed_mod
  signed_mod-word_of s t m n h k l =
      rw
        (
          word_of_nonzero t n k l,
          magnitude-word_of s m h,
          magnitude-word_of t n k,
          is_negative-word_of s m h,
          documented.leaves m n l,
        )
        (signed_remainder s (m % n) (omega (arith, mod-lt m {m = n} l, magnitude_bound t n k)))
