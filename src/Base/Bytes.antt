-- ===== src/Base/Bytes.antt =====
-- Big-endian byte strings: Rust's `to_be_bytes` and `from_be_bytes` at any width.
use Prim.Native.Nat.{ℕ, zero, suc, ◌+◌, ◌*◌, ◌/◌, ◌%◌, ◌^◌, ◌≤◌, ◌<◌}
use mathlib.Core.Path.{◌≡◌, refl, ◌∙◌}
use mathlib.Core.List.{List, [], ◌∷◌, ◌++◌}
use native.Mathlib.Omega.{arith}
use native.Mathlib.Nat.{pow-suc}
use ethereum_rust.Base.Lists.{length, length-append, All, replicate}

abbrev pub IsByte : ℕ → Type 0
IsByte b = b < 256

-- The low `w` bytes of `n`, the most significant first.
unfoldable pub to_be_bytes : ℕ → ℕ → List ℕ
to_be_bytes zero n = []
to_be_bytes (suc w) n = to_be_bytes w (n / 256) ++ (n % 256 ∷ [])

unfoldable pub from_be_loop : ℕ → List ℕ → ℕ
from_be_loop acc [] = acc
from_be_loop acc (b ∷ bs) = from_be_loop (acc * 256 + b) bs

unfoldable pub from_be_bytes : List ℕ → ℕ
unfolding from_be_loop
from_be_bytes bs = from_be_loop 0 bs

-- `&bytes[first_non_zero..]`
unfoldable pub skip_zeros : List ℕ → List ℕ
skip_zeros [] = []
skip_zeros (zero ∷ bs) = skip_zeros bs
skip_zeros (suc b ∷ bs) = suc b ∷ bs

from_be_loop-append :
    (acc : ℕ) (xs ys : List ℕ) → from_be_loop acc (xs ++ ys) ≡ from_be_loop (from_be_loop acc xs) ys
unfolding from_be_loop
from_be_loop-append acc [] ys = refl
from_be_loop-append acc (x ∷ xs) ys = from_be_loop-append (acc * 256 + x) xs ys

pub from_be_bytes-to_be_bytes : (w n : ℕ) → n < 256 ^ w → from_be_bytes (to_be_bytes w n) ≡ n
unfolding from_be_bytes to_be_bytes
from_be_bytes-to_be_bytes zero n h = omega arith
from_be_bytes-to_be_bytes (suc w) n h =
    from_be_loop-append 0 (to_be_bytes w (n / 256)) (n % 256 ∷ [])
    ∙ omega (arith, from_be_bytes-to_be_bytes w (n / 256) (omega (arith, pow-suc 256 w)))

pub length-to_be_bytes : (w n : ℕ) → length (to_be_bytes w n) ≡ w
unfolding to_be_bytes
length-to_be_bytes zero n = refl
length-to_be_bytes (suc w) n =
    omega (
      arith,
      length-append (to_be_bytes w (n / 256)) (n % 256 ∷ []),
      length-to_be_bytes w (n / 256),
    )

pub IsByte-append : (xs ys : List ℕ) → All IsByte xs → All IsByte ys → All IsByte (xs ++ ys)
IsByte-append [] ys h k = k
IsByte-append (x ∷ xs) ys h k = (h.0, IsByte-append xs ys h.1 k)

pub to_be_bytes-IsByte : (w n : ℕ) → All IsByte (to_be_bytes w n)
unfolding to_be_bytes
to_be_bytes-IsByte zero n = tt
to_be_bytes-IsByte (suc w) n =
    IsByte-append (to_be_bytes w (n / 256)) (n % 256 ∷ []) (to_be_bytes-IsByte w (n / 256))
      (omega arith, tt)

pub from_be_bytes-skip_zeros : (bs : List ℕ) → from_be_bytes (skip_zeros bs) ≡ from_be_bytes bs
unfolding from_be_bytes skip_zeros
from_be_bytes-skip_zeros [] = refl
from_be_bytes-skip_zeros (zero ∷ bs) = from_be_bytes-skip_zeros bs
from_be_bytes-skip_zeros (suc b ∷ bs) = refl

pub skip_zeros-IsByte : (bs : List ℕ) → All IsByte bs → All IsByte (skip_zeros bs)
unfolding skip_zeros
skip_zeros-IsByte [] h = tt
skip_zeros-IsByte (zero ∷ bs) h = skip_zeros-IsByte bs h.1
skip_zeros-IsByte (suc b ∷ bs) h = h

pub length-skip_zeros : (bs : List ℕ) → length (skip_zeros bs) ≤ length bs
unfolding skip_zeros
length-skip_zeros [] = omega arith
length-skip_zeros (zero ∷ bs) = omega (arith, length-skip_zeros bs)
length-skip_zeros (suc b ∷ bs) = omega arith

-- What is left does not begin with a zero byte.
abbrev pub NoLeadingZero : List ℕ → Type 0
NoLeadingZero [] = Unit {0}
NoLeadingZero (b ∷ bs) = 0 < b

pub skip_zeros-NoLeadingZero : (bs : List ℕ) → NoLeadingZero (skip_zeros bs)
unfolding skip_zeros
skip_zeros-NoLeadingZero [] = tt
skip_zeros-NoLeadingZero (zero ∷ bs) = skip_zeros-NoLeadingZero bs
skip_zeros-NoLeadingZero (suc b ∷ bs) = omega arith

pub from_be_bytes-replicate_zero :
    (k : ℕ) (bs : List ℕ) → from_be_bytes (replicate k 0 ++ bs) ≡ from_be_bytes bs
unfolding from_be_bytes
from_be_bytes-replicate_zero zero bs = refl
from_be_bytes-replicate_zero (suc k) bs = from_be_bytes-replicate_zero k bs
