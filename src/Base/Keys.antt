-- ===== src/Base/Keys.antt =====
-- Byte strings as keys: `==` and the order of `[u8]`.
use Prim.Native.Nat.{ℕ}
use mathlib.Core.Path.{◌≡◌, refl, subst}
use mathlib.Core.Logic.{◌≢◌, ◌⊎◌, inl, inr}
use mathlib.Core.Bool.{Bool, true, false, ◌&&◌}
use mathlib.Core.List.{List, [], ◌∷◌}
use native.Mathlib.Omega.{arith}
use ethereum_rust.Base.Tests.{ltb, ◌==◌, if◌then◌else◌, ==_refl, Bool-cases}

unfoldable pub same : List ℕ → List ℕ → Bool
same [] [] = true
same [] (y ∷ ys) = false
same (x ∷ xs) [] = false
same (x ∷ xs) (y ∷ ys) = (x == y) && same xs ys

-- The first byte that differs decides, and a prefix comes first.
unfoldable pub key_lt : List ℕ → List ℕ → Bool
key_lt [] [] = false
key_lt [] (y ∷ ys) = true
key_lt (x ∷ xs) [] = false
key_lt (x ∷ xs) (y ∷ ys) =
    let rest = key_lt xs ys in if ltb x y then true else if x == y then rest else false

pub same_refl : (a : List ℕ) → same a a ≡ true
unfolding same
same_refl [] = refl
same_refl (n ∷ a) = rw (==_refl n, same_refl a) refl

pub same-eq : (a b : List ℕ) → same a b ≡ true → a ≡ b
unfolding same
same-eq [] [] h = refl
same-eq [] (m ∷ b) h = absurd (cc h)
same-eq (n ∷ a) [] h = absurd (cc h)
same-eq (n ∷ a) (m ∷ b) h = ground (arith, h, same-eq a b)

pub same-cases : (a b : List ℕ) → (a ≡ b) ⊎ ((a ≢ b) × (same a b ≡ false))
same-cases a b = elim (Bool-cases (same a b)) [
  | inl h ↦ inl (same-eq a b h)
  | inr h ↦ inr (λ e. cc (subst (λ z. same a z ≡ true) e (same_refl a), h), h)
]

pub key_lt_refl : (a : List ℕ) → key_lt a a ≡ false
unfolding key_lt
key_lt_refl [] = refl
key_lt_refl (n ∷ a) = ground (arith, key_lt_refl a)

pub key_lt_trans : (a b c : List ℕ) → key_lt a b ≡ true → key_lt b c ≡ true → key_lt a c ≡ true
unfolding key_lt
key_lt_trans a [] [] h g = absurd (cc g)
key_lt_trans [] (m ∷ b) [] h g = absurd (cc g)
key_lt_trans [] [] (o ∷ c) h g = absurd (cc h)
key_lt_trans (n ∷ a) [] (o ∷ c) h g = absurd (cc h)
key_lt_trans [] (m ∷ b) (o ∷ c) h g = refl
key_lt_trans (n ∷ a) (m ∷ b) [] h g = absurd (cc g)
key_lt_trans (n ∷ a) (m ∷ b) (o ∷ c) h g = ground (arith, h, g, key_lt_trans a b c)

-- A key that is not below another, and not the same, is above it.
pub key_lt_total : (a b : List ℕ) → same a b ≡ false → key_lt a b ≡ false → key_lt b a ≡ true
unfolding key_lt same
key_lt_total [] [] h g = absurd (cc h)
key_lt_total [] (m ∷ b) h g = absurd (cc g)
key_lt_total (n ∷ a) [] h g = refl
key_lt_total (n ∷ a) (m ∷ b) h g = ground (arith, h, g, key_lt_total a b)
