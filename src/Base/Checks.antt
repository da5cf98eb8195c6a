-- ===== src/Base/Checks.antt =====
-- A claim on every number below a bound, by a test of each.
use Prim.Native.Nat.{ℕ, zero, suc, ◌<◌}
use mathlib.Core.Path.{◌≡◌, refl, ap, ◌∙◌}
use mathlib.Core.Logic.{◌⊎◌, inl, inr}
use mathlib.Core.Bool.{Bool, true, false, ◌&&◌}
use native.Mathlib.Omega.{arith}

-- A test of every number below a bound.
abbrev pub every : (ℕ → Bool) → ℕ → Bool
every p zero = true
every p (suc n) = p n && every p n

both : (a b : Bool) → (a && b) ≡ true → (a ≡ true) × (b ≡ true)
both true b h = (refl, h)
both false b h = cc

le_cases : (k n : ℕ) → k < suc n → (k < n) ⊎ (k ≡ n)
le_cases k n h = ground arith

pub every_below : (p : ℕ → Bool) (n : ℕ) → every p n ≡ true → (k : ℕ) → k < n → p k ≡ true
every_below p zero h k l = absurd (omega arith)
every_below p (suc n) h k l =
    let (here, below) = both (p n) (every p n) h in
    elim (le_cases k n l) [ inl e ↦ every_below p n below k e | inr e ↦ ap p e ∙ here ]
