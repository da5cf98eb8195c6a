-- ===== src/Base/Sorting.antt =====
-- A stable sort by a falling key: `sort_by(|a, b| key(b).cmp(&key(a)))`.
use Prim.Native.Nat.{ℕ, suc, ◌≤◌}
use mathlib.Core.Path.{◌≡◌, refl, ap, ◌∙◌}
use mathlib.Core.Bool.{Bool, true, false}
use mathlib.Core.List.{List, [], ◌∷◌}
use native.Mathlib.Omega.{arith}
use ethereum_rust.Base.Tests.{leb, leb→le, if◌then◌else◌}
use ethereum_rust.Base.Lists.{All, length}

pub choose :
    {A : Type 0} (P : A → Type 0) (b : Bool) (x y : A)
    → (b ≡ true → P x)
    → (b ≡ false → P y)
    → P (if b then x else y)
choose P true x y h k = h refl
choose P false x y h k = k refl

not_le : (a b : ℕ) → leb a b ≡ false → b ≤ a
not_le a b h = ground (arith, h)

module _ {A : Type 0} (key : A → ℕ) where
  -- An element before its equals, which come later in the list that is sorted.
  unfoldable pub insert_by : A → List A → List A
  insert_by t [] = t ∷ []
  insert_by t (u ∷ us) =
      let rest = insert_by t us in if leb (key u) (key t) then t ∷ u ∷ us else u ∷ rest

  unfoldable pub sort_by : List A → List A
  sort_by [] = []
  sort_by (t ∷ ts) = insert_by t (sort_by ts)

  abbrev pub AtMost : ℕ → A → Type 0
  AtMost bound t = key t ≤ bound

  -- The keys fall along the list.
  abbrev pub Falling : List A → Type 0
  Falling [] = Unit {0}
  Falling (t ∷ ts) = All (AtMost (key t)) ts × Falling ts

  pub insert_by-All :
      (P : A → Type 0) (t : A) (ts : List A) → P t → All P ts → All P (insert_by t ts)
  unfolding insert_by
  insert_by-All P t [] h k = (h, tt)
  insert_by-All P t (u ∷ us) h k =
      choose (All P) (leb (key u) (key t)) (t ∷ u ∷ us) (u ∷ insert_by t us) (λ _. (h, k))
        (λ _. (k.0, insert_by-All P t us h k.1))

  pub sort_by-All : (P : A → Type 0) (ts : List A) → All P ts → All P (sort_by ts)
  unfolding sort_by
  sort_by-All P [] h = tt
  sort_by-All P (t ∷ ts) h = insert_by-All P t (sort_by ts) h.0 (sort_by-All P ts h.1)

  pub AtMost-All : (p q : ℕ) (ts : List A) → p ≤ q → All (AtMost p) ts → All (AtMost q) ts
  AtMost-All p q [] l h = tt
  AtMost-All p q (t ∷ ts) l h = (omega (arith, h.0), AtMost-All p q ts l h.1)

  insert_by-Falling : (t : A) (ts : List A) → Falling ts → Falling (insert_by t ts)
  unfolding insert_by
  insert_by-Falling t [] h = (tt, tt)
  insert_by-Falling t (u ∷ us) h =
      choose Falling (leb (key u) (key t)) (t ∷ u ∷ us) (u ∷ insert_by t us)
        (λ e. let l = leb→le (key u) (key t) e in ((l, AtMost-All (key u) (key t) us l h.0), h))
        (λ e. (
          insert_by-All (AtMost (key u)) t us (not_le (key u) (key t) e) h.0,
          insert_by-Falling t us h.1,
        ))

  pub sort_by-Falling : (ts : List A) → Falling (sort_by ts)
  unfolding sort_by
  sort_by-Falling [] = tt
  sort_by-Falling (t ∷ ts) = insert_by-Falling t (sort_by ts) (sort_by-Falling ts)

  length-insert_by : (t : A) (ts : List A) → length (insert_by t ts) ≡ suc (length ts)
  unfolding insert_by
  length-insert_by t [] = refl
  length-insert_by t (u ∷ us) =
      choose (λ (xs : List A). length xs ≡ suc (suc (length us))) (leb (key u) (key t)) (t ∷ u ∷ us)
        (u ∷ insert_by t us) (λ _. refl) (λ _. ap suc (length-insert_by t us))

  pub length-sort_by : (ts : List A) → length (sort_by ts) ≡ length ts
  unfolding sort_by
  length-sort_by [] = refl
  length-sort_by (t ∷ ts) = length-insert_by t (sort_by ts) ∙ ap suc (length-sort_by ts)
