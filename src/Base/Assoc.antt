-- ===== src/Base/Assoc.antt =====
-- Maps as association lists with one entry for each key.
use ethereum_rust.Base.{ℕ, List, [], ◌∷◌, Option, none, some, ◌==◌, if◌then◌else◌}

unfoldable pub lookup : {V : Type 0} → List (ℕ × V) → ℕ → Option V
lookup [] key = none
lookup ((k, v) ∷ rest) key = if k == key then some v else lookup rest key

unfoldable pub erase : {V : Type 0} → ℕ → List (ℕ × V) → List (ℕ × V)
erase key [] = []
erase key ((k, v) ∷ rest) =
    let others = erase key rest in if k == key then others else (k, v) ∷ others

unfoldable pub insert : {V : Type 0} → ℕ → V → List (ℕ × V) → List (ℕ × V)
insert key value m = (key, value) ∷ erase key m
