-- ===== src/TxPool/Maps.antt =====
-- The association list that stands for a `HashMap`.
use ethereum_rust.Base.{
  ℕ, suc, ◌≤◌, ◌<◌, ◌≡◌, ◌≢◌, refl, sym, ◌∙◌, Bool, true, false, List, [], ◌∷◌, Option, none, some,
  arith, ◌==◌, ==_iff, if◌then◌else◌, length,
}
use ethereum_rust.TxPool.{lookup, erase, insert, at}

decided :
    {A : Type 0} (P : A → Type 0) (b : Bool) {x y : A}
    → (b ≡ true → P x)
    → (b ≡ false → P y)
    → P (if b then x else y)
decided P true h e = h refl
decided P false h e = e refl

==_false : (k l : ℕ) → (k == l) ≡ false → k ≢ l
==_false k l h e = ground (arith, h, e)

-- A rule for a test of two keys.
pub if_rule :
    {A : Type 0} (P : A → Type 0) (k l : ℕ) {x y : A}
    → (k ≡ l → P x)
    → (k ≢ l → P y)
    → P (if k == l then x else y)
if_rule P k l h e = decided P (k == l) (λ q. h ((==_iff k l).0 q)) (λ q. e (==_false k l q))

module _ {V : Type 0} where
  pub lookup-erase_same : (key : ℕ) (m : List (ℕ × V)) → lookup (erase key m) key ≡ none
  unfolding lookup erase
  lookup-erase_same key [] = refl
  lookup-erase_same key ((k, v) ∷ rest) =
      if_rule (λ (m : List (ℕ × V)). lookup m key ≡ none) k key (λ e. lookup-erase_same key rest)
        (λ n.
          if_rule (λ (o : Option V). o ≡ none) k key {x = some v} (λ e. absurd (n e))
            (λ _. lookup-erase_same key rest))

  pub lookup-erase_other :
      (key other : ℕ) (m : List (ℕ × V)) → other ≢ key → lookup (erase key m) other ≡ lookup m other
  unfolding lookup erase
  lookup-erase_other key other [] n = refl
  lookup-erase_other key other ((k, v) ∷ rest) n =
      if_rule (λ m. lookup m other ≡ (if k == other then some v else lookup rest other)) k key
        (λ e.
          if_rule (λ o. lookup (erase key rest) other ≡ o) k other (λ q. absurd (n (sym q ∙ e)))
            (λ _. lookup-erase_other key other rest n))
        (λ _. rw (lookup-erase_other key other rest n) refl)

  pub lookup-insert_same :
      (key : ℕ) (v : V) (m : List (ℕ × V)) → lookup (insert key v m) key ≡ some v
  unfolding lookup insert
  lookup-insert_same key v m = if_rule (λ o. o ≡ some v) key key (λ e. refl) (λ n. absurd (n refl))

  pub lookup-insert_other :
      (key other : ℕ) (v : V) (m : List (ℕ × V))
      → other ≢ key
      → lookup (insert key v m) other ≡ lookup m other
  unfolding lookup insert
  lookup-insert_other key other v m n =
      if_rule (λ o. o ≡ lookup m other) key other (λ e. absurd (n (sym e)))
        (λ _. lookup-erase_other key other m n)

  pub length-erase : (key : ℕ) (m : List (ℕ × V)) → length (erase key m) ≤ length m
  unfolding erase
  length-erase key [] = omega arith
  length-erase key ((k, v) ∷ rest) =
      if_rule (λ (m : List (ℕ × V)). length m ≤ suc (length rest)) k key
        (λ e. omega (arith, length-erase key rest)) (λ n. omega (arith, length-erase key rest))

  -- An erased entry makes the map smaller.
  pub length-erase_found :
      (key : ℕ) (v : V) (m : List (ℕ × V)) → lookup m key ≡ some v → length (erase key m) < length m
  unfolding erase lookup
  length-erase_found key v [] h = cc
  length-erase_found key v ((k, w) ∷ rest) h =
      if_rule (λ (m : List (ℕ × V)). length m < suc (length rest)) k key
        (λ e. omega (arith, length-erase key rest))
        (λ n. omega (
          arith,
          length-erase_found key v rest (
              if_rule (λ o. o ≡ some v → lookup rest key ≡ some v) k key (λ e. absurd (n e))
                (λ _ q. q) h),
        ))

-- A rule for the entry of an address.
pub at_rule :
    {V : Type 0} (P : V → Type 0) (address a : ℕ) {v : V} (m : ℕ → V)
    → (a ≡ address → P v)
    → (a ≢ address → P (m a))
    → P (at address v m a)
at_rule P address a m h e = if_rule P a address h e
