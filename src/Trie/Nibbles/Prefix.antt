-- ===== src/Trie/Nibbles/Prefix.antt =====
-- crates/trie/src/nibbles.rs: `common_prefix_len`.
use ethereum_rust.Base.{
  ℕ, suc, ◌≡◌, ◌≢◌, ◌⊎◌, refl, Bool, true, false, List, [], ◌∷◌, some, arith, ◌==◌, Bool-cases, inl,
  inr, if◌then◌else◌, take, drop, get_elem?,
}
use ethereum_rust.Trie.Nibbles.{Nibbles, matching, common_prefix_len}

take-matching : (xs ys : List ℕ) → take (matching xs ys) xs ≡ take (matching xs ys) ys
unfolding matching
take-matching [] ys = refl
take-matching (x ∷ xs) [] = refl
take-matching (x ∷ xs) (y ∷ ys) = elim (Bool-cases (x == y)) [
  | inl e ↦ ground (arith, e, take-matching xs ys)
  | inr e ↦ ground (arith, e)
]

-- One of the two paths ends at `k`, or they differ there.
abbrev pub Parted : ℕ → List ℕ → List ℕ → Type 0
Parted k xs ys = (drop k xs ≡ []) ⊎ (drop k ys ≡ []) ⊎ (get_elem? xs k ≢ get_elem? ys k)

some-injective : {a b : ℕ} → some a ≡ some b → a ≡ b
some-injective h = cc h

Parted-if :
    (b : Bool) (x y : ℕ) (xs ys : List ℕ) (k : ℕ)
    → (x == y) ≡ b
    → Parted k xs ys
    → Parted (if b then suc k else 0) (x ∷ xs) (y ∷ ys)
Parted-if true x y xs ys k e h = h
Parted-if false x y xs ys k e h = inr (inr λ p. ground (arith, e, some-injective p))

matching-Parted : (xs ys : List ℕ) → Parted (matching xs ys) xs ys
unfolding matching
matching-Parted [] ys = inl refl
matching-Parted (x ∷ xs) [] = inr (inl refl)
matching-Parted (x ∷ xs) (y ∷ ys) =
    Parted-if (x == y) x y xs ys (matching xs ys) refl (matching-Parted xs ys)

-- The length that is returned is the one of the longest common prefix: the two paths agree that far, and
-- there one of them ends or they differ.
pub common_prefix_len_longest :
    (a b : Nibbles)
    → (take (common_prefix_len a b) a.items ≡ take (common_prefix_len a b) b.items)
      × Parted (common_prefix_len a b) a.items b.items
unfolding common_prefix_len
common_prefix_len_longest a b = (take-matching a.items b.items, matching-Parted a.items b.items)
