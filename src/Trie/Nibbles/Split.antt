-- ===== src/Trie/Nibbles/Split.antt =====
-- crates/trie/src/nibbles.rs: a path that starts with another, and where two paths part.
use ethereum_rust.Base.{
  ℕ, suc, ◌<◌, ◌≡◌, ◌≢◌, ◌⊎◌, refl, sym, ap, ◌∙◌, subst, false, List, [], ◌∷◌, ◌++◌, arith, ◌==◌,
  ==_iff, ==_refl, Bool-cases, inl, inr, length, take, drop, length-append, All,
}
use ethereum_rust.Trie.Nibbles.{matching}

-- The nibbles of a path are below 16.
abbrev pub IsPath : List ℕ → Type 0
IsPath = All (λ n. n < 16)

no_length : (xs : List ℕ) → length xs ≡ 0 → xs ≡ []
no_length [] h = refl
no_length (x ∷ xs) h = absurd (omega (arith, h))

pub matching-append : (p r : List ℕ) → matching p (p ++ r) ≡ length p
unfolding matching
matching-append [] r = refl
matching-append (n ∷ p) r = rw (==_refl n, matching-append p r) refl

pub append-cases :
    (p q : List ℕ) → ((r : List ℕ) × (q ≡ p ++ r)) ⊎ ((matching p q == length p) ≡ false)
unfolding matching
append-cases [] q = inl (q, refl)
append-cases (n ∷ p) [] = inr (ground arith)
append-cases (n ∷ p) (m ∷ q) = elim (Bool-cases (n == m)) [
  | inl e ↦ elim (append-cases p q) [
    | inl (r, h) ↦ inl (r, ground (arith, e, h))
    | inr h ↦ inr (rw e (ground (arith, h)))
  ]
  | inr e ↦ inr (rw e (ground arith))
]

pub append-injective : (p a b : List ℕ) → p ++ a ≡ p ++ b → a ≡ b
append-injective [] a b h = h
append-injective (n ∷ p) a b h = append-injective p a b (cc h)

pub IsPath-drop : (p r : List ℕ) → IsPath (p ++ r) → IsPath r
IsPath-drop [] r h = h
IsPath-drop (n ∷ p) r h = IsPath-drop p r h.1

pub IsPath-take : (p r : List ℕ) → IsPath (p ++ r) → IsPath p
IsPath-take [] r h = tt
IsPath-take (n ∷ p) r h = (h.0, IsPath-take p r h.1)

pub IsPath-append : (p r : List ℕ) → IsPath p → IsPath r → IsPath (p ++ r)
IsPath-append [] r h k = k
IsPath-append (n ∷ p) r h k = (h.0, IsPath-append p r h.1 k)

-- The first nibbles of what is left of two paths are not both there and equal.
abbrev pub Apart : List ℕ → List ℕ → Type 0
Apart [] b = Unit
Apart (n ∷ a) [] = Unit
Apart (n ∷ a) (m ∷ b) = n ≢ m

-- Two paths after their longest common prefix.
pub record Parting (xs ys : List ℕ) : Type 0 where
  pub prefix : List ℕ
  pub left : List ℕ
  pub right : List ℕ
  pub left_is : xs ≡ prefix ++ left
  pub right_is : ys ≡ prefix ++ right
  pub apart : Apart left right
  pub takes : take (matching xs ys) xs ≡ prefix
  pub drops_left : drop (matching xs ys) xs ≡ left
  pub drops_right : drop (matching xs ys) ys ≡ right
  pub measured : matching xs ys ≡ length prefix

==_false : (n m : ℕ) → (n == m) ≡ false → n ≢ m
==_false n m h e = ground (arith, h, e)

Parting-cons : (n : ℕ) (xs ys : List ℕ) → Parting xs ys → Parting (n ∷ xs) (n ∷ ys)
unfolding matching
Parting-cons n xs ys c = record {
  prefix = n ∷ c.prefix;
  left = c.left;
  right = c.right;
  left_is = ap (◌∷◌ n) c.left_is;
  right_is = ap (◌∷◌ n) c.right_is;
  apart = c.apart;
  takes = rw (==_refl n) (ap (◌∷◌ n) c.takes);
  drops_left = rw (==_refl n) c.drops_left;
  drops_right = rw (==_refl n) c.drops_right;
  measured = rw (==_refl n) (ap suc c.measured);
}

pub parting : (xs ys : List ℕ) → Parting xs ys
unfolding matching
parting [] ys = record {
  prefix = [];
  left = [];
  right = ys;
  left_is = refl;
  right_is = refl;
  apart = tt;
  takes = refl;
  drops_left = refl;
  drops_right = refl;
  measured = refl;
}
parting (x ∷ xs) [] = record {
  prefix = [];
  left = x ∷ xs;
  right = [];
  left_is = refl;
  right_is = refl;
  apart = tt;
  takes = refl;
  drops_left = refl;
  drops_right = refl;
  measured = refl;
}
parting (x ∷ xs) (y ∷ ys) = elim (Bool-cases (x == y)) [
  | inl e ↦
      subst (λ z. Parting (x ∷ xs) (z ∷ ys)) ((==_iff x y).0 e)
        (Parting-cons x xs ys (parting xs ys))
  | inr e ↦ record {
    prefix = [];
    left = x ∷ xs;
    right = y ∷ ys;
    left_is = refl;
    right_is = refl;
    apart = ==_false x y e;
    takes = rw e refl;
    drops_left = rw e refl;
    drops_right = rw e refl;
    measured = rw e refl;
  }
]

-- A path that the other does not start with has something left.
pub Parting-left :
    (xs ys : List ℕ) (t : Parting xs ys) → (matching xs ys == length xs) ≡ false → t.left ≢ []
Parting-left xs ys t h e =
    ground (arith, h, t.measured, ap length t.left_is, length-append t.prefix t.left, ap length e)

-- Two paths that agree to their ends are the same.
pub Parting-equal :
    (xs ys : List ℕ) (t : Parting xs ys)
    → matching xs ys ≡ length xs
    → matching xs ys ≡ length ys
    → ys ≡ xs
Parting-equal xs ys t h g =
    t.right_is
    ∙ ap (◌++◌ t.prefix) (
        no_length t.right
          (omega (arith, g, t.measured, ap length t.right_is, length-append t.prefix t.right))
        ∙ sym (
            no_length t.left
              (omega (arith, h, t.measured, ap length t.left_is, length-append t.prefix t.left))))
    ∙ sym t.left_is
