-- ===== src/Trie/Nibbles/Bytes.antt =====
-- crates/trie/src/nibbles.rs: `from_bytes` and `to_bytes`.
use Prim.Native.Nat.{bit_or}
use ethereum_rust.Base.{
  ℕ, ◌+◌, ◌*◌, ◌/◌, ◌%◌, ◌<◌, ◌≡◌, refl, ap, subst, ◌∙◌, List, [], ◌∷◌, Option, some, arith, length,
  All, Option-cases, inl, inr,
}
use ethereum_rust.Base.Bytes.{IsByte}
use ethereum_rust.Trie.Bits.{bit_or_nibble}
use ethereum_rust.Trie.Nibbles.{Nibbles, new, pair, spread, from_bytes, join, to_bytes}

abbrev pub IsNibble : ℕ → Type 0
IsNibble n = n < 16

pub pair_adds : (a b : ℕ) → IsNibble a → IsNibble b → pair a b ≡ a * 16 + b
unfolding pair
pair_adds a b h k = ap (λ x. bit_or x b) (omega arith) ∙ bit_or_nibble a b h k

pub length-spread : (bytes : List ℕ) → length (spread bytes) ≡ 2 * length bytes
unfolding spread
length-spread [] = refl
length-spread (b ∷ bytes) = omega (arith, length-spread bytes)

pub spread-IsNibble : (bytes : List ℕ) → All IsByte bytes → All IsNibble (spread bytes)
unfolding spread
spread-IsNibble [] h = tt
spread-IsNibble (b ∷ bytes) (h, k) = (omega arith, (omega arith, spread-IsNibble bytes k))

pair_splits : (b : ℕ) → IsByte b → pair (b / 16) (b % 16) ≡ b
pair_splits b h = pair_adds (b / 16) (b % 16) (omega arith) (omega arith) ∙ omega arith

join-spread : (bytes : List ℕ) → All IsByte bytes → join (spread bytes) ≡ some bytes
unfolding join spread
join-spread [] h = refl
join-spread (b ∷ bytes) (h, k) = rw (join-spread bytes k, pair_splits b h) refl

join_even :
    (items : List ℕ) (r : Option (List ℕ))
    → length items % 2 ≡ 0
    → join items ≡ r
    → to_bytes (new items) ≡ r
unfolding to_bytes
join_even items r h k = ground (arith, h, k)

-- A byte string is what `to_bytes` puts together from its nibbles.
pub to_bytes-from_bytes :
    (bytes : List ℕ) → All IsByte bytes → to_bytes (from_bytes bytes) ≡ some bytes
unfolding from_bytes
to_bytes-from_bytes bytes h =
    join_even (spread bytes) (some bytes) (omega (arith, length-spread bytes)) (join-spread bytes h)

pub two_heads : {a b c d : ℕ} {rest : List ℕ} → a ≡ c → b ≡ d → a ∷ b ∷ rest ≡ c ∷ d ∷ rest
two_heads h k = cc

spread-join :
    (items bytes : List ℕ) → All IsNibble items → join items ≡ some bytes → spread bytes ≡ items
unfolding join spread
spread-join [] bytes h e = subst (λ bs. spread bs ≡ []) {x = []} (cc e) refl
spread-join (a ∷ []) bytes h e = cc
spread-join (a ∷ b ∷ rest) bytes (h, (k, l)) e = elim (Option-cases (join rest)) [
  | inl none_left ↦ absurd (ground (arith, none_left, e))
  | inr (tail, f) ↦
      let q : pair a b ∷ tail ≡ bytes = ground (arith, f, e) in
      subst (λ bs. spread bs ≡ a ∷ b ∷ rest) q
        (rw (spread-join rest tail l f, pair_adds a b h k) (two_heads (omega arith) (omega arith)))
]

-- Nibbles that `to_bytes` accepts are the nibbles of the bytes that it returns.
pub from_bytes-to_bytes :
    (n : Nibbles) (bytes : List ℕ)
    → All IsNibble n.items
    → to_bytes n ≡ some bytes
    → from_bytes bytes ≡ n
unfolding from_bytes to_bytes
from_bytes-to_bytes n bytes h e = ap new (spread-join n.items bytes h (ground (arith, e)))
