-- ===== src/Trie/Nibbles/Compact.antt =====
-- crates/trie/src/nibbles.rs: `encode_compact` and `decode_compact`.
use Prim.Native.Nat.{bit_or}
use ethereum_rust.Base.{
  ℕ, ◌+◌, ◌%◌, ◌<◌, ◌≡◌, refl, ap, ◌∙◌, Bool, true, false, List, [], ◌∷◌, ◌++◌, Option, none, some,
  arith, length, All,
}
use ethereum_rust.Trie.Bits.{bit_or_nibble}
use ethereum_rust.Trie.Nibbles.{
  Nibbles, new, spread, pack, pack_odd, flags_of, drop_zero, encode_compact, decode_flagged,
  decode_compact,
}
use ethereum_rust.Trie.Nibbles.Bytes.{IsNibble, pair_adds, two_heads}

spread-pack :
    (items : List ℕ) → All IsNibble items → length items % 2 ≡ 0 → spread (pack items) ≡ items
unfolding spread pack
spread-pack [] h e = refl
spread-pack (a ∷ []) h e = absurd (omega arith)
spread-pack (a ∷ b ∷ rest) (h, (k, l)) e =
    rw (spread-pack rest l (omega (arith, e)), pair_adds a b h k)
      (two_heads (omega arith) (omega arith))

-- The reading of what is written.
abbrev pub decoded : Option (List ℕ) → Option (Nibbles × Bool)
decoded none = none
decoded (some encoded) = decode_compact encoded

first_odd :
    (is_leaf : Bool) (a : ℕ)
    → IsNibble a
    → bit_or (flags_of is_leaf true) a ≡ flags_of is_leaf true + a
first_odd true a h = bit_or_nibble 3 a (omega arith) h
first_odd false a h = bit_or_nibble 1 a (omega arith) h

decode_odd :
    (is_leaf : Bool) (a : ℕ) (rest : List ℕ)
    → IsNibble a
    → decode_flagged (flags_of is_leaf true + a) rest ≡ (new (a ∷ spread rest), is_leaf)
unfolding decode_flagged
decode_odd true a rest h = ground (arith, h)
decode_odd false a rest h = ground (arith, h)

decode_even :
    (is_leaf : Bool) (rest : List ℕ)
    → decode_flagged (flags_of is_leaf false) rest ≡ (new (drop_zero (spread rest)), is_leaf)
unfolding decode_flagged
decode_even true rest = refl
decode_even false rest = refl

odd_form :
    (n : Nibbles) (is_leaf : Bool) (a : ℕ) (rest : List ℕ)
    → n.items ≡ a ∷ rest
    → length n.items % 2 ≡ 1
    → encode_compact n is_leaf ≡ some (bit_or (flags_of is_leaf true) a ∷ pack rest)
unfolding encode_compact pack_odd
odd_form n is_leaf a rest e h = ground (arith, e, h)

even_form :
    (n : Nibbles) (is_leaf : Bool)
    → length n.items % 2 ≡ 0
    → encode_compact n is_leaf ≡ some (flags_of is_leaf false ∷ pack n.items)
unfolding encode_compact
even_form n is_leaf h = ground (arith, h)

drop_zero-append :
    (items : List ℕ) (a : ℕ) → 0 < a → drop_zero (items ++ (a ∷ [])) ≡ items ++ (a ∷ [])
unfolding drop_zero
drop_zero-append [] a h = ground (arith, h)
drop_zero-append (x ∷ []) a h = ground (arith, h)
drop_zero-append (x ∷ y ∷ rest) a h = ap (◌∷◌ x) (drop_zero-append (y ∷ rest) a h)

drop_zero-append_zero : (items : List ℕ) → drop_zero (items ++ (0 ∷ [])) ≡ items
unfolding drop_zero
drop_zero-append_zero [] = refl
drop_zero-append_zero (x ∷ []) = refl
drop_zero-append_zero (x ∷ y ∷ rest) = ap (◌∷◌ x) (drop_zero-append_zero (y ∷ rest))

odd_read :
    (items : List ℕ) (is_leaf : Bool)
    → All IsNibble items
    → length items % 2 ≡ 1
    → decoded (encode_compact (new items) is_leaf) ≡ some (new items, is_leaf)
unfolding decode_compact
odd_read [] is_leaf h e = absurd (omega (arith, e))
odd_read (a ∷ rest) is_leaf (h, k) e =
    ap decoded (
      odd_form (new (a ∷ rest)) is_leaf a rest refl e
      ∙ ap (λ f. some (f ∷ pack rest)) (first_odd is_leaf a h))
    ∙ ap some (decode_odd is_leaf a (pack rest) h)
    ∙ ap (λ (xs : List ℕ). some (new (a ∷ xs), is_leaf)) (spread-pack rest k (omega (arith, e)))

-- A path of an odd length is read back from its compact form, and so is the kind of the node.
pub decode_compact-encode_compact_odd :
    (n : Nibbles) (is_leaf : Bool)
    → All IsNibble n.items
    → length n.items % 2 ≡ 1
    → decoded (encode_compact n is_leaf) ≡ some (n, is_leaf)
decode_compact-encode_compact_odd n is_leaf h e = odd_read n.items is_leaf h e

even_read :
    (n : Nibbles) (is_leaf : Bool)
    → All IsNibble n.items
    → length n.items % 2 ≡ 0
    → decoded (encode_compact n is_leaf) ≡ some (new (drop_zero n.items), is_leaf)
unfolding decode_compact
even_read n is_leaf h e =
    ap decoded (even_form n is_leaf e)
    ∙ ap some (decode_even is_leaf (pack n.items))
    ∙ ap (λ (items : List ℕ). some (new (drop_zero items), is_leaf)) (spread-pack n.items h e)

-- A path of an even length that ends in a nibble other than 0 is read back from its compact form, and so
-- is the kind of the node.
pub decode_compact-encode_compact_even :
    (items : List ℕ) (a : ℕ) (is_leaf : Bool)
    → All IsNibble (items ++ (a ∷ []))
    → length (items ++ (a ∷ [])) % 2 ≡ 0
    → 0 < a
    → decoded (encode_compact (new (items ++ (a ∷ []))) is_leaf)
      ≡ some (new (items ++ (a ∷ [])), is_leaf)
decode_compact-encode_compact_even items a is_leaf h e k =
    even_read (new (items ++ (a ∷ []))) is_leaf h e
    ∙ ap (λ (xs : List ℕ). some (new xs, is_leaf)) (drop_zero-append items a k)

-- A path of an even length that ends in the nibble 0 loses that nibble: what is read back is shorter by
-- one.
pub decode_compact_loses_zero :
    (items : List ℕ) (is_leaf : Bool)
    → All IsNibble (items ++ (0 ∷ []))
    → length (items ++ (0 ∷ [])) % 2 ≡ 0
    → decoded (encode_compact (new (items ++ (0 ∷ []))) is_leaf) ≡ some (new items, is_leaf)
decode_compact_loses_zero items is_leaf h e =
    even_read (new (items ++ (0 ∷ []))) is_leaf h e
    ∙ ap (λ (xs : List ℕ). some (new xs, is_leaf)) (drop_zero-append_zero items)
