-- ===== src/Trie/Nibbles.antt =====
-- crates/trie/src/nibbles.rs: a path as a sequence of half bytes, and its compact (hex prefix) form. A
-- nibble is a `u8`, which the type does not keep below 16. `none` is a panic, or
-- in `decode_compact` the error `InvalidNibbles`.
pub mod Bytes
pub mod Compact
pub mod Prefix
pub mod Split
use Prim.Native.Nat.{bit_or}
use ethereum_rust.Base.{
  ℕ, zero, suc, ◌+◌, ◌*◌, ◌/◌, ◌%◌, ◌<◌, ◌≡◌, Bool, true, false, List, [], ◌∷◌, ◌++◌, Option, none,
  some, ◌==◌, ltb, leb, if◌then◌else◌, length, take, drop, get_elem?,
}

pub record Nibbles : Type 0 where
  pub items : List ℕ

abbrev pub new : List ℕ → Nibbles
new items = record { items = items }

-- `(high << 4) | low` on `u8`
unfoldable pub pair : ℕ → ℕ → ℕ
pair high low = bit_or (high * 16 % 256) low

unfoldable pub spread : List ℕ → List ℕ
spread [] = []
spread (b ∷ bytes) = b / 16 ∷ b % 16 ∷ spread bytes

unfoldable pub from_bytes : List ℕ → Nibbles
from_bytes bytes = new (spread bytes)

-- The loop `(0..len).step_by(2)`; an index past the end panics.
unfoldable pub join : List ℕ → Option (List ℕ)
join [] = some []
join (a ∷ []) = none
join (a ∷ b ∷ rest) =
    let tail = join rest in elim tail [ none ↦ none | some bytes ↦ some (pair a b ∷ bytes) ]

unfoldable pub to_bytes : Nibbles → Option (List ℕ)
to_bytes n = if length n.items % 2 == 0 then join n.items else none

abbrev pub len : Nibbles → ℕ
len n = length n.items

abbrev pub get : Nibbles → ℕ → Option ℕ
get n index = get_elem? n.items index

-- `self.data[start..end]`
unfoldable pub slice : Nibbles → ℕ → ℕ → Option Nibbles
slice n start end =
    if ltb end start
    then none
    else if ltb (length n.items) end
    then none
    else some (new (take end (drop start n.items)))

unfoldable pub slice_from : Nibbles → ℕ → Option Nibbles
slice_from n start = if ltb (length n.items) start then none else some (new (drop start n.items))

unfoldable pub matching : List ℕ → List ℕ → ℕ
matching [] ys = 0
matching (x ∷ xs) [] = 0
matching (x ∷ xs) (y ∷ ys) = let rest = matching xs ys in if x == y then suc rest else 0

unfoldable pub common_prefix_len : Nibbles → Nibbles → ℕ
common_prefix_len a b = matching a.items b.items

unfoldable pub push : Nibbles → ℕ → Option Nibbles
push n nibble = if ltb nibble 16 then some (new (n.items ++ (nibble ∷ []))) else none

abbrev pub extend : Nibbles → Nibbles → Nibbles
extend n other = new (n.items ++ other.items)

-- The loop of `encode_compact`, where a missing second nibble is 0.
unfoldable pub pack : List ℕ → List ℕ
pack [] = []
pack (a ∷ []) = pair a 0 ∷ []
pack (a ∷ b ∷ rest) = pair a b ∷ pack rest

abbrev pub flags_of : Bool → Bool → ℕ
flags_of false false = 0x00
flags_of false true = 0x10
flags_of true false = 0x20
flags_of true true = 0x30

-- `flags | self.data[0]`, and the pairs from index 1 on.
unfoldable pub pack_odd : ℕ → List ℕ → Option (List ℕ)
pack_odd flags [] = none
pack_odd flags (first ∷ rest) = some (bit_or flags first ∷ pack rest)

unfoldable pub encode_compact : Nibbles → Bool → Option (List ℕ)
encode_compact n is_leaf =
    if length n.items % 2 == 1
    then pack_odd (flags_of is_leaf true) n.items
    else some (flags_of is_leaf false ∷ pack n.items)

-- `nibbles.pop()` if the last nibble is 0.
unfoldable pub drop_zero : List ℕ → List ℕ
drop_zero [] = []
drop_zero (a ∷ []) = if a == 0 then [] else a ∷ []
drop_zero (a ∷ b ∷ rest) = a ∷ drop_zero (b ∷ rest)

unfoldable pub decode_flagged : ℕ → List ℕ → Nibbles × Bool
decode_flagged flags rest =
    let is_leaf = flags / 32 % 2 == 1 in
    if flags / 16 % 2 == 1
    then (new (flags % 16 ∷ spread rest), is_leaf)
    else (new (drop_zero (spread rest)), is_leaf)

-- `none` is the error `InvalidNibbles`.
unfoldable pub decode_compact : List ℕ → Option (Nibbles × Bool)
decode_compact [] = none
decode_compact (flags ∷ rest) = some (decode_flagged flags rest)
