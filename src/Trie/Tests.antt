-- ===== src/Trie/Tests.antt =====
-- The tests of crates/trie/src/nibbles.rs, and the theorems at concrete inputs.
use ethereum_rust.Base.{◌≡◌, refl, true, [], ◌∷◌, some}
use ethereum_rust.Trie.Nibbles.{Nibbles, new, pair, encode_compact, pack, pack_odd}

abbrev four : Nibbles
four = new (0xa ∷ 0xb ∷ 0xc ∷ 0xd ∷ [])

abbrev three : Nibbles
three = new (1 ∷ 2 ∷ 3 ∷ [])

encode_odd_leaf : encode_compact three true ≡ some (0x31 ∷ 0x23 ∷ [])
unfolding encode_compact pack_odd pack pair
encode_odd_leaf = refl

abbrev left : Nibbles
left = new (1 ∷ 2 ∷ 3 ∷ 4 ∷ [])

abbrev right : Nibbles
right = new (1 ∷ 2 ∷ 3 ∷ 6 ∷ [])
