-- ===== src/Trie/Bits.antt =====
-- The bits of a byte that is put together from two nibbles.
use Prim.Native.Nat.{bit_or}
use ethereum_rust.Base.{ℕ, ◌+◌, ◌*◌, ◌<◌, ◌≡◌, refl, Bool, true, ◌==◌, ==_iff, every, every_below}

abbrev or_adds : ℕ → Bool
or_adds a = every (λ b. bit_or (a * 16) b == (a * 16 + b)) 16

or_adds_all : every or_adds 16 ≡ true
or_adds_all = refl

pub bit_or_nibble : (a b : ℕ) → a < 16 → b < 16 → bit_or (a * 16) b ≡ a * 16 + b
bit_or_nibble a b h k = (==_iff (bit_or (a * 16) b) (a * 16 + b)).0 (
    every_below (λ b. bit_or (a * 16) b == (a * 16 + b)) 16 (every_below or_adds 16 or_adds_all a h)
      b k)
