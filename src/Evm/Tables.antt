-- ===== src/Evm/Tables.antt =====
-- crates/evm/src/opcodes.rs: the bytes of the opcodes.
use ethereum_rust.Base.{
  ℕ, ◌<◌, ◌≡◌, refl, subst, Bool, true, Option, none, some, ◌==◌, ==_iff, every, every_below,
}
use ethereum_rust.Evm.Opcode.{Opcode, from_u8, to_u8, find}

agrees : ℕ → Option Opcode → Bool
agrees b none = true
agrees b (some op) = to_u8 op == b

all_agree : every (λ b. agrees b (from_u8 b)) 256 ≡ true
unfolding agrees from_u8 to_u8 find
all_agree = refl

agreed : (b : ℕ) (op : Opcode) → agrees b (some op) ≡ true → to_u8 op ≡ b
unfolding agrees
agreed b op h = (==_iff (to_u8 op) b).0 h

-- The opcode that `from_u8` finds for a byte is the one with this byte as its code: no two bytes stand
-- for one opcode, and no opcode is found under another's code.
pub to_u8-from_u8 : (b : ℕ) (op : Opcode) → b < 256 → from_u8 b ≡ some op → to_u8 op ≡ b
to_u8-from_u8 b op h e =
    agreed b op
      (subst (λ o. agrees b o ≡ true) e (every_below (λ n. agrees n (from_u8 n)) 256 all_agree b h))
