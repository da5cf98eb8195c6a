-- ===== src/Evm/Arithmetic.antt =====
-- crates/evm/src/interpreter.rs: two's complement arithmetic on 256 bits, and slices of byte strings.
use ethereum_rust.Base.{
  ℕ, ◌+◌, ◌-◌, ◌*◌, ◌%◌, ◌^◌, Bool, true, false, ◌&&◌, not, List, [], ◌++◌, Option, none, some, ltb,
  leb, ◌==◌, if◌then◌else◌, length, take, drop, replicate,
}
use ethereum_rust.Evm.Library.{Library}
use ethereum_rust.Evm.State.{or_zero}

abbrev pub u256_max : ℕ
u256_max = 2 ^ 256 - 1

abbrev pub of_bool : Bool → ℕ
of_bool b = if b then 1 else 0

-- `Address::from_slice(&bytes[12..])`: the low 20 bytes.
abbrev pub address_from_u256 : ℕ → ℕ
address_from_u256 value = value % 2 ^ 160

abbrev pub same : Bool → Bool → Bool
same true b = b
same false b = not b

unfoldable pub slice_at : List ℕ → Option ℕ → Option ℕ → Option (List ℕ)
slice_at bytes none n = none
slice_at bytes (some i) none = none
slice_at bytes (some i) (some n) =
    if leb (length bytes) i
    then some (replicate n 0)
    else if ltb (i + n) (2 ^ 64)
    then some (take n (drop i bytes ++ replicate n 0))
    else none

module _ (lib : Library) where
  unfoldable pub is_negative : ℕ → Bool
  is_negative value = lib.bit value 255

  unfoldable pub twos_complement : ℕ → ℕ
  twos_complement value = lib.overflowing_add (lib.complement value) 1

  -- The absolute value.
  unfoldable pub magnitude : ℕ → ℕ
  magnitude a = if is_negative a then twos_complement a else a

  unfoldable pub signed_div : ℕ → ℕ → ℕ
  signed_div a b =
      if b == 0
      then 0
      else (let result = lib.quotient (magnitude a) (magnitude b) in
          if same (is_negative a) (is_negative b) then result else twos_complement result)

  unfoldable pub signed_mod : ℕ → ℕ → ℕ
  signed_mod a b =
      if b == 0
      then 0
      else (let result = lib.remainder (magnitude a) (magnitude b) in
          if is_negative a && not (result == 0) then twos_complement result else result)

  -- `(1 << (bit_index + 1)) - 1` panics if the shift has left nothing.
  unfoldable pub sign_extend : ℕ → ℕ → Option ℕ
  sign_extend ext x =
      let bit_index = ext * 8 + 7 in
      let power = lib.shift_left 1 (bit_index + 1) in
      if leb 32 ext
      then some x
      else if power == 0
      then none
      else if lib.bit x bit_index
      then some (lib.bitor x (lib.complement (power - 1)))
      else some (lib.bitand x (power - 1))

  unfoldable pub arithmetic_shr : ℕ → ℕ → ℕ
  arithmetic_shr value shift =
      if leb 256 shift
      then if is_negative value then u256_max else 0
      else if is_negative value
      then lib.bitor (lib.shift_right value shift) (lib.shift_left u256_max (256 - shift))
      else lib.shift_right value shift

  unfoldable pub addmod : ℕ → ℕ → ℕ → ℕ
  addmod a b n =
      if n == 0
      then 0
      else or_zero (
          lib.narrow
            (lib.wide_remainder (lib.wide_overflowing_add (lib.full_mul a 1) (lib.full_mul b 1)) n))

  unfoldable pub mulmod : ℕ → ℕ → ℕ → ℕ
  mulmod a b n =
      if n == 0 then 0 else or_zero (lib.narrow (lib.wide_remainder (lib.full_mul a b) n))

  -- `size` bytes from `offset` on, with zeros past the end; `offset + size` is a sum of `usize`.
  unfoldable pub get_slice : List ℕ → ℕ → ℕ → Option (List ℕ)
  unfolding slice_at
  get_slice bytes offset size =
      if size == 0 then some [] else slice_at bytes (lib.as_usize offset) (lib.as_usize size)
