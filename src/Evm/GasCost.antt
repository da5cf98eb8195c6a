-- ===== src/Evm/GasCost.antt =====
-- crates/evm/src/gas.rs: `GasCost`, the constants that the interpreter charges and the costs that
-- grow with a size. `none` is a panic: a size over 64 bits, or one that overflows when it is rounded up.
use ethereum_rust.Base.{ℕ, ◌+◌, ◌/◌, ◌^◌, Option, none, some, ltb, if◌then◌else◌}
use ethereum_rust.Evm.Gas.{saturating_add, saturating_mul}
use ethereum_rust.Evm.Library.{Library}

abbrev pub base : ℕ
base = 2

abbrev pub verylow : ℕ
verylow = 3

abbrev pub low : ℕ
low = 5

abbrev pub mid : ℕ
mid = 8

abbrev pub high : ℕ
high = 10

abbrev pub balance : ℕ
balance = 2600

abbrev pub sload : ℕ
sload = 2100

abbrev pub jumpdest : ℕ
jumpdest = 1

abbrev pub sset : ℕ
sset = 20000

abbrev pub exp : ℕ
exp = 10

abbrev pub expbyte : ℕ
expbyte = 50

abbrev pub memory : ℕ
memory = 3

abbrev pub log : ℕ
log = 375

abbrev pub logdata : ℕ
logdata = 8

abbrev pub logtopic : ℕ
logtopic = 375

abbrev pub keccak256 : ℕ
keccak256 = 30

abbrev pub keccak256word : ℕ
keccak256word = 6

abbrev pub copy : ℕ
copy = 3

abbrev pub blockhash : ℕ
blockhash = 20

abbrev pub extcodesize : ℕ
extcodesize = 2600

abbrev pub extcodecopy : ℕ
extcodecopy = 2600

abbrev pub extcodehash : ℕ
extcodehash = 2600

abbrev pub chainid : ℕ
chainid = 2

abbrev pub selfbalance : ℕ
selfbalance = 5

abbrev pub basefee : ℕ
basefee = 2

-- `(size + 31) / 32` on `u64`
unfoldable pub words_of : ℕ → Option ℕ
words_of size = if ltb (size + 31) (2 ^ 64) then some ((size + 31) / 32) else none

module _ (lib : Library) where
  -- `as_u64`, then the cost of so many words.
  unfoldable pub per_word : ℕ → (ℕ → ℕ) → Option ℕ
  unfolding words_of
  per_word size cost = elim (lib.as_u64 size) [
    | none ↦ none
    | some n ↦ elim (words_of n) [ none ↦ none | some words ↦ some (cost words) ]
  ]

  unfoldable pub memory_gas_cost : ℕ → Option ℕ
  unfolding per_word
  memory_gas_cost size =
      per_word size
        λ words. saturating_add (saturating_mul words memory) (saturating_mul words words / 512)

  unfoldable pub exp_gas_cost : ℕ → ℕ
  exp_gas_cost exponent = saturating_add exp (saturating_mul expbyte ((lib.bits exponent + 7) / 8))

  unfoldable pub keccak256_gas_cost : ℕ → Option ℕ
  unfolding per_word
  keccak256_gas_cost size =
      per_word size λ words. saturating_add keccak256 (saturating_mul keccak256word words)

  unfoldable pub copy_gas_cost : ℕ → Option ℕ
  unfolding per_word
  copy_gas_cost size = per_word size λ words. saturating_mul copy words

  unfoldable pub log_gas_cost : ℕ → ℕ → Option ℕ
  log_gas_cost topic_count size = elim (lib.as_u64 size) [
    | none ↦ none
    | some n ↦ some (
        saturating_add (saturating_add log (saturating_mul logtopic topic_count))
          (saturating_mul logdata n))
  ]
