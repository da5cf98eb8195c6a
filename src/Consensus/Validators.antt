-- ===== src/Consensus/Validators.antt =====
-- crates/consensus/src/eip7251.rs: validators with a larger maximal balance, and their registry. A sum of `U256`
-- that overflows panics.
pub mod Balances
pub mod Registry
pub mod Sums
mod Tests
use ethereum_rust.Base.{
  ℕ, zero, suc, ◌+◌, ◌-◌, ◌*◌, ◌^◌, Bool, true, false, ◌&&◌, not, List, [], ◌∷◌, ◌++◌, Option, none,
  some, ltb, leb, ◌==◌, if◌then◌else◌, length, get_elem?, set,
}
use ethereum_rust.Base.Keys.{same}
use ethereum_rust.Base.Result.{Result, ok, err, panic, or_panic, ok_or, ◌>>=◌}

pub data Eip7251Error : Type 0 where
  below_minimum_balance exceeds_maximum_balance invalid_withdrawal_credential : Eip7251Error
  validator_not_found : Eip7251Error

abbrev pub min_activation_balance : ℕ
min_activation_balance = 32000000000000000000

-- The source writes 2048 ETH as a literal of `u64`, which has no room for it.
abbrev pub max_effective_balance : ℕ
max_effective_balance = 2048000000000000000000

abbrev pub old_max_effective_balance : ℕ
old_max_effective_balance = 32000000000000000000

pub data WithdrawalCredentialType : Type 0 where
  bls eth1 compounding : WithdrawalCredentialType

abbrev pub from_byte : ℕ → Option WithdrawalCredentialType
from_byte byte =
    if byte == 0
    then some bls
    else if byte == 1
    then some eth1
    else if byte == 2
    then some compounding
    else none

abbrev pub to_byte : WithdrawalCredentialType → ℕ
to_byte bls = 0
to_byte eth1 = 1
to_byte compounding = 2

-- `withdrawal_credentials` is the first of its 32 bytes and the others.
pub record Validator : Type 0 where
  pub pubkey : List ℕ
  pub credential : ℕ
  pub credential_rest : List ℕ
  pub effective_balance : ℕ
  pub slashed : Bool
  pub activation_eligibility_epoch : ℕ
  pub activation_epoch : ℕ
  pub exit_epoch : ℕ
  pub withdrawable_epoch : ℕ
  pub pending_balance : ℕ

abbrev pub far_epoch : ℕ
far_epoch = 2 ^ 64 - 1

abbrev pub limit_of : WithdrawalCredentialType → ℕ
limit_of compounding = max_effective_balance
limit_of bls = old_max_effective_balance
limit_of eth1 = old_max_effective_balance

abbrev validator_of :
    List ℕ → ℕ → List ℕ → ℕ → Option WithdrawalCredentialType → Result Eip7251Error Validator
validator_of pubkey credential rest initial_balance none = err invalid_withdrawal_credential
validator_of pubkey credential rest initial_balance (some type) = ok (record {
  pubkey = pubkey;
  credential = credential;
  credential_rest = rest;
  effective_balance =
      if ltb (limit_of type) initial_balance then limit_of type else initial_balance;
  slashed = false;
  activation_eligibility_epoch = far_epoch;
  activation_epoch = far_epoch;
  exit_epoch = far_epoch;
  withdrawable_epoch = far_epoch;
  pending_balance = 0;
})

unfoldable pub new_validator : List ℕ → ℕ → List ℕ → ℕ → Result Eip7251Error Validator
new_validator pubkey credential rest initial_balance =
    if ltb initial_balance min_activation_balance
    then err below_minimum_balance
    else validator_of pubkey credential rest initial_balance (from_byte credential)

abbrev compounds : Option WithdrawalCredentialType → Bool
compounds (some compounding) = true
compounds (some bls) = false
compounds (some eth1) = false
compounds none = false

abbrev is_eth1 : Option WithdrawalCredentialType → Bool
is_eth1 (some eth1) = true
is_eth1 (some bls) = false
is_eth1 (some compounding) = false
is_eth1 none = false

unfoldable pub is_compounding : Validator → Bool
is_compounding v = compounds (from_byte v.credential)

unfoldable pub get_max_effective_balance : Validator → ℕ
get_max_effective_balance v =
    if is_compounding v then max_effective_balance else old_max_effective_balance

-- `a + b` on `U256`
unfoldable pub add_u256 : ℕ → ℕ → Result Eip7251Error ℕ
add_u256 a b = if ltb (a + b) (2 ^ 256) then ok (a + b) else panic

-- The two branches of `add_balance`; the pending balance is overwritten.
unfoldable pub cap_added : ℕ → ℕ → Validator → Validator
cap_added new_balance max_effective v =
    if ltb max_effective new_balance
    then record v {
      effective_balance = max_effective;
      pending_balance = new_balance - max_effective;
    }
    else record v { effective_balance = new_balance }

unfoldable pub add_balance : ℕ → Validator → Result Eip7251Error Validator
add_balance amount v = add_u256 v.effective_balance amount >>= λ new_balance.
    ok (cap_added new_balance (get_max_effective_balance v) v)

unfoldable pub cap_consolidated : ℕ → ℕ → Validator → Validator
cap_consolidated new_effective max_effective v =
    if ltb max_effective new_effective
    then record v {
      effective_balance = max_effective;
      pending_balance = new_effective - max_effective;
    }
    else record v { effective_balance = new_effective; pending_balance = 0 }

-- The amount that was pending, and the validator.
unfoldable pub consolidate_balance : Validator → Result Eip7251Error (ℕ × Validator)
consolidate_balance v = add_u256 v.effective_balance v.pending_balance >>= λ new_effective.
    ok (v.pending_balance, cap_consolidated new_effective (get_max_effective_balance v) v)

unfoldable pub switch_to_compounding_validator : Validator → Result Eip7251Error Validator
switch_to_compounding_validator v =
    if is_eth1 (from_byte v.credential)
    then (consolidate_balance (record v { credential = to_byte compounding }) >>= λ (amount, v').
        ok v')
    else err invalid_withdrawal_credential

unfoldable pub is_active : ℕ → Validator → Bool
is_active epoch v = leb v.activation_epoch epoch && ltb epoch v.exit_epoch

unfoldable pub is_eligible_for_activation : ℕ → Validator → Bool
is_eligible_for_activation finalized_epoch v =
    leb v.activation_eligibility_epoch finalized_epoch && v.activation_epoch == far_epoch

unfoldable pub initiate_exit : ℕ → Validator → Validator
initiate_exit current_epoch v =
    if v.exit_epoch == far_epoch then record v { exit_epoch = current_epoch } else v
