-- ===== src/Consensus/Validators/Tests.antt =====
-- The tests of crates/consensus/src/eip7251.rs, and the theorems at concrete inputs.
use ethereum_rust.Base.{
  ℕ, ◌+◌, ◌-◌, ◌≡◌, refl, false, [], ◌∷◌, some, arith, get_elem?, if◌then◌else◌, ltb,
}
use ethereum_rust.Base.Keys.{same}
use ethereum_rust.Base.Outcome.{ok}
use ethereum_rust.Base.Result
use ethereum_rust.Consensus.Validators.{
  Validator, is_compounding, get_max_effective_balance, consolidate_balance, add_balance,
  initiate_exit,
}
use ethereum_rust.Consensus.Validators.Balances.{
  total, IsCapped, IsSettled, consolidate_balance-total, add_balance-total,
}
use ethereum_rust.Consensus.Validators.Registry.{
  ValidatorRegistry, ConsolidationRequest, process, position,
}
use ethereum_rust.Consensus.Validators.Sums.{sum, process_doubles}

-- A validator with 32 ETH, which is its maximum with an Eth1 credential, and 5 wei pending.
abbrev validator_with : ℕ → ℕ → Validator
validator_with key credential = record {
  pubkey = key ∷ [];
  credential = credential;
  credential_rest = [];
  effective_balance = 32000000000000000000;
  slashed = false;
  activation_eligibility_epoch = 0;
  activation_epoch = 0;
  exit_epoch = 100;
  withdrawable_epoch = 200;
  pending_balance = 5;
}

abbrev eth1_validator : Validator
eth1_validator = validator_with 1 1

consolidate_balance-total_example :
    (v' : Validator) × (consolidate_balance eth1_validator ≡ Result.ok (5, v'))
    × (total v' ≡ 32000000000000000005)
    × IsCapped v'
    × IsSettled v'
    × (v'.credential ≡ 1)
consolidate_balance-total_example = consolidate_balance-total eth1_validator (omega arith)

add_balance-total_example :
    (v' : Validator) × (add_balance 7 eth1_validator ≡ Result.ok v')
    × IsCapped v'
    × (total v' ≡ (
        if ltb (get_max_effective_balance eth1_validator) 32000000000000000007
        then 32000000000000000007
        else 32000000000000000012))
    × (v'.pending_balance ≡ (
        if ltb (get_max_effective_balance eth1_validator) 32000000000000000007
        then 32000000000000000007 - get_max_effective_balance eth1_validator
        else 5))
    × (get_max_effective_balance v' ≡ get_max_effective_balance eth1_validator)
add_balance-total_example = add_balance-total 7 eth1_validator (omega arith)

abbrev registry : ValidatorRegistry
registry = record {
  validators = validator_with 1 1 ∷ validator_with 2 2 ∷ [];
  balances = 32000000000000000000 ∷ 40000000000000000000 ∷ [];
}

abbrev consolidation : ConsolidationRequest
consolidation = record { source_address = []; source_pubkey = 1 ∷ []; target_pubkey = 2 ∷ [] }

process_doubles_example :
    (r' : ValidatorRegistry) × (process consolidation registry ≡ ok tt r')
    × (get_elem? r'.balances 0 ≡ some 32000000000000000000)
    × (get_elem? r'.balances 1 ≡ some 72000000000000000000)
    × (sum r'.balances ≡ 72000000000000000000 + 32000000000000000000)
unfolding position same initiate_exit is_compounding
process_doubles_example =
    process_doubles consolidation registry 0 1 32000000000000000000 40000000000000000000
      (validator_with 1 1) (validator_with 2 2) (omega arith) refl refl refl refl refl refl refl
      (omega arith) (omega arith)
