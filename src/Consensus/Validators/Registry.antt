-- ===== src/Consensus/Validators/Registry.antt =====
-- crates/consensus/src/eip7251.rs: `ValidatorRegistry` and `ConsolidationRequest`.
use ethereum_rust.Base.{
  ℕ, suc, ◌-◌, not, List, [], ◌∷◌, ◌++◌, Option, none, some, ltb, leb, if◌then◌else◌, length,
  get_elem?, set,
}
use ethereum_rust.Base.Keys.{same}
use ethereum_rust.Base.Outcome.{
  M, ok, err, panic, stuck, pure, fail, abort, ◌>>=◌, ◌>>◌, gets, modify, require,
}
use ethereum_rust.Base.Result
use ethereum_rust.Base.Result.{Result}
use ethereum_rust.Consensus.Validators.{
  Eip7251Error, validator_not_found, Validator, add_u256, add_balance, consolidate_balance,
  switch_to_compounding_validator, is_active, is_compounding, initiate_exit,
}

pub record ValidatorRegistry : Type 0 where
  pub validators : List Validator
  pub balances : List ℕ

abbrev pub new : ValidatorRegistry
new = record { validators = []; balances = [] }

abbrev pub Step : Type 0 → Type 0
Step = M ValidatorRegistry Eip7251Error

-- The result of a call on another value.
abbrev pub lift : {A : Type 0} → Result Eip7251Error A → Step A
lift (Result.ok a) r = ok a r
lift (Result.err e) r = err e r
lift Result.panic r = panic
lift Result.stuck r = stuck

-- `v[i]`, and `get(i)`
abbrev pub index : {A : Type 0} → Option A → Step A
index none = abort
index (some a) = pure a

abbrev pub found : {A : Type 0} → Option A → Step A
found none = fail validator_not_found
found (some a) = pure a

abbrev put_balance : ℕ → ℕ → Step (Unit {0})
put_balance i balance = modify λ r. record r { balances = set r.balances i balance }

abbrev put_validator : ℕ → Validator → Step (Unit {0})
put_validator i v = modify λ r. record r { validators = set r.validators i v }

unfoldable pub add_validator : Validator → ℕ → ValidatorRegistry → ℕ × ValidatorRegistry
add_validator v balance r = (
  length r.validators,
  record { validators = r.validators ++ (v ∷ []); balances = r.balances ++ (balance ∷ []) },
)

abbrev pub get_validator : ℕ → ValidatorRegistry → Option Validator
get_validator i r = get_elem? r.validators i

abbrev pub get_balance : ℕ → ValidatorRegistry → Option ℕ
get_balance i r = get_elem? r.balances i

unfoldable pub set_balance : ℕ → ℕ → Step (Unit {0})
set_balance i balance = do
  len ← gets λ r. length r.balances
  require (ltb i len) validator_not_found
  put_balance i balance

-- `if let Some(validator) = self.validators.get_mut(i) { validator.add_balance(delta)? }`
abbrev pub credit : ℕ → ℕ → Option Validator → Step (Unit {0})
credit i delta none = pure tt
credit i delta (some v) = do v' ← lift (add_balance delta v); put_validator i v'

unfoldable pub increase_balance : ℕ → ℕ → Step (Unit {0})
increase_balance i delta = do
  len ← gets λ r. length r.balances
  require (ltb i len) validator_not_found
  at ← gets λ r. get_elem? r.balances i
  balance ← index at
  sum ← lift (add_u256 balance delta)
  put_balance i sum
  v ← gets λ r. get_elem? r.validators i
  credit i delta v

abbrev pub lower : ℕ → ℕ → Option Validator → Step (Unit {0})
lower i balance none = pure tt
lower i balance (some v) =
    if ltb balance v.effective_balance
    then put_validator i (record v { effective_balance = balance })
    else pure tt

abbrev pub lowered : ℕ → ℕ → ℕ
lowered balance delta = if ltb balance delta then 0 else balance - delta

unfoldable pub decrease_balance : ℕ → ℕ → Step (Unit {0})
decrease_balance i delta = do
  len ← gets λ r. length r.balances
  require (ltb i len) validator_not_found
  at ← gets λ r. get_elem? r.balances i
  balance ← index at
  put_balance i (lowered balance delta)
  v ← gets λ r. get_elem? r.validators i
  lower i (lowered balance delta) v

unfoldable pub active_from : ℕ → ℕ → List Validator → List ℕ
active_from i epoch [] = []
active_from i epoch (v ∷ vs) =
    let rest = active_from (suc i) epoch vs in if is_active epoch v then i ∷ rest else rest

abbrev pub get_active_validator_indices : ℕ → ValidatorRegistry → List ℕ
get_active_validator_indices epoch r = active_from 0 epoch r.validators

-- `position(|v| v.pubkey == key)`
unfoldable pub position : List ℕ → List Validator → Option ℕ
position key [] = none
position key (v ∷ vs) =
    let later = position key vs in
    if same v.pubkey key then some 0 else elim later [ none ↦ none | some i ↦ some (suc i) ]

pub record ConsolidationRequest : Type 0 where
  pub source_address : List ℕ
  pub source_pubkey : List ℕ
  pub target_pubkey : List ℕ

abbrev pub compound : ℕ → Option Validator → Step (Unit {0})
compound i none = pure tt
compound i (some v) =
    if not (is_compounding v)
    then (do v' ← lift (switch_to_compounding_validator v); put_validator i v')
    else pure tt

-- The balance of the source is read, and not changed.
unfoldable pub process : ConsolidationRequest → Step (Unit {0})
process c = do
  from ← gets λ r. position c.source_pubkey r.validators
  source_index ← found from
  to ← gets λ r. position c.target_pubkey r.validators
  target_index ← found to
  at ← gets λ r. get_balance source_index r
  source_balance ← found at
  source ← gets λ r. get_elem? r.validators source_index
  v ← index source
  put_validator source_index (initiate_exit 0 v)
  increase_balance target_index source_balance
  target ← gets λ r. get_validator target_index r
  compound target_index target

-- The loop over the validators, with the number of deposits so far.
unfoldable pub deposits_from :
    ℕ → ℕ → ℕ → List Validator → Result Eip7251Error (List (ℕ × ℕ) × List Validator)
deposits_from max_deposits i count [] = Result.ok ([], [])
deposits_from max_deposits i count (v ∷ vs) =
    let kept =
      Result.◌>>=◌ (deposits_from max_deposits (suc i) count vs)
        (λ (done, vs'). Result.ok (done, v ∷ vs')) in
    let moved = Result.◌>>=◌ (consolidate_balance v) (λ (amount, v').
      if ltb 0 amount
      then Result.◌>>=◌ (deposits_from max_deposits (suc i) (suc count) vs)
          (λ (done, vs'). Result.ok ((i, amount) ∷ done, v' ∷ vs'))
      else Result.◌>>=◌ (deposits_from max_deposits (suc i) count vs)
          (λ (done, vs'). Result.ok (done, v' ∷ vs'))) in
    if leb max_deposits count
    then Result.ok ([], v ∷ vs)
    else if ltb 0 v.pending_balance
    then moved
    else kept

unfoldable pub process_pending_balance_deposits :
    ℕ → ValidatorRegistry → Result Eip7251Error (List (ℕ × ℕ) × ValidatorRegistry)
process_pending_balance_deposits max_deposits r =
    Result.◌>>=◌ (deposits_from max_deposits 0 0 r.validators)
      (λ (done, vs). Result.ok (done, record r { validators = vs }))

-- `fold` over the effective balances of the active validators.
unfoldable pub sum_active : ℕ → ℕ → List Validator → Result Eip7251Error ℕ
sum_active epoch acc [] = Result.ok acc
sum_active epoch acc (v ∷ vs) =
    let added = Result.◌>>=◌ (add_u256 acc v.effective_balance) (λ sum. sum_active epoch sum vs) in
    let skipped = sum_active epoch acc vs in if is_active epoch v then added else skipped

abbrev pub get_total_active_balance : ℕ → ValidatorRegistry → Result Eip7251Error ℕ
get_total_active_balance epoch r = sum_active epoch 0 r.validators
