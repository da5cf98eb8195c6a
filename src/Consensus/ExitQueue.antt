-- ===== src/Consensus/ExitQueue.antt =====
-- crates/consensus/src/eip7002.rs: `ExitQueueManager`. A sum of `u64` that overflows panics.
pub mod Search
pub mod Added
pub mod Processed
mod Tests
use ethereum_rust.Base.{
  ℕ, zero, suc, ◌+◌, ◌^◌, Bool, true, false, List, [], ◌∷◌, ◌++◌, ltb, leb, ◌==◌, if◌then◌else◌,
  length,
}
use ethereum_rust.Base.Result.{Result, ok, err, panic, stuck, ◌>>=◌}

pub data Eip7002Error : Type 0 where
  invalid_pubkey invalid_signature : Eip7002Error
  insufficient_fee : ℕ → ℕ → Eip7002Error
  too_many_requests validator_not_found already_exited invalid_source_address : Eip7002Error

pub data ExitInitiator : Type 0 where
  validator execution_layer protocol : ExitInitiator

pub record ValidatorExit : Type 0 where
  pub validator_index : ℕ
  pub validator_pubkey : List ℕ
  pub exit_epoch : ℕ
  pub withdrawable_epoch : ℕ
  pub initiated_by : ExitInitiator

pub record ExitQueueManager : Type 0 where
  pub pending_exits : List ValidatorExit
  pub processed_exits : List ValidatorExit
  pub max_exits_per_epoch : ℕ

abbrev pub new : ℕ → ExitQueueManager
new max_exits_per_epoch = record {
  pending_exits = [];
  processed_exits = [];
  max_exits_per_epoch = max_exits_per_epoch;
}

-- `a + b` on `u64`
unfoldable pub add_u64 : {E : Type 0} → ℕ → ℕ → Result E ℕ
add_u64 a b = if ltb (a + b) (2 ^ 64) then ok (a + b) else panic

-- `any(|e| e.validator_index == index)`
unfoldable pub has_exit : ℕ → List ValidatorExit → Bool
has_exit index [] = false
has_exit index (e ∷ es) =
    let rest = has_exit index es in if e.validator_index == index then true else rest

-- The exits that are scheduled for an epoch.
unfoldable pub exits_in_epoch : ℕ → List ValidatorExit → ℕ
exits_in_epoch epoch [] = 0
exits_in_epoch epoch (e ∷ es) =
    let rest = exits_in_epoch epoch es in if e.exit_epoch == epoch then suc rest else rest

-- The `loop`, on fuel.
unfoldable pub search : ℕ → ℕ → List ValidatorExit → ℕ → Result Eip7002Error ℕ
search zero max pending exit_epoch = stuck
search (suc fuel) max pending exit_epoch =
    let later = add_u64 exit_epoch 1 >>= λ next. search fuel max pending next in
    if ltb (exits_in_epoch exit_epoch pending) max then ok exit_epoch else later

-- Each epoch that is passed over has an exit of its own.
unfoldable pub calculate_exit_epoch : ℕ → ExitQueueManager → Result Eip7002Error ℕ
calculate_exit_epoch current_epoch q = add_u64 current_epoch 4 >>= λ first.
    search (suc (length q.pending_exits)) q.max_exits_per_epoch q.pending_exits first

-- The last element put into its place, after its equals.
unfoldable pub insert_last : ValidatorExit → List ValidatorExit → List ValidatorExit
insert_last e [] = e ∷ []
insert_last e (d ∷ ds) =
    let rest = insert_last e ds in if ltb e.exit_epoch d.exit_epoch then e ∷ d ∷ ds else d ∷ rest

-- `sort_by_key(|e| e.exit_epoch)`, which is stable.
unfoldable pub sort_into : List ValidatorExit → List ValidatorExit → List ValidatorExit
sort_into sorted [] = sorted
sort_into sorted (e ∷ es) = sort_into (insert_last e sorted) es

abbrev pub sort_by_epoch : List ValidatorExit → List ValidatorExit
sort_by_epoch es = sort_into [] es

abbrev pub exit_of : ℕ → List ℕ → ℕ → ℕ → ExitInitiator → ValidatorExit
exit_of index pubkey exit_epoch withdrawable_epoch initiated_by = record {
  validator_index = index;
  validator_pubkey = pubkey;
  exit_epoch = exit_epoch;
  withdrawable_epoch = withdrawable_epoch;
  initiated_by = initiated_by;
}

unfoldable pub add_exit_request :
    ℕ → List ℕ → ℕ → ExitInitiator → ExitQueueManager → Result Eip7002Error ExitQueueManager
add_exit_request index pubkey current_epoch initiated_by q =
    let added = calculate_exit_epoch current_epoch q >>= λ exit_epoch.
    add_u64 exit_epoch 256 >>= λ withdrawable_epoch. ok (record q {
      pending_exits = sort_by_epoch (
          q.pending_exits
          ++ (exit_of index pubkey exit_epoch withdrawable_epoch initiated_by ∷ []));
    }) in
    if has_exit index q.pending_exits then err already_exited else added

-- The exits up to an epoch, and the others, in their order.
unfoldable pub due : ℕ → List ValidatorExit → List ValidatorExit
due epoch [] = []
due epoch (e ∷ es) = let rest = due epoch es in if leb e.exit_epoch epoch then e ∷ rest else rest

unfoldable pub not_due : ℕ → List ValidatorExit → List ValidatorExit
not_due epoch [] = []
not_due epoch (e ∷ es) =
    let rest = not_due epoch es in if leb e.exit_epoch epoch then rest else e ∷ rest

unfoldable pub process_epoch : ℕ → ExitQueueManager → List ValidatorExit × ExitQueueManager
process_epoch current_epoch q =
    let processed = due current_epoch q.pending_exits in
    (
      processed,
      record q {
        pending_exits = not_due current_epoch q.pending_exits;
        processed_exits = q.processed_exits ++ processed;
      },
    )

abbrev pub get_exit_queue_length : ExitQueueManager → ℕ
get_exit_queue_length q = length q.pending_exits
