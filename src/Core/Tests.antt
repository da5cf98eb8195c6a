-- ===== src/Core/Tests.antt =====
-- The tests of crates/core/src/eip7691.rs, and the theorems at concrete inputs.
use ethereum_rust.Base.{ℕ, ◌^◌, ◌≤◌, ◌<◌, ◌≡◌, refl, List, [], ◌∷◌, some, arith}
use ethereum_rust.Base.Sorting.{sort_by, insert_by}
use ethereum_rust.Core.BlobGas.{
  BlobTransactionData, BlobEntry, BlobPool, post_7691, calculate_excess_blob_gas,
  calculate_blob_base_fee, fake_exponential, exponential_loop, validate_against_config,
  add_transaction, add_valid, make_space, get_best_transactions,
}
use ethereum_rust.Core.BlobGas.Fees.{calculate_blob_base_fee_bounded}
use ethereum_rust.Core.BlobGas.Pool.{
  Selection, get_best_transactions_fit, WellFormed, blob_added-WellFormed,
}

excess_runs : calculate_excess_blob_gas 0 1179648 post_7691 ≡ some 393216
unfolding calculate_excess_blob_gas
excess_runs = refl

calculate_blob_base_fee_bounded_example : 1 ≤ 2
unfolding calculate_blob_base_fee fake_exponential exponential_loop
calculate_blob_base_fee_bounded_example = calculate_blob_base_fee_bounded 3338477 2 post_7691 refl

abbrev data_of : ℕ → BlobTransactionData
data_of max_fee = record { blob_versioned_hashes = 256 ^ 31 ∷ []; max_fee_per_blob_gas = max_fee }

abbrev entry : ℕ → ℕ → BlobEntry
entry tx_hash priority_fee = record {
  tx_hash = tx_hash;
  blob_data = data_of 100;
  priority_fee = priority_fee;
}

abbrev pool : List BlobEntry → BlobPool
pool transactions = record { transactions = transactions; config = post_7691; max_pool_size = 2 }

one_entry-WellFormed : WellFormed (pool (entry 1 10 ∷ []))
unfolding validate_against_config
one_entry-WellFormed = record { ordered = (tt, tt); valid = (refl, tt); bounded = omega arith }

blob_added-WellFormed_example : WellFormed (pool (entry 2 20 ∷ entry 1 10 ∷ []))
unfolding add_transaction add_valid make_space validate_against_config sort_by insert_by
blob_added-WellFormed_example =
    blob_added-WellFormed (pool (entry 1 10 ∷ [])) (pool (entry 2 20 ∷ entry 1 10 ∷ []))
      (entry 2 20) one_entry-WellFormed refl

abbrev Known : BlobEntry → Type 0
Known e = 0 < e.tx_hash

get_best_transactions_fit_example :
    Selection Known 50 1 0 (get_best_transactions 50 1 (pool (entry 2 20 ∷ entry 1 10 ∷ [])))
get_best_transactions_fit_example =
    get_best_transactions_fit Known 50 1 (pool (entry 2 20 ∷ entry 1 10 ∷ []))
      (omega arith, (omega arith, tt))
