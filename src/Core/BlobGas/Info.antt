-- ===== src/Core/BlobGas/Info.antt =====
-- crates/core/src/eip7691.rs: the gas of blobs in a header (`BlobGasInfo`), the cost of a transaction, the
-- lookups of the pool, and the change of the parameters at the fork.
use ethereum_rust.Base.{
  ℕ, ◌*◌, ◌/◌, ◌%◌, ◌^◌, ◌≤◌, ◌<◌, ◌≡◌, List, [], ◌∷◌, Option, none, some, arith, ltb, ◌==◌,
  if◌then◌else◌, length, All,
}
use ethereum_rust.Base.Sorting.{Falling, choose}
use ethereum_rust.Core.BlobGas.{
  BlobGasConfig, pre_7691, post_7691, BlobTransactionData, BlobEntry, BlobPool, Eip7691Error,
  excess_blob_gas, invalid_blob_gas, blob_gas_used, checked, and_then, calculate_blob_base_fee, fee,
  validate_against_config,
}
use ethereum_rust.Core.BlobGas.Pool.{WellFormed}

abbrev pub target_blobs_per_block : BlobGasConfig → ℕ
target_blobs_per_block c = c.target_blob_gas_per_block / c.blob_gas_per_blob

abbrev pub calculate_cost : BlobTransactionData → ℕ → Option ℕ
calculate_cost d blob_base_fee = checked (blob_base_fee * blob_gas_used d)

pub record BlobGasInfo : Type 0 where
  pub blob_gas_used : ℕ
  pub excess_blob_gas : ℕ

-- `none` is `Ok(())`.
unfoldable pub validate : BlobGasInfo → BlobGasConfig → Option Eip7691Error
validate info config =
    if info.blob_gas_used % config.blob_gas_per_blob == 0
    then (if ltb config.max_blob_gas_per_block info.blob_gas_used
        then some (excess_blob_gas info.blob_gas_used config.max_blob_gas_per_block)
        else none)
    else some (invalid_blob_gas info.blob_gas_used config.blob_gas_per_blob)

abbrev pub blob_base_fee : BlobGasInfo → BlobGasConfig → Option ℕ
blob_base_fee info config = calculate_blob_base_fee info.excess_blob_gas config

-- The data of the first entry with the hash, and the entries without it.
unfoldable pub remove_first : ℕ → List BlobEntry → Option BlobTransactionData × List BlobEntry
remove_first hash [] = (none, [])
remove_first hash (e ∷ rest) =
    let (found, others) = remove_first hash rest in
    if e.tx_hash == hash then (some e.blob_data, rest) else (found, e ∷ others)

unfoldable pub remove_transaction : ℕ → BlobPool → Option BlobTransactionData × BlobPool
remove_transaction hash p =
    let (found, others) = remove_first hash p.transactions in
    (found, record p { transactions = others })

abbrev pub size : BlobPool → ℕ
size p = length p.transactions

-- A product of two `u64` divided by a third, where the product panics past 64 bits.
abbrev pub scaled : ℕ → ℕ → ℕ → Option ℕ
scaled amount new_value old_value =
    if ltb (amount * new_value) (2 ^ 64) then some (amount * new_value / old_value) else none

unfoldable pub migrate_blob_gas_at_fork : ℕ → ℕ → Option (ℕ × ℕ)
migrate_blob_gas_at_fork pre_fork_excess pre_fork_used =
    and_then
      (scaled pre_fork_excess post_7691.target_blob_gas_per_block
        pre_7691.target_blob_gas_per_block)
      λ scaled_excess.
        and_then (scaled pre_fork_used post_7691.blob_gas_per_blob pre_7691.blob_gas_per_blob)
          λ scaled_used. some (scaled_excess, scaled_used)

remove_first-All :
    (P : BlobEntry → Type 0) (hash : ℕ) (es : List BlobEntry)
    → All P es
    → All P (remove_first hash es).1
unfolding remove_first
remove_first-All P hash [] h = tt
remove_first-All P hash (e ∷ rest) h =
    choose (λ (r : Option BlobTransactionData × List BlobEntry). All P r.1) (e.tx_hash == hash)
      (some e.blob_data, rest) ((remove_first hash rest).0, e ∷ (remove_first hash rest).1)
      (λ _. h.1) (λ _. (h.0, remove_first-All P hash rest h.1))

remove_first-Falling :
    (hash : ℕ) (es : List BlobEntry) → Falling fee es → Falling fee (remove_first hash es).1
unfolding remove_first
remove_first-Falling hash [] h = tt
remove_first-Falling hash (e ∷ rest) h =
    choose (λ (r : Option BlobTransactionData × List BlobEntry). Falling fee r.1)
      (e.tx_hash == hash) (some e.blob_data, rest)
      ((remove_first hash rest).0, e ∷ (remove_first hash rest).1) (λ _. h.1)
      (λ _.
        (remove_first-All (λ f. fee f ≤ fee e) hash rest h.0, remove_first-Falling hash rest h.1))

length-remove_first : (hash : ℕ) (es : List BlobEntry) → length (remove_first hash es).1 ≤ length es
unfolding remove_first
length-remove_first hash [] = omega arith
length-remove_first hash (e ∷ rest) = ground (arith, length-remove_first hash rest)

-- A pool keeps its order, its size and the validity of its entries when a transaction is removed.
blob_removed-WellFormed :
    (p : BlobPool) (hash : ℕ) → WellFormed p → WellFormed (remove_transaction hash p).1
unfolding remove_transaction
blob_removed-WellFormed p hash w = record {
  ordered = remove_first-Falling hash p.transactions w.ordered;
  valid =
      remove_first-All (λ e. validate_against_config e.blob_data p.config ≡ none) hash
        p.transactions w.valid;
  bounded = omega (arith, length-remove_first hash p.transactions, w.bounded);
}

-- The fork doubles the excess and keeps what was used, when no product passes 64 bits.
migrate_blob_gas_at_fork_lem :
    (pre_fork_excess pre_fork_used : ℕ)
    → pre_fork_excess * 786432 < 2 ^ 64
    → pre_fork_used * 131072 < 2 ^ 64
    → migrate_blob_gas_at_fork pre_fork_excess pre_fork_used
      ≡ some (2 * pre_fork_excess, pre_fork_used)
unfolding migrate_blob_gas_at_fork
migrate_blob_gas_at_fork_lem pre_fork_excess pre_fork_used l m = ground arith
