-- ===== src/Core/BlobGas.antt =====
-- crates/core/src/eip7691.rs: the gas of blobs, their fee, and the pool of blob transactions. `none` is a
-- panic: a sum or a product past 64 bits, past 256 bits for a `U256`, or a division by 0. An `H256` is
-- the number that its bytes write. The gas per blob of a configuration is not 0.
pub mod Fees
pub mod Info
pub mod Pool
use ethereum_rust.Base.{
  ℕ, zero, suc, ◌+◌, ◌-◌, ◌*◌, ◌/◌, ◌%◌, ◌^◌, Bool, true, false, List, [], ◌∷◌, ◌++◌, Option, none,
  some, ltb, leb, ◌==◌, if◌then◌else◌, length, ◌⊎◌, inl, inr,
}
use ethereum_rust.Base.Sorting.{sort_by}

pub data Eip7691Error : Type 0 where
  too_many_blobs invalid_blob_gas excess_blob_gas : ℕ → ℕ → Eip7691Error
  invalid_versioned_hash : Eip7691Error

pub record BlobGasConfig : Type 0 where
  pub target_blob_gas_per_block : ℕ
  pub max_blob_gas_per_block : ℕ
  pub blob_gas_per_blob : ℕ
  pub min_blob_base_fee : ℕ
  pub blob_base_fee_update_fraction : ℕ

abbrev pub pre_7691 : BlobGasConfig
pre_7691 = record {
  target_blob_gas_per_block = 393216;
  max_blob_gas_per_block = 786432;
  blob_gas_per_blob = 131072;
  min_blob_base_fee = 1;
  blob_base_fee_update_fraction = 3338477;
}

abbrev pub post_7691 : BlobGasConfig
post_7691 = record {
  target_blob_gas_per_block = 786432;
  max_blob_gas_per_block = 1179648;
  blob_gas_per_blob = 131072;
  min_blob_base_fee = 1;
  blob_base_fee_update_fraction = 3338477;
}

abbrev pub max_blobs_per_block : BlobGasConfig → ℕ
max_blobs_per_block c = c.max_blob_gas_per_block / c.blob_gas_per_blob

unfoldable pub calculate_excess_blob_gas : ℕ → ℕ → BlobGasConfig → Option ℕ
calculate_excess_blob_gas parent_excess_blob_gas parent_blob_gas_used config =
    let excess = parent_excess_blob_gas + parent_blob_gas_used in
    if ltb excess (2 ^ 64)
    then some (
        if ltb excess config.target_blob_gas_per_block
        then 0
        else excess - config.target_blob_gas_per_block)
    else none

-- Arithmetic on `U256` that panics.
abbrev pub checked : ℕ → Option ℕ
checked n = if ltb n (2 ^ 256) then some n else none

abbrev pub and_then : {A B : Type 0} → Option A → (A → Option B) → Option B
and_then none f = none
and_then (some a) f = f a

abbrev pub checked_div : ℕ → ℕ → Option ℕ
checked_div a b = if b == 0 then none else some (a / b)

-- The loop of `fake_exponential` from `i` on; `k` is the number of rounds that `i > 256` leaves.
unfoldable pub exponential_loop : ℕ → ℕ → ℕ → ℕ → ℕ → ℕ → Option ℕ
exponential_loop zero i numerator denominator output accum = some output
exponential_loop (suc k) i numerator denominator output accum = elim (accum == 0) [
  | true ↦ some output
  | false ↦ and_then (checked (output + accum)) λ output'.
      and_then (checked (accum * numerator)) λ product.
        and_then (checked (denominator * i)) λ divisor.
          and_then (checked_div product divisor)
            λ accum'. exponential_loop k (i + 1) numerator denominator output' accum'
]

unfoldable pub fake_exponential : ℕ → ℕ → ℕ → Option ℕ
fake_exponential factor numerator denominator = and_then (checked (factor * denominator)) λ accum.
    and_then (exponential_loop 256 1 numerator denominator 0 accum)
      λ output. checked_div output denominator

unfoldable pub calculate_blob_base_fee : ℕ → BlobGasConfig → Option ℕ
calculate_blob_base_fee excess config =
    fake_exponential config.min_blob_base_fee excess config.blob_base_fee_update_fraction

pub record BlobTransactionData : Type 0 where
  pub blob_versioned_hashes : List ℕ
  pub max_fee_per_blob_gas : ℕ

-- `hash.as_bytes()[0]`
abbrev pub version : ℕ → ℕ
version hash = hash / 256 ^ 31 % 256

unfoldable pub all_versioned : List ℕ → Bool
all_versioned [] = true
all_versioned (hash ∷ hashes) = if version hash == 1 then all_versioned hashes else false

unfoldable pub new_data : List ℕ → ℕ → Eip7691Error ⊎ BlobTransactionData
new_data hashes max_fee =
    if ltb (max_blobs_per_block post_7691) (length hashes)
    then inl (too_many_blobs (length hashes) (max_blobs_per_block post_7691))
    else if all_versioned hashes
    then inr (record { blob_versioned_hashes = hashes; max_fee_per_blob_gas = max_fee })
    else inl invalid_versioned_hash

abbrev pub blob_count : BlobTransactionData → ℕ
blob_count d = length d.blob_versioned_hashes

abbrev pub blob_gas_used : BlobTransactionData → ℕ
blob_gas_used d = blob_count d * 131072

-- `validate_against_config`: `none` is `Ok(())`.
unfoldable pub validate_against_config : BlobTransactionData → BlobGasConfig → Option Eip7691Error
validate_against_config d config =
    if ltb (max_blobs_per_block config) (blob_count d)
    then some (too_many_blobs (blob_count d) (max_blobs_per_block config))
    else if ltb config.max_blob_gas_per_block (blob_gas_used d)
    then some (excess_blob_gas (blob_gas_used d) config.max_blob_gas_per_block)
    else none

abbrev pub can_afford : BlobTransactionData → ℕ → Bool
can_afford d blob_base_fee = leb blob_base_fee d.max_fee_per_blob_gas

pub record BlobEntry : Type 0 where
  pub tx_hash : ℕ
  pub blob_data : BlobTransactionData
  pub priority_fee : ℕ

pub record BlobPool : Type 0 where
  pub transactions : List BlobEntry
  pub config : BlobGasConfig
  pub max_pool_size : ℕ

abbrev pub new : BlobGasConfig → ℕ → BlobPool
new config max_pool_size = record {
  transactions = [];
  config = config;
  max_pool_size = max_pool_size;
}

abbrev pub fee : BlobEntry → ℕ
fee e = e.priority_fee

-- `self.transactions.pop()`
unfoldable pub evict_lowest_priority : List BlobEntry → List BlobEntry
evict_lowest_priority [] = []
evict_lowest_priority (e ∷ []) = []
evict_lowest_priority (e ∷ f ∷ rest) = e ∷ evict_lowest_priority (f ∷ rest)

unfoldable pub make_space : BlobPool → List BlobEntry
make_space p =
    if leb p.max_pool_size (length p.transactions)
    then evict_lowest_priority p.transactions
    else p.transactions

unfoldable pub add_valid : Option Eip7691Error → BlobEntry → BlobPool → Eip7691Error ⊎ BlobPool
add_valid (some e) entry p = inl e
add_valid none entry p =
    inr (record p { transactions = sort_by fee (make_space p ++ (entry ∷ [])) })

unfoldable pub add_transaction : BlobEntry → BlobPool → Eip7691Error ⊎ BlobPool
add_transaction entry p = add_valid (validate_against_config entry.blob_data p.config) entry p

unfoldable pub select : ℕ → ℕ → ℕ → List BlobEntry → List BlobEntry
select blob_base_fee max_blobs total_blobs [] = []
select blob_base_fee max_blobs total_blobs (e ∷ rest) =
    elim (can_afford e.blob_data blob_base_fee) [
      | false ↦ select blob_base_fee max_blobs total_blobs rest
      | true ↦ elim (ltb max_blobs (total_blobs + blob_count e.blob_data)) [
        | true ↦ select blob_base_fee max_blobs total_blobs rest
        | false ↦ e ∷ select blob_base_fee max_blobs (total_blobs + blob_count e.blob_data) rest
      ]
    ]

-- The entries whose hash and data are returned.
unfoldable pub get_best_transactions : ℕ → ℕ → BlobPool → List BlobEntry
get_best_transactions blob_base_fee max_blobs p = select blob_base_fee max_blobs 0 p.transactions

unfoldable pub total_blobs : List BlobEntry → ℕ
total_blobs [] = 0
total_blobs (e ∷ rest) = blob_count e.blob_data + total_blobs rest
