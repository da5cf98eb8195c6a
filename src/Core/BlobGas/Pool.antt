-- ===== src/Core/BlobGas/Pool.antt =====
-- crates/core/src/eip7691.rs: the pool of blob transactions.
use ethereum_rust.Base.{
  ℕ, max, ◌+◌, ◌-◌, ◌≤◌, ◌<◌, ◌≡◌, ◌⊎◌, refl, subst, ap, Bool, true, false, List, [], ◌∷◌, ◌++◌,
  Option, none, some, arith, ltb, leb, leb→le, length, length-append, All, Bool-cases, inl, inr,
}
use ethereum_rust.Base.Sorting.{Falling, sort_by-Falling, sort_by-All, length-sort_by, choose}
use ethereum_rust.Core.BlobGas.{
  BlobTransactionData, BlobEntry, BlobPool, Eip7691Error, blob_count, can_afford,
  validate_against_config, new_data, post_7691, fee, evict_lowest_priority, make_space, add_valid,
  add_transaction, select, get_best_transactions, total_blobs,
}

-- What is selected fits in the blobs that are left, can pay, and keeps what all entries had.
abbrev pub Selection : (BlobEntry → Type 0) → ℕ → ℕ → ℕ → List BlobEntry → Type 0
Selection P base_fee max_blobs total chosen =
    (total + total_blobs chosen ≤ max_blobs)
    × (All (λ e. base_fee ≤ e.blob_data.max_fee_per_blob_gas) chosen × All P chosen)

module _ (P : BlobEntry → Type 0) (base_fee max_blobs : ℕ) where
  pick :
      (b c : Bool) (total : ℕ) (e : BlobEntry) (skip take : List BlobEntry)
      → (b ≡ true → base_fee ≤ e.blob_data.max_fee_per_blob_gas)
      → P e
      → Selection P base_fee max_blobs total skip
      → (c ≡ false → Selection P base_fee max_blobs (total + blob_count e.blob_data) take)
      → Selection P base_fee max_blobs total
          (elim b [ false ↦ skip | true ↦ elim c [ true ↦ skip | false ↦ e ∷ take ] ])
  unfolding total_blobs
  pick false c total e skip take a h k l = k
  pick true true total e skip take a h k l = k
  pick true false total e skip take a h k l =
      let (fits, (pays, has)) = l refl in (omega (arith, fits), ((a refl, pays), (h, has)))

  select-Selection :
      (total : ℕ) (entries : List BlobEntry)
      → total ≤ max_blobs
      → All P entries
      → Selection P base_fee max_blobs total (select base_fee max_blobs total entries)
  unfolding select total_blobs
  select-Selection total [] l h = (omega arith, (tt, tt))
  select-Selection total (e ∷ rest) l h =
      let more = total + blob_count e.blob_data in
      elim (Bool-cases (ltb max_blobs more)) [
        | inl over ↦
            pick (can_afford e.blob_data base_fee) (ltb max_blobs more) total e
              (select base_fee max_blobs total rest) (select base_fee max_blobs more rest)
              (leb→le base_fee e.blob_data.max_fee_per_blob_gas) h.0
              (select-Selection total rest l h.1) (λ q. absurd (ground (arith, over, q)))
        | inr under ↦
            pick (can_afford e.blob_data base_fee) (ltb max_blobs more) total e
              (select base_fee max_blobs total rest) (select base_fee max_blobs more rest)
              (leb→le base_fee e.blob_data.max_fee_per_blob_gas) h.0
              (select-Selection total rest l h.1)
              (λ _. select-Selection more rest (ground (arith, under)) h.1)
      ]

  -- The transactions that are chosen for a block have at most `max_blobs` blobs together, each can pay
  -- the base fee, and what holds of all entries of the pool holds of all that are chosen.
  pub get_best_transactions_fit :
      (p : BlobPool)
      → All P p.transactions
      → Selection P base_fee max_blobs 0 (get_best_transactions base_fee max_blobs p)
  unfolding get_best_transactions
  get_best_transactions_fit p h = select-Selection 0 p.transactions (omega arith) h

-- The order by priority, the validity of every entry, and the size, where a pool for no entry holds one.
pub record WellFormed (p : BlobPool) : Type 0 where
  pub ordered : Falling fee p.transactions
  pub valid : All (λ e. validate_against_config e.blob_data p.config ≡ none) p.transactions
  pub bounded : length p.transactions ≤ max 1 p.max_pool_size

length-evict : (es : List BlobEntry) → length (evict_lowest_priority es) ≡ length es - 1
unfolding evict_lowest_priority
length-evict [] = refl
length-evict (e ∷ []) = refl
length-evict (e ∷ f ∷ rest) = omega (arith, length-evict (f ∷ rest))

evict-All :
    (P : BlobEntry → Type 0) (es : List BlobEntry) → All P es → All P (evict_lowest_priority es)
unfolding evict_lowest_priority
evict-All P [] h = tt
evict-All P (e ∷ []) h = tt
evict-All P (e ∷ f ∷ rest) h = (h.0, evict-All P (f ∷ rest) h.1)

make_space-All :
    (P : BlobEntry → Type 0) (p : BlobPool) → All P p.transactions → All P (make_space p)
unfolding make_space
make_space-All P p h =
    choose (All P) (leb p.max_pool_size (length p.transactions))
      (evict_lowest_priority p.transactions) p.transactions (λ _. evict-All P p.transactions h)
      (λ _. h)

length-make_space :
    (p : BlobPool)
    → length p.transactions ≤ max 1 p.max_pool_size
    → length (make_space p) < max 1 p.max_pool_size
unfolding make_space
length-make_space p h = ground (arith, h, length-evict p.transactions)

append-All :
    (P : BlobEntry → Type 0) (es : List BlobEntry) (e : BlobEntry)
    → All P es
    → P e
    → All P (es ++ (e ∷ []))
append-All P [] e h k = (k, tt)
append-All P (x ∷ es) e h k = (h.0, append-All P es e h.1 k)

Kept : Eip7691Error ⊎ BlobPool → Type 0
Kept (inl e) = Unit {0}
Kept (inr p) = WellFormed p

add_valid-Kept :
    (p : BlobPool) (e : BlobEntry) (o : Option Eip7691Error)
    → validate_against_config e.blob_data p.config ≡ o
    → WellFormed p
    → Kept (add_valid o e p)
unfolding add_valid Kept
add_valid-Kept p e (some x) q w = tt
add_valid-Kept p e none q w = record {
  ordered = sort_by-Falling fee (make_space p ++ (e ∷ []));
  valid =
      sort_by-All fee (λ x. validate_against_config x.blob_data p.config ≡ none)
        (make_space p ++ (e ∷ []))
        (append-All (λ x. validate_against_config x.blob_data p.config ≡ none) (make_space p) e
          (make_space-All (λ x. validate_against_config x.blob_data p.config ≡ none) p w.valid) q);
  bounded = omega (
    arith,
    length-make_space p w.bounded,
    length-append (make_space p) (e ∷ []),
    length-sort_by fee (make_space p ++ (e ∷ [])),
  );
}

-- `add_transaction` keeps the pool in the falling order of the priority fees, with valid entries only,
-- and within its size, or at one entry if its size is 0.
pub blob_added-WellFormed :
    (p q : BlobPool) (e : BlobEntry) → WellFormed p → add_transaction e p ≡ inr q → WellFormed q
unfolding add_transaction Kept
blob_added-WellFormed p q e w h =
    subst Kept h (add_valid-Kept p e (validate_against_config e.blob_data p.config) refl w)

small_valid :
    (d : BlobTransactionData)
    → length d.blob_versioned_hashes ≤ 9
    → validate_against_config d post_7691 ≡ none
unfolding validate_against_config
small_valid d h = ground (arith, h)

accepted :
    (hashes : List ℕ) (max_fee : ℕ) (d : BlobTransactionData)
    → new_data hashes max_fee ≡ inr d
    → (length hashes ≤ 9) × (d.blob_versioned_hashes ≡ hashes)
unfolding new_data
accepted hashes max_fee d h = ground (arith, h)

-- Data that `new` accepts has at most nine hashes and is valid under the configuration of EIP-7691.
pub new_data_valid :
    (hashes : List ℕ) (max_fee : ℕ) (d : BlobTransactionData)
    → new_data hashes max_fee ≡ inr d
    → (length d.blob_versioned_hashes ≤ 9) × (validate_against_config d post_7691 ≡ none)
new_data_valid hashes max_fee d h =
    let (few, same) = accepted hashes max_fee d h in
    let n : length d.blob_versioned_hashes ≤ 9 =
      omega (arith, few, ap (λ (xs : List ℕ). length xs) same) in
    (n, small_valid d n)
