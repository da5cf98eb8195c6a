-- ===== src/Consensus/Validators/Balances.antt =====
-- crates/consensus/src/eip7251.rs: what a validator's balances are after an addition, a consolidation and a switch.
use ethereum_rust.Base.{
  ℕ, ◌+◌, ◌-◌, ◌^◌, ◌≤◌, ◌<◌, ◌≡◌, ◌⊎◌, refl, ap, true, arith, ltb, lt→ltb, Bool-cases, inl, inr,
  if◌then◌else◌,
}
use ethereum_rust.Base.Result.{ok}
use ethereum_rust.Consensus.Validators.{
  Validator, from_byte, compounding, to_byte, is_compounding, get_max_effective_balance, add_u256,
  cap_added, add_balance, cap_consolidated, consolidate_balance, switch_to_compounding_validator,
  is_eth1, compounds,
}

abbrev pub total : Validator → ℕ
total v = v.effective_balance + v.pending_balance

-- The effective balance is at most the validator's maximum.
abbrev pub IsCapped : Validator → Type 0
IsCapped v = v.effective_balance ≤ get_max_effective_balance v

-- Something is pending only at the maximum.
abbrev pub IsSettled : Validator → Type 0
IsSettled v = (v.pending_balance ≡ 0) ⊎ (v.effective_balance ≡ get_max_effective_balance v)

abbrev Consolidated : Validator → Validator → Type 0
Consolidated v v' =
    (total v' ≡ total v) × IsCapped v' × IsSettled v' × (v'.credential ≡ v.credential)

cap_consolidated-Consolidated :
    (v : Validator) → Consolidated v (cap_consolidated (total v) (get_max_effective_balance v) v)
unfolding cap_consolidated get_max_effective_balance is_compounding
cap_consolidated-Consolidated v = elim (Bool-cases (ltb (get_max_effective_balance v) (total v))) [
  | inl h ↦ rw h (ground (arith, h), omega arith, inr refl, refl)
  | inr h ↦ rw h (omega arith, ground (arith, h), inl refl, refl)
]

-- A consolidation moves the pending balance into the effective one up to the maximum: their sum stays, the
-- effective balance is at most the maximum, and something is pending only at the maximum, and the credential stays. It needs
-- the sum to be below 2^256.
pub consolidate_balance-total :
    (v : Validator)
    → total v < 2 ^ 256
    → (v' : Validator) × (consolidate_balance v ≡ ok (v.pending_balance, v'))
      × (total v' ≡ total v)
      × IsCapped v'
      × IsSettled v'
      × (v'.credential ≡ v.credential)
unfolding consolidate_balance add_u256
consolidate_balance-total v b =
    let (c, d, e, f) = cap_consolidated-Consolidated v in
    (
      cap_consolidated (total v) (get_max_effective_balance v) v,
      rw (lt→ltb (total v) (2 ^ 256) b) refl,
      c,
      d,
      e,
      f,
    )

-- An addition to a validator, where the sum with the effective balance is below 2^256. If the sum is above the
-- maximum, the effective balance is the maximum and what is above it is all that is pending then, so
-- that what was pending before is gone; otherwise the effective balance is the sum, what was pending stays,
-- and nothing is lost. The effective balance is at most the maximum, which stays.
pub add_balance-total :
    (amount : ℕ) (v : Validator)
    → v.effective_balance + amount < 2 ^ 256
    → (v' : Validator) × (add_balance amount v ≡ ok v')
      × IsCapped v'
      × (total v' ≡ (
          if ltb (get_max_effective_balance v) (v.effective_balance + amount)
          then v.effective_balance + amount
          else total v + amount))
      × (v'.pending_balance ≡ (
          if ltb (get_max_effective_balance v) (v.effective_balance + amount)
          then v.effective_balance + amount - get_max_effective_balance v
          else v.pending_balance))
      × (get_max_effective_balance v' ≡ get_max_effective_balance v)
unfolding add_balance add_u256 cap_added get_max_effective_balance is_compounding
add_balance-total amount v b =
    let limit = get_max_effective_balance v in
    let e = lt→ltb (v.effective_balance + amount) (2 ^ 256) b in
    elim (Bool-cases (ltb limit (v.effective_balance + amount))) [
      | inl h ↦ (
        cap_added (v.effective_balance + amount) limit v,
        rw e refl,
        rw h (omega arith),
        rw h (ground (arith, h)),
        rw h refl,
        rw h refl,
      )
      | inr h ↦ (
        cap_added (v.effective_balance + amount) limit v,
        rw e refl,
        rw h (ground (arith, h)),
        rw h (omega arith),
        rw h refl,
        rw h refl,
      )
    ]

-- A validator with an Eth1 credential can switch to a compounding one: the sum of its balances stays, and the
-- effective balance is at most the larger maximum. It needs the sum to be below 2^256.
pub switch_to_compounding_validator-total :
    (v : Validator)
    → is_eth1 (from_byte v.credential) ≡ true
    → total v < 2 ^ 256
    → (v' : Validator) × (switch_to_compounding_validator v ≡ ok v')
      × (is_compounding v' ≡ true)
      × (total v' ≡ total v)
      × IsCapped v'
unfolding switch_to_compounding_validator is_compounding
switch_to_compounding_validator-total v h b =
    let (v', e, t, c, s, k) =
      consolidate_balance-total (record v { credential = to_byte compounding }) b in
    (v', rw (h, e) refl, ap (λ z. compounds (from_byte z)) k, t, c)
