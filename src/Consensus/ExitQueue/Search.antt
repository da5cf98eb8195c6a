-- ===== src/Consensus/ExitQueue/Search.antt =====
-- crates/consensus/src/eip7002.rs: `calculate_exit_epoch` finds the earliest epoch with room.
use ethereum_rust.Base.{
  ℕ, zero, suc, ◌+◌, ◌^◌, ◌≤◌, ◌<◌, ◌≡◌, refl, subst, false, List, [], ◌∷◌, arith, ltb, leb, ◌==◌,
  lt→ltb, ltb→lt, ==_iff, Bool-cases, inl, inr, if◌then◌else◌, length,
}
use ethereum_rust.Base.Result.{ok}
use ethereum_rust.Consensus.ExitQueue.{
  ValidatorExit, ExitQueueManager, add_u64, exits_in_epoch, search, calculate_exit_epoch,
}

-- The exits from an epoch on.
unfoldable pub exits_from : ℕ → List ValidatorExit → ℕ
exits_from epoch [] = 0
exits_from epoch (e ∷ es) =
    let rest = exits_from epoch es in if leb epoch e.exit_epoch then suc rest else rest

exits_from-suc :
    (epoch : ℕ) (es : List ValidatorExit)
    → exits_in_epoch epoch es + exits_from (epoch + 1) es ≡ exits_from epoch es
unfolding exits_from exits_in_epoch
exits_from-suc epoch [] = omega arith
exits_from-suc epoch (e ∷ es) = ground (arith, exits_from-suc epoch es)

exits_from-length : (epoch : ℕ) (es : List ValidatorExit) → exits_from epoch es ≤ length es
unfolding exits_from
exits_from-length epoch [] = omega arith
exits_from-length epoch (e ∷ es) = ground (arith, exits_from-length epoch es)

-- The earliest epoch from `first` on that has room.
abbrev pub Earliest : ℕ → List ValidatorExit → ℕ → ℕ → Type 0
Earliest max pending first epoch =
    (first ≤ epoch)
    × (exits_in_epoch epoch pending < max)
    × ((e : ℕ) → first ≤ e → e < epoch → max ≤ exits_in_epoch e pending)

earlier :
    (max : ℕ) (pending : List ValidatorExit) (first epoch : ℕ)
    → ltb (exits_in_epoch first pending) max ≡ false
    → ((e : ℕ) → first + 1 ≤ e → e < epoch → max ≤ exits_in_epoch e pending)
    → (e : ℕ) → first ≤ e
    → e < epoch
    → max ≤ exits_in_epoch e pending
earlier max pending first epoch h g e k l = elim (Bool-cases (first == e)) [
  | inl d ↦ subst (λ z. max ≤ exits_in_epoch z pending) ((==_iff first e).0 d) (ground (arith, h))
  | inr d ↦ g e (ground (arith, d, k)) l
]

search-Earliest :
    (fuel max : ℕ) (pending : List ValidatorExit) (first : ℕ)
    → 0 < max
    → exits_from first pending < fuel
    → first + fuel < 2 ^ 64
    → (epoch : ℕ) × (search fuel max pending first ≡ ok epoch)
      × Earliest max pending first epoch
      × (epoch < first + fuel)
unfolding search add_u64
search-Earliest zero max pending first m l b = absurd (omega (arith, l))
search-Earliest (suc fuel) max pending first m l b =
    elim (Bool-cases (ltb (exits_in_epoch first pending) max)) [
      | inl h ↦ (
        first,
        rw h refl,
        (
          omega arith,
          ltb→lt (exits_in_epoch first pending) max h,
          λ e k g. absurd (omega (arith, k, g)),
        ),
        omega arith,
      )
      | inr h ↦
          let (epoch, e, (r, k, g), u) =
            search-Earliest fuel max pending (first + 1) m
              (ground (arith, exits_from-suc first pending, h, l, m)) (omega (arith, b)) in
          (
            epoch,
            rw (h, lt→ltb (first + 1) (2 ^ 64) (omega (arith, b))) e,
            (omega (arith, r), k, earlier max pending first epoch h g),
            omega (arith, u),
          )
    ]

-- The epoch that is chosen is the earliest one, at least four epochs ahead, for which fewer exits are scheduled
-- than an epoch may have; the search ends if an epoch may have an exit at all, and the epochs stay below
-- 2^64.
pub calculate_exit_epoch-Earliest :
    (q : ExitQueueManager) (current_epoch : ℕ)
    → 0 < q.max_exits_per_epoch
    → current_epoch + 5 + length q.pending_exits < 2 ^ 64
    → (epoch : ℕ) × (calculate_exit_epoch current_epoch q ≡ ok epoch)
      × Earliest q.max_exits_per_epoch q.pending_exits (current_epoch + 4) epoch
      × (epoch < current_epoch + 5 + length q.pending_exits)
unfolding calculate_exit_epoch add_u64
calculate_exit_epoch-Earliest q current_epoch m b =
    let (epoch, e, r, u) =
      search-Earliest (suc (length q.pending_exits)) q.max_exits_per_epoch q.pending_exits
        (current_epoch + 4) m (omega (arith, exits_from-length (current_epoch + 4) q.pending_exits))
        (omega (arith, b)) in
    (epoch, rw (lt→ltb (current_epoch + 4) (2 ^ 64) (omega (arith, b))) e, r, omega (arith, u))
