-- ===== src/Consensus/ExitQueue/Added.antt =====
-- crates/consensus/src/eip7002.rs: `add_exit_request` keeps the queue in order and no epoch over its limit.
use ethereum_rust.Base.{
  ℕ, suc, ◌+◌, ◌^◌, ◌≤◌, ◌<◌, ◌≡◌, refl, ◌∙◌, subst, Bool, false, List, [], ◌∷◌, ◌++◌, arith, ltb,
  ◌==◌, ==_iff, lt→ltb, ltb→lt, Bool-cases, inl, inr, if◌then◌else◌, length, All,
}
use ethereum_rust.Base.Result.{ok}
use ethereum_rust.Consensus.ExitQueue.{
  ExitInitiator, ValidatorExit, ExitQueueManager, add_u64, has_exit, exits_in_epoch, insert_last,
  sort_into, sort_by_epoch, exit_of, add_exit_request,
}
use ethereum_rust.Consensus.ExitQueue.Search.{Earliest, calculate_exit_epoch-Earliest}

-- How many exits pass a test.
unfoldable pub count_by : (ValidatorExit → Bool) → List ValidatorExit → ℕ
count_by p [] = 0
count_by p (e ∷ es) = let rest = count_by p es in if p e then suc rest else rest

abbrev pub at_epoch : ℕ → ValidatorExit → Bool
at_epoch epoch e = e.exit_epoch == epoch

abbrev pub at_index : ℕ → ValidatorExit → Bool
at_index index e = e.validator_index == index

pub exits_in_epoch-count_by :
    (epoch : ℕ) (es : List ValidatorExit) → exits_in_epoch epoch es ≡ count_by (at_epoch epoch) es
unfolding exits_in_epoch count_by
exits_in_epoch-count_by epoch [] = refl
exits_in_epoch-count_by epoch (e ∷ es) = ground (arith, exits_in_epoch-count_by epoch es)

has_exit-count_by :
    (index : ℕ) (es : List ValidatorExit)
    → has_exit index es ≡ false
    → count_by (at_index index) es ≡ 0
unfolding has_exit count_by
has_exit-count_by index [] h = refl
has_exit-count_by index (e ∷ es) h = ground (arith, h, has_exit-count_by index es)

count_by-append :
    (p : ValidatorExit → Bool) (es ds : List ValidatorExit)
    → count_by p (es ++ ds) ≡ count_by p es + count_by p ds
unfolding count_by
count_by-append p [] ds = omega arith
count_by-append p (e ∷ es) ds = ground (arith, count_by-append p es ds)

count_by-insert_last :
    (p : ValidatorExit → Bool) (e : ValidatorExit) (ds : List ValidatorExit)
    → count_by p (insert_last e ds) ≡ count_by p (e ∷ ds)
unfolding count_by insert_last
count_by-insert_last p e [] = refl
count_by-insert_last p e (d ∷ ds) = ground (arith, count_by-insert_last p e ds)

count_by-sort_into :
    (p : ValidatorExit → Bool) (sorted es : List ValidatorExit)
    → count_by p (sort_into sorted es) ≡ count_by p sorted + count_by p es
unfolding sort_into count_by
count_by-sort_into p sorted [] = omega arith
count_by-sort_into p sorted (e ∷ es) =
    ground (arith, count_by-sort_into p (insert_last e sorted) es, count_by-insert_last p e sorted)

-- The epochs rise along the list.
abbrev pub From : ℕ → ValidatorExit → Type 0
From epoch e = epoch ≤ e.exit_epoch

abbrev pub Rising : List ValidatorExit → Type 0
Rising [] = Unit
Rising (e ∷ es) = All (From e.exit_epoch) es × Rising es

From-All : (p q : ℕ) (es : List ValidatorExit) → q ≤ p → All (From p) es → All (From q) es
From-All p q [] l h = tt
From-All p q (e ∷ es) l h = (omega (arith, l, h.0), From-All p q es l h.1)

insert_last-From :
    (p : ℕ) (e : ValidatorExit) (ds : List ValidatorExit)
    → p ≤ e.exit_epoch
    → All (From p) ds
    → All (From p) (insert_last e ds)
unfolding insert_last
insert_last-From p e [] l h = (l, tt)
insert_last-From p e (d ∷ ds) l h = elim (Bool-cases (ltb e.exit_epoch d.exit_epoch)) [
  | inl g ↦ rw g (l, h)
  | inr g ↦ rw g (h.0, insert_last-From p e ds l h.1)
]

insert_last-Rising :
    (e : ValidatorExit) (ds : List ValidatorExit) → Rising ds → Rising (insert_last e ds)
unfolding insert_last
insert_last-Rising e [] h = (tt, tt)
insert_last-Rising e (d ∷ ds) h = elim (Bool-cases (ltb e.exit_epoch d.exit_epoch)) [
  | inl g ↦
      let l = ltb→lt e.exit_epoch d.exit_epoch g in
      rw g ((omega (arith, l), From-All d.exit_epoch e.exit_epoch ds (omega (arith, l)) h.0), h)
  | inr g ↦
      rw g (insert_last-From d.exit_epoch e ds (ground (arith, g)) h.0, insert_last-Rising e ds h.1)
]

sort_into-Rising : (sorted es : List ValidatorExit) → Rising sorted → Rising (sort_into sorted es)
unfolding sort_into
sort_into-Rising sorted [] h = h
sort_into-Rising sorted (e ∷ es) h =
    sort_into-Rising (insert_last e sorted) es (insert_last-Rising e sorted h)

-- In the order of the epochs, one exit for a validator, and no epoch over the limit.
abbrev pub WellFormed : ExitQueueManager → Type 0
WellFormed q =
    Rising q.pending_exits
    × ((index : ℕ) → count_by (at_index index) q.pending_exits ≤ 1)
    × ((epoch : ℕ) → exits_in_epoch epoch q.pending_exits ≤ q.max_exits_per_epoch)

abbrev single : (ValidatorExit → Bool) → ValidatorExit → ℕ
single p e = if p e then 1 else 0

count_by-added :
    (p : ValidatorExit → Bool) (es : List ValidatorExit) (e : ValidatorExit)
    → count_by p (sort_by_epoch (es ++ (e ∷ []))) ≡ count_by p es + single p e
unfolding count_by
count_by-added p es e =
    count_by-sort_into p [] (es ++ (e ∷ [])) ∙ ground (arith, count_by-append p es (e ∷ []))

WellFormed-added :
    (q : ExitQueueManager) (e : ValidatorExit)
    → WellFormed q
    → has_exit e.validator_index q.pending_exits ≡ false
    → exits_in_epoch e.exit_epoch q.pending_exits < q.max_exits_per_epoch
    → WellFormed (record q { pending_exits = sort_by_epoch (q.pending_exits ++ (e ∷ [])) })
WellFormed-added q e (r, d, m) h l = (
  sort_into-Rising [] (q.pending_exits ++ (e ∷ [])) tt,
  λ index. elim (Bool-cases (e.validator_index == index)) [
    | inl g ↦ ground (
      arith,
      g,
      count_by-added (at_index index) q.pending_exits e,
      subst (λ z. count_by (at_index z) q.pending_exits ≡ 0) ((==_iff e.validator_index index).0 g)
          (has_exit-count_by e.validator_index q.pending_exits h),
    )
    | inr g ↦ ground (arith, g, d index, count_by-added (at_index index) q.pending_exits e)
  ],
  λ epoch.
      let added = count_by-added (at_epoch epoch) q.pending_exits e in
      let before = exits_in_epoch-count_by epoch q.pending_exits in
      let after = exits_in_epoch-count_by epoch (sort_by_epoch (q.pending_exits ++ (e ∷ []))) in
      elim (Bool-cases (e.exit_epoch == epoch)) [
        | inl g ↦ ground (
          arith,
          g,
          added,
          before,
          after,
          subst (λ z. exits_in_epoch z q.pending_exits < q.max_exits_per_epoch)
              ((==_iff e.exit_epoch epoch).0 g) l,
        )
        | inr g ↦ ground (arith, g, added, before, after, m epoch)
      ],
)

-- A request for a validator that is not in the queue succeeds, and gives the exit the earliest epoch with room,
-- at least four epochs ahead, and 256 epochs more until the withdrawal; a well-formed queue stays in
-- the order of the epochs, with one exit for a validator and no epoch over its limit. This holds if an epoch may
-- have an exit at all, and the epochs stay below 2^64.
pub add_exit_request-WellFormed :
    (q : ExitQueueManager) (index : ℕ) (pubkey : List ℕ) (current_epoch : ℕ) (by : ExitInitiator)
    → WellFormed q
    → 0 < q.max_exits_per_epoch
    → current_epoch + 261 + length q.pending_exits < 2 ^ 64
    → has_exit index q.pending_exits ≡ false
    → (epoch : ℕ) × (q' : ExitQueueManager) × Earliest q.max_exits_per_epoch q.pending_exits
        (current_epoch + 4)
        epoch
      × (add_exit_request index pubkey current_epoch by q ≡ ok q')
      × (q'.pending_exits
          ≡ sort_by_epoch (q.pending_exits ++ (exit_of index pubkey epoch (epoch + 256) by ∷ [])))
      × WellFormed q'
unfolding add_exit_request add_u64
add_exit_request-WellFormed q index pubkey current_epoch by w m b h =
    let (epoch, e, (f, k, g), u) =
      calculate_exit_epoch-Earliest q current_epoch m (omega (arith, b)) in
    (
      epoch,
      record q {
        pending_exits =
            sort_by_epoch (q.pending_exits ++ (exit_of index pubkey epoch (epoch + 256) by ∷ []));
      },
      (f, k, g),
      rw (h, e, lt→ltb (epoch + 256) (2 ^ 64) (omega (arith, b, u))) refl,
      refl,
      WellFormed-added q (exit_of index pubkey epoch (epoch + 256) by) w h k,
    )
