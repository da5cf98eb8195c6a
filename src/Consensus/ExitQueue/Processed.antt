-- ===== src/Consensus/ExitQueue/Processed.antt =====
-- crates/consensus/src/eip7002.rs: `process_epoch` takes the exits that are due, and loses none.
use ethereum_rust.Base.{
  ℕ, ◌≤◌, ◌<◌, ◌≡◌, refl, ap, Bool, List, [], ◌∷◌, ◌++◌, arith, leb, leb→le, Bool-cases, inl, inr,
  All,
}
use ethereum_rust.Consensus.ExitQueue.{ValidatorExit, ExitQueueManager, due, not_due, process_epoch}
use ethereum_rust.Consensus.ExitQueue.Added.{
  count_by, at_index, at_epoch, Rising, From, WellFormed, exits_in_epoch-count_by,
}

due-All : (epoch : ℕ) (es : List ValidatorExit) → All (λ e. e.exit_epoch ≤ epoch) (due epoch es)
unfolding due
due-All epoch [] = tt
due-All epoch (e ∷ es) = elim (Bool-cases (leb e.exit_epoch epoch)) [
  | inl h ↦ rw h (leb→le e.exit_epoch epoch h, due-All epoch es)
  | inr h ↦ rw h (due-All epoch es)
]

not_due-All :
    (epoch : ℕ) (es : List ValidatorExit) → All (λ e. epoch < e.exit_epoch) (not_due epoch es)
unfolding not_due
not_due-All epoch [] = tt
not_due-All epoch (e ∷ es) = elim (Bool-cases (leb e.exit_epoch epoch)) [
  | inl h ↦ rw h (not_due-All epoch es)
  | inr h ↦ rw h (ground (arith, h), not_due-All epoch es)
]

-- In the order of the epochs, the exits that are due come first.
none-due :
    (epoch p : ℕ) (es : List ValidatorExit)
    → epoch < p
    → All (From p) es
    → (due epoch es ≡ []) × (not_due epoch es ≡ es)
unfolding due not_due
none-due epoch p [] l h = (refl, refl)
none-due epoch p (e ∷ es) l h = elim (Bool-cases (leb e.exit_epoch epoch)) [
  | inl g ↦ absurd (omega (arith, l, h.0, leb→le e.exit_epoch epoch g))
  | inr g ↦ let t = none-due epoch p es l h.1 in rw g (t.0, ap (◌∷◌ e) t.1)
]

due-append :
    (epoch : ℕ) (es : List ValidatorExit) → Rising es → due epoch es ++ not_due epoch es ≡ es
unfolding due not_due
due-append epoch [] r = refl
due-append epoch (e ∷ es) r = elim (Bool-cases (leb e.exit_epoch epoch)) [
  | inl h ↦ rw h (ap (◌∷◌ e) (due-append epoch es r.1))
  | inr h ↦
      let t = none-due epoch e.exit_epoch es (ground (arith, h)) r.0 in rw (h, t.0) (ap (◌∷◌ e) t.1)
]

not_due-keeps :
    (P : ValidatorExit → Type 0) (epoch : ℕ) (es : List ValidatorExit)
    → All P es
    → All P (not_due epoch es)
unfolding not_due
not_due-keeps P epoch [] h = tt
not_due-keeps P epoch (e ∷ es) h = elim (Bool-cases (leb e.exit_epoch epoch)) [
  | inl g ↦ rw g (not_due-keeps P epoch es h.1)
  | inr g ↦ rw g (h.0, not_due-keeps P epoch es h.1)
]

not_due-Rising : (epoch : ℕ) (es : List ValidatorExit) → Rising es → Rising (not_due epoch es)
unfolding not_due
not_due-Rising epoch [] r = tt
not_due-Rising epoch (e ∷ es) r = elim (Bool-cases (leb e.exit_epoch epoch)) [
  | inl g ↦ rw g (not_due-Rising epoch es r.1)
  | inr g ↦ rw g (not_due-keeps (From e.exit_epoch) epoch es r.0, not_due-Rising epoch es r.1)
]

count_by-not_due :
    (p : ValidatorExit → Bool) (epoch : ℕ) (es : List ValidatorExit)
    → count_by p (not_due epoch es) ≤ count_by p es
unfolding count_by not_due
count_by-not_due p epoch [] = omega arith
count_by-not_due p epoch (e ∷ es) = ground (arith, count_by-not_due p epoch es)

-- From a well-formed queue, the exits up to the epoch are returned and recorded as processed, all others stay,
-- in the same order together as before, and the queue that is left is well formed.
pub process_epoch-WellFormed :
    (q : ExitQueueManager) (epoch : ℕ)
    → WellFormed q
    → ((process_epoch epoch q).0 ++ (process_epoch epoch q).1.pending_exits ≡ q.pending_exits)
      × All (λ e. e.exit_epoch ≤ epoch) (process_epoch epoch q).0
      × All (λ e. epoch < e.exit_epoch) (process_epoch epoch q).1.pending_exits
      × ((process_epoch epoch q).1.processed_exits ≡ q.processed_exits ++ (process_epoch epoch q).0)
      × WellFormed (process_epoch epoch q).1
unfolding process_epoch
process_epoch-WellFormed q epoch (r, d, m) = (
  due-append epoch q.pending_exits r,
  due-All epoch q.pending_exits,
  not_due-All epoch q.pending_exits,
  refl,
  (
    not_due-Rising epoch q.pending_exits r,
    λ index. omega (arith, d index, count_by-not_due (at_index index) epoch q.pending_exits),
    λ e. omega (
      arith,
      m e,
      count_by-not_due (at_epoch e) epoch q.pending_exits,
      exits_in_epoch-count_by e q.pending_exits,
      exits_in_epoch-count_by e (not_due epoch q.pending_exits),
    ),
  ),
)
