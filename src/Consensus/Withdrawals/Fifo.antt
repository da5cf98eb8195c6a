-- ===== src/Consensus/Withdrawals/Fifo.antt =====
-- crates/consensus/src/eip7002.rs: `WithdrawalRequestQueue` is a bounded queue, first in, first out.
use ethereum_rust.Base.{
  ℕ, zero, suc, ◌+◌, ◌-◌, ◌^◌, ◌≤◌, ◌<◌, ◌≡◌, refl, sym, ◌∙◌, ap, subst, false, List, [], ◌∷◌, ◌++◌,
  some, arith, ltb, leb, ◌==◌, lt→ltb, Bool-cases, inl, inr, length, take, drop, length-append,
  length-take, min,
}
use ethereum_rust.Base.Result.{ok}
use ethereum_rust.Consensus.ExitQueue.{add_u64}
use ethereum_rust.Consensus.Withdrawals.{
  WithdrawalRequest, WithdrawalRequestQueue, enqueue, dequeue, remove_first, dequeue_times,
  dequeue_up_to, update_excess, max_requests, target_requests,
}

not_leb : (a b : ℕ) → b < a → leb a b ≡ false
not_leb a b l = ground (arith, l)

-- The counters agree with the requests that are there.
abbrev pub Agrees : WithdrawalRequestQueue → Type 0
Agrees q = (q.count ≡ length q.items) × (q.tail ≡ q.head + q.count) × (q.count ≤ max_requests)

not_zero : (a n : ℕ) → a ≡ suc n → (a == 0) ≡ false
not_zero a n e = ground (arith, e)

pub enqueue-Agrees :
    (r : WithdrawalRequest) (q : WithdrawalRequestQueue)
    → Agrees q
    → q.count < max_requests
    → q.tail + 1 < 2 ^ 64
    → (q' : WithdrawalRequestQueue) × (enqueue r q ≡ ok q')
      × (q'.items ≡ q.items ++ (r ∷ []))
      × (q'.tail ≡ q.tail + 1)
      × Agrees q'
unfolding enqueue add_u64
enqueue-Agrees r q (c, t, m) l b = (
  record q { items = q.items ++ (r ∷ []); tail = q.tail + 1; count = q.count + 1 },
  simp (not_leb max_requests q.count l, lt→ltb (q.tail + 1) (2 ^ 64) b) refl,
  refl,
  refl,
  (omega (arith, c, length-append q.items (r ∷ [])), omega (arith, t), omega (arith, l)),
)

dequeue-first :
    (q : WithdrawalRequestQueue) (r : WithdrawalRequest) (rs : List WithdrawalRequest)
    → q.items ≡ r ∷ rs
    → Agrees q
    → q.head + 1 < 2 ^ 64
    → (q' : WithdrawalRequestQueue) × (dequeue q ≡ ok (some r, q'))
      × (q'.items ≡ rs)
      × (q'.excess ≡ q.excess)
      × (q'.head ≡ q.head + 1)
      × Agrees q'
unfolding dequeue remove_first add_u64
dequeue-first q r rs e (c, t, m) b =
    let l : q.count ≡ suc (length rs) = omega (arith, c, ap length e) in
    (
      record q { items = rs; head = q.head + 1; count = q.count - 1 },
      simp (not_zero q.count (length rs) l) (
          subst
            (λ z.
              remove_first z q
              ≡ ok (some r, record q { items = rs; head = q.head + 1; count = q.count - 1 }))
            (sym e) (simp (lt→ltb (q.head + 1) (2 ^ 64) b) refl)),
      refl,
      refl,
      refl,
      (omega (arith, l), omega (arith, t, l), omega (arith, m)),
    )

dequeue_times-take :
    (n : ℕ) (q : WithdrawalRequestQueue) (rs : List WithdrawalRequest)
    → q.items ≡ rs
    → Agrees q
    → n ≤ length rs
    → q.head + n < 2 ^ 64
    → (q' : WithdrawalRequestQueue) × (dequeue_times n q ≡ ok (take n rs, q'))
      × (q'.items ≡ drop n rs)
      × (q'.excess ≡ q.excess)
      × Agrees q'
unfolding dequeue_times
dequeue_times-take zero q rs e a l b = (q, refl, e, refl, a)
dequeue_times-take (suc n) q [] e a l b = absurd (omega (arith, l))
dequeue_times-take (suc n) q (r ∷ rs) e a l b =
    let (q1, d, i, x, h, a1) = dequeue-first q r rs e a (omega (arith, b)) in
    let (q2, d2, i2, x2, a2) =
      dequeue_times-take n q1 rs i a1 (omega (arith, l)) (omega (arith, b, h)) in
    (q2, rw (d, d2) refl, i2, x2 ∙ x, a2)

update_excess-sum :
    (taken excess : ℕ)
    → excess + taken < 2 ^ 64
    → update_excess taken excess ≡ ok (excess + taken - target_requests)
unfolding update_excess add_u64
update_excess-sum taken excess b = elim (Bool-cases (ltb target_requests taken)) [
  | inl h ↦
      rw (h, lt→ltb (excess + (taken - 2)) (2 ^ 64) (omega (arith, b))) (ap ok (ground (arith, h)))
  | inr h ↦ elim (Bool-cases (ltb 0 excess)) [
    | inl g ↦ rw (h, g) (ap ok (ground (arith, h, g)))
    | inr g ↦ rw (h, g) (ap ok (ground (arith, h, g)))
  ]
]

-- Taking more than there is takes all.
take-bounded : {A : Type 0} (m n : ℕ) (xs : List A) → m ≡ min (length xs) n → take m xs ≡ take n xs
take-bounded zero zero xs h = refl
take-bounded (suc m) zero xs h = absurd (omega (arith, h))
take-bounded zero (suc n) [] h = refl
take-bounded (suc m) (suc n) [] h = refl
take-bounded zero (suc n) (x ∷ xs) h = absurd (omega (arith, h))
take-bounded (suc m) (suc n) (x ∷ xs) h = ap (◌∷◌ x) (take-bounded m n xs (omega (arith, h)))

drop-bounded : {A : Type 0} (m n : ℕ) (xs : List A) → m ≡ min (length xs) n → drop m xs ≡ drop n xs
drop-bounded zero zero xs h = refl
drop-bounded (suc m) zero xs h = absurd (omega (arith, h))
drop-bounded zero (suc n) [] h = refl
drop-bounded (suc m) (suc n) [] h = refl
drop-bounded zero (suc n) (x ∷ xs) h = absurd (omega (arith, h))
drop-bounded (suc m) (suc n) (x ∷ xs) h = drop-bounded m n xs (omega (arith, h))

-- `dequeue_up_to` returns the oldest requests, up to the number that is asked for, in the order in which they came,
-- and leaves the others in theirs; the excess grows by what was taken and falls by the target of two, but not below 0.
-- The counters still agree with the requests, if they did before and stay below 2^64.
pub dequeue_up_to-take :
    (n : ℕ) (q : WithdrawalRequestQueue)
    → Agrees q
    → q.tail < 2 ^ 64
    → q.excess + max_requests < 2 ^ 64
    → (q' : WithdrawalRequestQueue) × (dequeue_up_to n q ≡ ok (take n q.items, q'))
      × (q'.items ≡ drop n q.items)
      × (q'.excess ≡ q.excess + min q.count n - target_requests)
      × Agrees q'
unfolding dequeue_up_to
dequeue_up_to-take n q (c, t, m) b x =
    let k : min q.count n ≡ min (length q.items) n = omega (arith, c) in
    let (q1, d, i, e, (c1, t1, m1)) =
      dequeue_times-take (min q.count n) q q.items refl (c, t, m) (omega (arith, c))
        (omega (arith, b, t)) in
    let len : length (take (min q.count n) q.items) ≡ min q.count n =
      omega (arith, length-take (min q.count n) q.items, c) in
    (
      record q1 { excess = q.excess + min q.count n - target_requests },
      rw (d, len, e, update_excess-sum (min q.count n) q.excess (omega (arith, x, m)))
          (ap (λ z. ok (z, record q1 { excess = q.excess + min q.count n - target_requests }))
            (take-bounded (min q.count n) n q.items k)),
      i ∙ drop-bounded (min q.count n) n q.items k,
      refl,
      (c1, t1, m1),
    )
