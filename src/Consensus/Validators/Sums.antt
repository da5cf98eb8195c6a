-- ===== src/Consensus/Validators/Sums.antt =====
-- crates/consensus/src/eip7251.rs: what a consolidation does to the balances of the registry.
use ethereum_rust.Base.{
  ℕ, zero, suc, ◌+◌, ◌^◌, ◌<◌, ◌≡◌, ◌≢◌, refl, ◌∙◌, ap, true, List, [], ◌∷◌, some, arith, ltb,
  lt→ltb, Bool-cases, inl, inr, length, get_elem?, set,
}
use ethereum_rust.Base.Outcome.{Outcome, ok, err, panic, stuck}
use ethereum_rust.Consensus.Validators.{
  Eip7251Error, Validator, add_u256, cap_added, add_balance, is_compounding,
  get_max_effective_balance, initiate_exit,
}
use ethereum_rust.Consensus.Validators.Registry.{
  ValidatorRegistry, increase_balance, position, ConsolidationRequest, process, compound,
  get_validator,
}

abbrev pub sum : List ℕ → ℕ
sum [] = 0
sum (b ∷ bs) = b + sum bs

some-injective : {a b : ℕ} → some a ≡ some b → a ≡ b
some-injective h = cc h

sum-set : (bs : List ℕ) (i b d : ℕ) → get_elem? bs i ≡ some b → sum (set bs i (b + d)) ≡ sum bs + d
sum-set [] i b d h = absurd (cc h)
sum-set (a ∷ bs) zero b d h = omega (arith, some-injective h)
sum-set (a ∷ bs) (suc i) b d h = omega (arith, sum-set bs i b d h)

get_elem?-set_other : (bs : List ℕ) (i j b : ℕ) → i ≢ j → get_elem? (set bs j b) i ≡ get_elem? bs i
get_elem?-set_other [] i j b n = refl
get_elem?-set_other (a ∷ bs) zero zero b n = absurd (n refl)
get_elem?-set_other (a ∷ bs) zero (suc j) b n = refl
get_elem?-set_other (a ∷ bs) (suc i) zero b n = refl
get_elem?-set_other (a ∷ bs) (suc i) (suc j) b n = get_elem?-set_other bs i j b (λ e. n (ap suc e))

get_elem?-set_same :
    {A : Type 0} (xs : List A) (i : ℕ) (x y : A)
    → get_elem? xs i ≡ some x
    → get_elem? (set xs i y) i ≡ some y
get_elem?-set_same [] i x y h = absurd (cc h)
get_elem?-set_same (a ∷ xs) zero x y h = refl
get_elem?-set_same (a ∷ xs) (suc i) x y h = get_elem?-set_same xs i x y h

in_range : {A : Type 0} (xs : List A) (i : ℕ) (x : A) → get_elem? xs i ≡ some x → i < length xs
in_range [] i x h = absurd (cc h)
in_range (a ∷ xs) zero x h = omega arith
in_range (a ∷ xs) (suc i) x h = omega (arith, in_range xs i x h)

cap_added-is_compounding :
    (b m : ℕ) (v : Validator) → is_compounding (cap_added b m v) ≡ is_compounding v
unfolding cap_added is_compounding
cap_added-is_compounding b m v = elim (Bool-cases (ltb m b)) [
  | inl h ↦ rw h refl
  | inr h ↦ rw h refl
]

increase_balance-run :
    (s : ValidatorRegistry) (j b d : ℕ) (t : Validator)
    → get_elem? s.balances j ≡ some d
    → get_elem? s.validators j ≡ some t
    → d + b < 2 ^ 256
    → t.effective_balance + b < 2 ^ 256
    → increase_balance j b s
      ≡ ok tt (record {
        validators =
            set s.validators j
              (cap_added (t.effective_balance + b) (get_max_effective_balance t) t);
        balances = set s.balances j (d + b);
      })
unfolding increase_balance add_balance add_u256
increase_balance-run s j b d t hd ht l m =
    rw
      (
        lt→ltb j (length s.balances) (in_range s.balances j d hd),
        hd,
        lt→ltb (d + b) (2 ^ 256) l,
        ht,
        lt→ltb (t.effective_balance + b) (2 ^ 256) m,
      )
      refl

-- What is left to do after the balance is increased.
abbrev finish :
    ℕ
    → Outcome ValidatorRegistry Eip7251Error (Unit {0})
    → Outcome ValidatorRegistry Eip7251Error (Unit {0})
finish j (ok a s) = compound j (get_validator j s) s
finish j (err e s) = err e s
finish j panic = panic
finish j stuck = stuck

-- A consolidation into another validator that compounds adds the source's balance to the target's and leaves the
-- source's as it is, so that the sum of all balances grows by the source's balance.
pub process_doubles :
    (c : ConsolidationRequest) (r : ValidatorRegistry) (i j b d : ℕ) (v t : Validator)
    → i ≢ j
    → position c.source_pubkey r.validators ≡ some i
    → position c.target_pubkey r.validators ≡ some j
    → get_elem? r.balances i ≡ some b
    → get_elem? r.balances j ≡ some d
    → get_elem? r.validators i ≡ some v
    → get_elem? (set r.validators i (initiate_exit 0 v)) j ≡ some t
    → is_compounding t ≡ true
    → d + b < 2 ^ 256
    → t.effective_balance + b < 2 ^ 256
    → (r' : ValidatorRegistry) × (process c r ≡ ok tt r')
      × (get_elem? r'.balances i ≡ some b)
      × (get_elem? r'.balances j ≡ some (d + b))
      × (sum r'.balances ≡ sum r.balances + b)
unfolding process
process_doubles c r i j b d v t n p q hb hd hv ht k l m =
    let vs = set r.validators i (initiate_exit 0 v) in
    let t' = cap_added (t.effective_balance + b) (get_max_effective_balance t) t in
    (
      record { validators = set vs j t'; balances = set r.balances j (d + b) },
      rw (p, q, hb, hv)
          (ap (finish j) (
              increase_balance-run (record { validators = vs; balances = r.balances }) j b d t hd ht
                l m)
            ∙ rw
                (
                  get_elem?-set_same vs j t t' ht,
                  cap_added-is_compounding (t.effective_balance + b) (get_max_effective_balance t)
                      t,
                  k,
                )
                refl),
      get_elem?-set_other r.balances i j (d + b) n ∙ hb,
      get_elem?-set_same r.balances j d (d + b) hd,
      sum-set r.balances j d b hd,
    )
