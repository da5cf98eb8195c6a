-- ===== src/TxPool/Block.antt =====
-- crates/txpool/src/lib.rs: `get_transactions_for_block`. The pending transactions come in the order in
-- which the map is iterated, which is an argument.
use ethereum_rust.Base.{
  ℕ, ◌+◌, ◌^◌, ◌≤◌, ◌≡◌, subst, List, [], ◌∷◌, Option, none, some, arith, ltb, leb, leb→le,
  if◌then◌else◌, All,
}
use ethereum_rust.Base.Sorting.{sort_by, Falling, AtMost, choose, sort_by-Falling, sort_by-All}
use ethereum_rust.TxPool.{PooledTransaction}

abbrev pub price : PooledTransaction → ℕ
price t = t.gas_price

-- `txs_by_price.sort_by(|a, b| b.gas_price.cmp(&a.gas_price))`
unfoldable pub sort_by_price : List PooledTransaction → List PooledTransaction
sort_by_price txs = sort_by price txs

unfoldable pub chosen :
    PooledTransaction → Option (List PooledTransaction) → Option (List PooledTransaction)
chosen t none = none
chosen t (some txs) = some (t ∷ txs)

-- The loop: `none` is a panic, the overflow of the sum of gas.
unfoldable pub fill : ℕ → ℕ → List PooledTransaction → Option (List PooledTransaction)
fill gas_limit total_gas [] = some []
fill gas_limit total_gas (t ∷ txs) =
    let rest = fill gas_limit (total_gas + t.gas_limit) txs in
    if ltb (total_gas + t.gas_limit) (2 ^ 256)
    then if leb (total_gas + t.gas_limit) gas_limit then chosen t rest else some []
    else none

unfoldable pub get_transactions_for_block :
    ℕ → List PooledTransaction → Option (List PooledTransaction)
get_transactions_for_block gas_limit values = fill gas_limit 0 (sort_by_price values)

unfoldable pub gas_of : List PooledTransaction → ℕ
gas_of [] = 0
gas_of (t ∷ txs) = t.gas_limit + gas_of txs

-- What the loop returns: it fits in the rest of the gas, it is sorted, and it keeps what all had.
Fills : (PooledTransaction → Type 0) → ℕ → ℕ → Option (List PooledTransaction) → Type 0
Fills P gas_limit total none = Unit {0}
Fills P gas_limit total (some txs) =
    (total + gas_of txs ≤ gas_limit) × (Falling price txs × All P txs)

chosen-Fills :
    (P : PooledTransaction → Type 0) (limit total : ℕ) (t : PooledTransaction)
    (o : Option (List PooledTransaction))
    → P t
    → Fills P limit (total + t.gas_limit) o
    → Fills (AtMost price t.gas_price) limit (total + t.gas_limit) o
    → Fills P limit total (chosen t o)
unfolding Fills chosen gas_of
chosen-Fills P limit total t none h k l = tt
chosen-Fills P limit total t (some txs) h (g, (s, a)) (_, (_, d)) =
    (omega (arith, g), ((d, s), (h, a)))

fill-Fills :
    (P : PooledTransaction → Type 0) (limit total : ℕ) (txs : List PooledTransaction)
    → total ≤ limit
    → Falling price txs
    → All P txs
    → Fills P limit total (fill limit total txs)
unfolding fill Fills gas_of
fill-Fills P limit total [] l s h = (omega arith, (tt, tt))
fill-Fills P limit total (t ∷ txs) l s h =
    let more = total + t.gas_limit in
    choose (Fills P limit total) (ltb more (2 ^ 256))
      (if leb more limit then chosen t (fill limit more txs) else some []) none
      (λ _.
        choose (Fills P limit total) (leb more limit) (chosen t (fill limit more txs)) (some [])
          (λ e.
            let fits = leb→le more limit e in
            chosen-Fills P limit total t (fill limit more txs) h.0
              (fill-Fills P limit more txs fits s.1 h.1)
              (fill-Fills (AtMost price t.gas_price) limit more txs fits s.1 s.0))
          (λ _. (omega arith, (tt, tt))))
      (λ _. tt)

Fills-some :
    (P : PooledTransaction → Type 0) (limit : ℕ) (o : Option (List PooledTransaction))
    (block : List PooledTransaction)
    → o ≡ some block
    → Fills P limit 0 o
    → (gas_of block ≤ limit) × (Falling price block × All P block)
unfolding Fills
Fills-some P limit o block e h =
    let (g, (s, a)) = subst (Fills P limit 0) e h in (omega (arith, g), (s, a))

-- The block that is chosen for a gas limit: the gas limits of its transactions sum to at most it, the
-- gas prices fall along it, and what holds of all pending transactions holds of all of the block.
pub get_transactions_for_block_fits :
    (P : PooledTransaction → Type 0) (gas_limit : ℕ) (values block : List PooledTransaction)
    → All P values
    → get_transactions_for_block gas_limit values ≡ some block
    → (gas_of block ≤ gas_limit) × (Falling price block × All P block)
unfolding get_transactions_for_block sort_by_price
get_transactions_for_block_fits P gas_limit values block h e =
    Fills-some P gas_limit (fill gas_limit 0 (sort_by_price values)) block e (
      fill-Fills P gas_limit 0 (sort_by_price values) (omega arith) (sort_by-Falling price values)
        (sort_by-All price P values h))
