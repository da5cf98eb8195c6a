-- ===== src/TxPool/Views.antt =====
-- crates/txpool/src/lib.rs: the readers of the pool. A map of the model has no list of its keys, so the
-- readers that go through `values()` take `addresses`, the keys of that map in its order.
use ethereum_rust.Base.{ℕ, ◌+◌, ◌≡◌, refl, arith, List, [], ◌∷◌, ◌++◌, length, length-append}
use ethereum_rust.TxPool.{PriorityQueue, PooledTransaction, TransactionPool, clear}

abbrev pub effective_gas_price : PooledTransaction → ℕ
effective_gas_price tx = tx.gas_price

-- `result.extend(..)` for the list of every address.
unfoldable pub collect : (ℕ → List PooledTransaction) → List ℕ → List PooledTransaction
collect m [] = []
collect m (address ∷ addresses) = m address ++ collect m addresses

unfoldable pub count : (ℕ → List PooledTransaction) → List ℕ → ℕ
count m [] = 0
count m (address ∷ addresses) = length (m address) + count m addresses

count-collect :
    (m : ℕ → List PooledTransaction) (addresses : List ℕ)
    → length (collect m addresses) ≡ count m addresses
unfolding collect count
count-collect m [] = refl
count-collect m (address ∷ addresses) =
    omega (arith, length-append (m address) (collect m addresses), count-collect m addresses)

module _ (queue : PriorityQueue) where
  abbrev pub get_pending : List ℕ → TransactionPool queue → List PooledTransaction
  get_pending addresses p = collect p.pending addresses

  abbrev pub get_queued : List ℕ → TransactionPool queue → List PooledTransaction
  get_queued addresses p = collect p.queued addresses

  abbrev pub get_pending_by_address : ℕ → TransactionPool queue → List PooledTransaction
  get_pending_by_address address p = p.pending address

  abbrev pub get_queued_by_address : ℕ → TransactionPool queue → List PooledTransaction
  get_queued_by_address address p = p.queued address

  abbrev pub pending_count : List ℕ → TransactionPool queue → ℕ
  pending_count addresses p = count p.pending addresses

  abbrev pub queued_count : List ℕ → TransactionPool queue → ℕ
  queued_count addresses p = count p.queued addresses

  -- The counts are the lengths of the lists that the readers return.
  length-get_pending :
      (addresses : List ℕ) (p : TransactionPool queue)
      → (length (get_pending addresses p) ≡ pending_count addresses p)
        × (length (get_queued addresses p) ≡ queued_count addresses p)
  length-get_pending addresses p =
      (count-collect p.pending addresses, count-collect p.queued addresses)

  collect_nothing : (addresses : List ℕ) → collect (λ a. []) addresses ≡ []
  unfolding collect
  collect_nothing [] = refl
  collect_nothing (address ∷ addresses) = collect_nothing addresses

  -- Nothing is pending or queued after `clear`.
  get_pending-clear :
      (addresses : List ℕ) (p : TransactionPool queue)
      → (get_pending addresses (clear queue p) ≡ []) × (get_queued addresses (clear queue p) ≡ [])
  unfolding clear
  get_pending-clear addresses p = (collect_nothing addresses, collect_nothing addresses)
