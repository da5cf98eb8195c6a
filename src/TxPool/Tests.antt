-- ===== src/TxPool/Tests.antt =====
-- Runs of the pool, and its theorems at concrete inputs.
use ethereum_rust.Base.{
  ℕ, ◌≤◌, ◌≡◌, ◌≢◌, ◌++◌, refl, List, [], ◌∷◌, Option, none, some, arith, ltb, if◌then◌else◌, All,
}
use ethereum_rust.Base.Outcome.{Outcome, ok, err, panic, stuck}
use ethereum_rust.Base.Sorting.{sort_by, insert_by, Falling}
use ethereum_rust.TxPool
use ethereum_rust.TxPool.{
  PooledTransaction, TxPoolConfig, TxPoolError, PriorityQueue, TransactionPool, removed, lookup,
  erase, insert, retain_others, get_next_nonce, promotable, index, unindex, push_pending,
  push_queued, move, promote_from, promote_queued, place, add_to_pool, announce, add_with_room,
  make_room, add_checked, add_transaction, drop_entry, evict_top, evict_transaction,
  remove_from_lists, remove_transaction, remove_entry, get_transaction, total_count, maintain,
  expired, remove_all,
}
use ethereum_rust.TxPool.Ordered.{WellFormed, new-WellFormed}
use ethereum_rust.TxPool.Removal.{get_transaction-remove_transaction}
use ethereum_rust.TxPool.Addition.{Keeps, add_transaction-WellFormed}
use ethereum_rust.TxPool.Size.{Bounded, add_transaction-Bounded, get_transaction-add_transaction}
use ethereum_rust.TxPool.Block.{
  get_transactions_for_block, sort_by_price, price, fill, chosen, gas_of,
  get_transactions_for_block_fits,
}

-- The entry with the greatest priority.
unfoldable greatest : List (ℕ × ℕ) → Option (ℕ × ℕ)
greatest [] = none
greatest ((h, p) ∷ rest) = elim (greatest rest) [
  | none ↦ some (h, p)
  | some (k, q) ↦ if ltb p q then some (k, q) else some (h, p)
]

abbrev list_queue : PriorityQueue
list_queue = record {
  Heap = List (ℕ × ℕ);
  empty = [];
  push = insert;
  remove = erase;
  peek = greatest;
}

abbrev config : TxPoolConfig
config = record {
  max_size = 3;
  max_account_slots = 16;
  price_limit = 10;
  price_bump = 10;
  account_queue = 64;
  global_queue = 1024;
  lifetime = 10800;
}

abbrev transaction : ℕ → ℕ → ℕ → PooledTransaction
transaction hash nonce gas_price = record {
  hash = hash;
  gas_price = gas_price;
  sender = 5;
  nonce = nonce;
  gas_limit = 21000;
  timestamp = 0;
}

abbrev second : PooledTransaction
second = transaction 101 1 20

abbrev first : PooledTransaction
first = transaction 100 0 30

abbrev pool : TransactionPool list_queue
pool = TxPool.new list_queue config

abbrev after :
    {A : Type 0} → Outcome (TransactionPool list_queue) TxPoolError A → TransactionPool list_queue
after (ok a p) = p
after (err e p) = p
after panic = pool
after stuck = pool

abbrev waiting : TransactionPool list_queue
waiting = after (add_transaction list_queue second pool)

abbrev both : TransactionPool list_queue
both = after (add_transaction list_queue first waiting)

waiting_queued : waiting.queued 5 ≡ second ∷ []
unfolding add_transaction add_checked add_with_room make_room add_to_pool place announce index
    push_queued lookup insert erase get_next_nonce
waiting_queued = refl

-- The first transaction takes the waiting one along.
both_pending : both.pending 5 ≡ first ∷ second ∷ []
unfolding add_transaction add_checked add_with_room make_room add_to_pool place announce index
    push_queued push_pending promote_queued promote_from move promotable lookup insert erase
    get_next_nonce
both_pending = refl

waiting-WellFormed : WellFormed waiting
unfolding add_transaction add_checked add_with_room make_room add_to_pool place announce index
    push_queued lookup insert erase get_next_nonce
waiting-WellFormed = add_transaction-WellFormed pool second (new-WellFormed list_queue config)

add_transaction-WellFormed_example : Keeps (add_transaction list_queue first waiting)
add_transaction-WellFormed_example = add_transaction-WellFormed waiting first waiting-WellFormed

get_transaction-remove_transaction_example :
    (found : Option PooledTransaction) × (p' : TransactionPool list_queue) × (remove_transaction
        list_queue 101 waiting
      ≡ (found, p'))
    × (found ≡ get_transaction list_queue 101 waiting)
    × (get_transaction list_queue 101 p' ≡ none)
    × ((other : ℕ)
        → other ≢ 101
        → get_transaction list_queue other p' ≡ get_transaction list_queue other waiting)
    × ((a : ℕ) → All (λ t. t.hash ≢ 101) (p'.pending a) × All (λ t. t.hash ≢ 101) (p'.queued a))
    × WellFormed p'
    × (p'.events ≡ elim (get_transaction list_queue 101 waiting) [
      | none ↦ waiting.events
      | some t ↦ waiting.events ++ (removed 101 ∷ [])
    ])
get_transaction-remove_transaction_example =
    get_transaction-remove_transaction waiting 101 waiting-WellFormed

add_transaction-Bounded_example : Bounded (add_transaction list_queue second pool)
add_transaction-Bounded_example = add_transaction-Bounded pool second (omega arith)

get_transaction-add_transaction_example :
    (101 ≡ second.hash) × (get_transaction list_queue 101 waiting ≡ some second)
unfolding add_transaction add_checked add_with_room make_room add_to_pool place announce index
    push_queued lookup insert erase get_next_nonce
get_transaction-add_transaction_example =
    get_transaction-add_transaction pool waiting second 101 refl

abbrev Sends : PooledTransaction → Type 0
Sends t = t.sender ≡ 5

abbrev block : List PooledTransaction
block = first ∷ []

get_transactions_for_block_fits_example :
    (gas_of block ≤ 30000) × (Falling price block × All Sends block)
unfolding get_transactions_for_block sort_by_price sort_by insert_by fill chosen
get_transactions_for_block_fits_example =
    get_transactions_for_block_fits Sends 30000 (second ∷ first ∷ []) block (refl, (refl, tt)) refl
