-- ===== src/TxPool.antt =====
-- crates/txpool/src/lib.rs: the pool of transactions. The map `all` is an association list with one entry
-- for each key. In `pending` and `queued` a missing entry is the empty list: no operation tells the two
-- apart. The locks are held by one caller at a time, and an event is appended to `events`. A nonce is a
-- `U256`, whose sum panics past 2^256.
mod Maps
pub mod Ordered
pub mod Removal
pub mod Promotion
pub mod Addition
pub mod Size
pub mod Block
pub mod Views
mod Tests
use ethereum_rust.Base.{
  ℕ, ◌+◌, ◌-◌, ◌^◌, Bool, true, false, not, List, [], ◌∷◌, ◌++◌, map, Option, none, some, ltb, leb,
  ◌==◌, if◌then◌else◌, length,
}
unfoldable pub use ethereum_rust.Base.Assoc.{lookup, erase, insert}
use ethereum_rust.Base.Outcome.{M, Outcome, ok, err, panic, stuck}

-- What the pool reads of a `Transaction`, with the fields that `PooledTransaction::new` fills.
pub record PooledTransaction : Type 0 where
  pub hash : ℕ
  pub gas_price : ℕ
  pub sender : ℕ
  pub nonce : ℕ
  pub gas_limit : ℕ
  pub timestamp : ℕ

pub data TxPoolError : Type 0 where
  already_exists nonce_too_low gas_price_too_low pool_full invalid_transaction : TxPoolError
  insufficient_balance gas_limit_exceeded : TxPoolError

pub data TxPoolEvent : Type 0 where
  new_transaction removed promoted : ℕ → TxPoolEvent

pub record TxPoolConfig : Type 0 where
  pub max_size : ℕ
  pub max_account_slots : ℕ
  pub price_limit : ℕ
  pub price_bump : ℕ
  pub account_queue : ℕ
  pub global_queue : ℕ
  pub lifetime : ℕ

-- `PriorityQueue<H256, TxPriority>` of the crate priority-queue.
pub record PriorityQueue : Type 1 where
  pub Heap : Type 0
  pub empty : Heap
  pub push : ℕ → ℕ → Heap → Heap
  pub remove : ℕ → Heap → Heap
  pub peek : Heap → Option (ℕ × ℕ)

-- The entry of one address.
abbrev pub at : {V : Type 0} → ℕ → V → (ℕ → V) → ℕ → V
at address value m a = if a == address then value else m a

-- `txs.retain(|t| t.hash != hash)`
unfoldable pub retain_others : ℕ → List PooledTransaction → List PooledTransaction
retain_others hash [] = []
retain_others hash (t ∷ txs) =
    let rest = retain_others hash txs in if t.hash == hash then rest else t ∷ rest

-- `get_next_nonce`: one more than the last pending nonce, or 0; `none` is the overflow of the sum.
unfoldable pub get_next_nonce : List PooledTransaction → Option ℕ
get_next_nonce [] = some 0
get_next_nonce (t ∷ []) = if ltb (t.nonce + 1) (2 ^ 256) then some (t.nonce + 1) else none
get_next_nonce (t ∷ u ∷ txs) = get_next_nonce (u ∷ txs)

abbrev pub keep_first :
    PooledTransaction
    → Option (List PooledTransaction × List PooledTransaction)
    → Option (List PooledTransaction × List PooledTransaction)
keep_first t none = none
keep_first t (some (moved, kept)) = some (t ∷ moved, kept)

abbrev pub keep_second :
    PooledTransaction
    → Option (List PooledTransaction × List PooledTransaction)
    → Option (List PooledTransaction × List PooledTransaction)
keep_second t none = none
keep_second t (some (moved, kept)) = some (moved, t ∷ kept)

-- The `retain` of `promote_queued`: `next` is `expected_nonce + promoted.len()`.
unfoldable pub promotable :
    ℕ → List PooledTransaction → Option (List PooledTransaction × List PooledTransaction)
promotable next [] = some ([], [])
promotable next (t ∷ txs) = elim (ltb next (2 ^ 256)) [
  | true ↦ elim (t.nonce == next) [
    | true ↦ keep_first t (promotable (next + 1) txs)
    | false ↦ keep_second t (promotable next txs)
  ]
  | false ↦ none
]

module _ (queue : PriorityQueue) where
  pub record TransactionPool : Type 0 where
    pub config : TxPoolConfig
    pub pending : ℕ → List PooledTransaction
    pub queued : ℕ → List PooledTransaction
    pub all : List (ℕ × PooledTransaction)
    pub price_heap : queue.Heap
    pub events : List TxPoolEvent

  abbrev pub PoolM : Type 0 → Type 0
  PoolM = M TransactionPool TxPoolError

  abbrev pub new : TxPoolConfig → TransactionPool
  new config = record {
    config = config;
    pending = λ a. [];
    queued = λ a. [];
    all = [];
    price_heap = queue.empty;
    events = [];
  }

  abbrev pub get_transaction : ℕ → TransactionPool → Option PooledTransaction
  get_transaction hash p = lookup p.all hash

  -- `self.all.write().insert(..)` and `self.price_heap.write().push(..)`
  unfoldable pub index : PooledTransaction → TransactionPool → TransactionPool
  index tx p = record p {
    all = insert tx.hash tx p.all;
    price_heap = queue.push tx.hash tx.gas_price p.price_heap;
  }

  -- The removal from `all` and from `price_heap`.
  unfoldable pub unindex : ℕ → TransactionPool → TransactionPool
  unindex hash p = record p { all = erase hash p.all; price_heap = queue.remove hash p.price_heap }

  unfoldable pub remove_from_lists : PooledTransaction → TransactionPool → TransactionPool
  remove_from_lists tx p = record p {
    pending = at tx.sender (retain_others tx.hash (p.pending tx.sender)) p.pending;
    queued = at tx.sender (retain_others tx.hash (p.queued tx.sender)) p.queued;
  }

  abbrev pub send : TxPoolEvent → TransactionPool → TransactionPool
  send event p = record p { events = p.events ++ (event ∷ []) }

  unfoldable pub move :
      ℕ
      → Option (List PooledTransaction × List PooledTransaction)
      → TransactionPool
      → Option TransactionPool
  move address none p = none
  move address (some (moved, kept)) p = some (record p {
    pending = at address (p.pending address ++ moved) p.pending;
    queued = at address kept p.queued;
    events = p.events ++ map (λ t. promoted t.hash) moved;
  })

  -- `promote_queued` from the expected nonce on; `none` is a panic.
  unfoldable pub promote_from : ℕ → Option ℕ → TransactionPool → Option TransactionPool
  promote_from address none p = none
  promote_from address (some expected_nonce) p =
      move address (promotable expected_nonce (p.queued address)) p

  unfoldable pub promote_queued : ℕ → TransactionPool → Option TransactionPool
  promote_queued address p = promote_from address (get_next_nonce (p.pending address)) p

  unfoldable pub push_pending : PooledTransaction → TransactionPool → TransactionPool
  push_pending tx p = record p {
    pending = at tx.sender (p.pending tx.sender ++ (tx ∷ [])) p.pending;
  }

  unfoldable pub push_queued : PooledTransaction → TransactionPool → TransactionPool
  push_queued tx p = record p { queued = at tx.sender (p.queued tx.sender ++ (tx ∷ [])) p.queued }

  abbrev pub settled : Option TransactionPool → Outcome TransactionPool TxPoolError (Unit {0})
  settled none = panic
  settled (some p) = ok tt p

  -- The place of a transaction by its nonce and the expected one.
  unfoldable pub place :
      PooledTransaction
      → Option ℕ
      → TransactionPool
      → Outcome TransactionPool TxPoolError (Unit {0})
  place tx none p = panic
  place tx (some expected_nonce) p =
      if tx.nonce == expected_nonce
      then settled (promote_queued tx.sender (push_pending tx (index tx p)))
      else if ltb expected_nonce tx.nonce
      then ok tt (push_queued tx (index tx p))
      else err nonce_too_low (unindex tx.hash (index tx p))

  unfoldable pub add_to_pool : PooledTransaction → PoolM (Unit {0})
  add_to_pool tx p = place tx (get_next_nonce (p.pending tx.sender)) p

  -- What `evict_transaction` does with the entry of `all` that it removes.
  unfoldable pub drop_entry :
      ℕ → Option PooledTransaction → TransactionPool → Bool × TransactionPool
  drop_entry hash none p = (false, record p { price_heap = queue.remove hash p.price_heap })
  drop_entry hash (some old_tx) p =
      (true, send (removed hash) (remove_from_lists old_tx (unindex hash p)))

  unfoldable pub evict_top :
      Option (ℕ × ℕ) → PooledTransaction → TransactionPool → Bool × TransactionPool
  evict_top none new_tx p = (false, p)
  evict_top (some (hash, priority)) new_tx p =
      if ltb priority new_tx.gas_price then drop_entry hash (lookup p.all hash) p else (false, p)

  unfoldable pub evict_transaction : PooledTransaction → TransactionPool → Bool × TransactionPool
  evict_transaction new_tx p = evict_top (queue.peek p.price_heap) new_tx p

  unfoldable pub announce :
      ℕ → Outcome TransactionPool TxPoolError (Unit {0}) → Outcome TransactionPool TxPoolError ℕ
  announce hash (ok _ p) = ok hash (send (new_transaction hash) p)
  announce hash (err e p) = err e p
  announce hash panic = panic
  announce hash stuck = stuck

  unfoldable pub add_with_room :
      PooledTransaction → Bool × TransactionPool → Outcome TransactionPool TxPoolError ℕ
  add_with_room tx (false, p) = err pool_full p
  add_with_room tx (true, p) = announce tx.hash (add_to_pool tx p)

  -- The check of the pool's size.
  unfoldable pub make_room : PooledTransaction → TransactionPool → Bool × TransactionPool
  make_room tx p =
      if leb p.config.max_size (length p.all) then evict_transaction tx p else (true, p)

  unfoldable pub add_checked :
      PooledTransaction
      → Option PooledTransaction
      → TransactionPool
      → Outcome TransactionPool TxPoolError ℕ
  add_checked tx (some known) p = err already_exists p
  add_checked tx none p =
      if ltb tx.gas_price p.config.price_limit
      then err gas_price_too_low p
      else add_with_room tx (make_room tx p)

  unfoldable pub add_transaction : PooledTransaction → PoolM ℕ
  add_transaction tx p = add_checked tx (lookup p.all tx.hash) p

  unfoldable pub remove_entry :
      ℕ → Option PooledTransaction → TransactionPool → Option PooledTransaction × TransactionPool
  remove_entry hash none p = (none, p)
  remove_entry hash (some tx) p =
      (some tx, send (removed hash) (remove_from_lists tx (unindex hash p)))

  unfoldable pub remove_transaction :
      ℕ → TransactionPool → Option PooledTransaction × TransactionPool
  remove_transaction hash p = remove_entry hash (lookup p.all hash) p

  unfoldable pub clear : TransactionPool → TransactionPool
  clear p = record p { pending = λ a. []; queued = λ a. []; all = []; price_heap = queue.empty }

  abbrev pub total_count : TransactionPool → ℕ
  total_count p = length p.all

  -- The hashes that a round of `run_maintenance` finds expired.
  unfoldable pub expired : ℕ → ℕ → List (ℕ × PooledTransaction) → List ℕ
  expired now lifetime [] = []
  expired now lifetime ((hash, tx) ∷ rest) =
      let others = expired now lifetime rest in
      if ltb lifetime (now - tx.timestamp) then hash ∷ others else others

  unfoldable pub remove_all : List ℕ → TransactionPool → TransactionPool
  remove_all [] p = p
  remove_all (hash ∷ hashes) p = remove_all hashes (remove_transaction hash p).1

  -- One round of `run_maintenance`; `duration_since` stops at 0.
  unfoldable pub maintain : ℕ → TransactionPool → TransactionPool
  maintain now p = remove_all (expired now p.config.lifetime p.all) p
