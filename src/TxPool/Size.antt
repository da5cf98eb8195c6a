-- ===== src/TxPool/Size.antt =====
-- crates/txpool/src/lib.rs: what `add_transaction` stores, and that the pool stays within `max_size`.
use ethereum_rust.Base.{
  ℕ, suc, ◌≤◌, ◌<◌, ◌≡◌, refl, subst, ap, ◌∙◌, Bool, true, false, List, Option, none, some, arith,
  ltb, leb, if◌then◌else◌, length,
}
use ethereum_rust.Base.Outcome.{Outcome, ok, err, panic, stuck}
use ethereum_rust.TxPool.{
  PooledTransaction, TxPoolConfig, PriorityQueue, TransactionPool, TxPoolError, lookup, erase,
  insert, get_next_nonce, promotable, get_transaction, index, unindex, push_pending, push_queued,
  move, promote_from, promote_queued, settled, place, add_to_pool, announce, add_with_room,
  make_room, add_checked, add_transaction, drop_entry, evict_top, evict_transaction,
  remove_from_lists, nonce_too_low, gas_price_too_low, total_count,
}
use ethereum_rust.TxPool.Maps.{if_rule, lookup-insert_same, length-erase, length-erase_found}

inserted_length :
    (all : List (ℕ × PooledTransaction)) (tx : PooledTransaction)
    → length (insert tx.hash tx all) ≤ suc (length all)
unfolding insert
inserted_length all tx = omega (arith, length-erase tx.hash all)

not_full : (n max_size : ℕ) → leb max_size n ≡ false → n < max_size
not_full n max_size h = ground (arith, h)

module _ {queue : PriorityQueue} where
  -- What happens to `all`: a transaction is stored, or an error leaves no more than there was.
  Stores :
      {A : Type 0}
      → PooledTransaction
      → TransactionPool queue
      → Outcome (TransactionPool queue) TxPoolError A
      → Type 0
  Stores tx p (ok a q) = (q.all ≡ insert tx.hash tx p.all) × (q.config ≡ p.config)
  Stores tx p (err e q) = (length q.all ≤ length p.all) × (q.config ≡ p.config)
  Stores tx p panic = Unit {0}
  Stores tx p stuck = ⊥

  Same : TransactionPool queue → Option (TransactionPool queue) → Type 0
  Same p none = Unit {0}
  Same p (some q) = (q.all ≡ p.all) × (q.config ≡ p.config)

  move-Same :
      (p : TransactionPool queue) (a : ℕ)
      (o : Option (List PooledTransaction × List PooledTransaction))
      → Same p (move queue a o p)
  unfolding move Same
  move-Same p a none = tt
  move-Same p a (some (moved, kept)) = (refl, refl)

  promote_from-Same :
      (p : TransactionPool queue) (a : ℕ) (o : Option ℕ) → Same p (promote_from queue a o p)
  unfolding promote_from Same
  promote_from-Same p a none = tt
  promote_from-Same p a (some next) = move-Same p a (promotable next (p.queued a))

  settled-Stores :
      (tx : PooledTransaction) (p q : TransactionPool queue) (o : Option (TransactionPool queue))
      → (q.all ≡ insert tx.hash tx p.all) × (q.config ≡ p.config)
      → Same q o
      → Stores tx p (settled queue o)
  unfolding Same Stores
  settled-Stores tx p q none h k = tt
  settled-Stores tx p q (some r) h k = (k.0 ∙ h.0, k.1 ∙ h.1)

  Stores-if :
      {A : Type 0} (tx : PooledTransaction) (p : TransactionPool queue) (b : Bool)
      (x y : Outcome (TransactionPool queue) TxPoolError A)
      → Stores tx p x
      → Stores tx p y
      → Stores tx p (if b then x else y)
  Stores-if tx p true x y h k = h
  Stores-if tx p false x y h k = k

  unindexed_length :
      (p : TransactionPool queue) (tx : PooledTransaction)
      → length (erase tx.hash (insert tx.hash tx p.all)) ≤ length p.all
  unindexed_length p tx =
      let less =
        length-erase_found tx.hash tx (insert tx.hash tx p.all)
          (lookup-insert_same tx.hash tx p.all) in
      omega (arith, less, inserted_length p.all tx)

  place-Stores :
      (p : TransactionPool queue) (tx : PooledTransaction) (o : Option ℕ)
      → Stores tx p (place queue tx o p)
  unfolding place Stores index unindex push_pending push_queued promote_queued
  place-Stores p tx none = tt
  place-Stores p tx (some next) =
      let placed = push_pending queue tx (index queue tx p) in
      if_rule (Stores tx p) tx.nonce next
        (λ q.
          settled-Stores tx p placed (promote_queued queue tx.sender placed) (refl, refl)
            (promote_from-Same placed tx.sender (get_next_nonce (placed.pending tx.sender))))
        (λ q.
          Stores-if tx p (ltb next tx.nonce) (ok tt (push_queued queue tx (index queue tx p)))
            (err nonce_too_low (unindex queue tx.hash (index queue tx p))) (refl, refl)
            (unindexed_length p tx, refl))

  announce-Stores :
      (tx : PooledTransaction) (p : TransactionPool queue) (hash : ℕ)
      (o : Outcome (TransactionPool queue) TxPoolError (Unit {0}))
      → Stores tx p o
      → Stores tx p (announce queue hash o)
  unfolding announce Stores
  announce-Stores tx p hash (ok _ q) h = h
  announce-Stores tx p hash (err e q) h = h
  announce-Stores tx p hash panic h = tt
  announce-Stores tx p hash stuck h = h

  -- What `make_room` leaves in a pool that is not over its size.
  Roomy : TransactionPool queue → Bool × TransactionPool queue → Type 0
  Roomy p (true, q) = (length q.all < p.config.max_size) × (q.config ≡ p.config)
  Roomy p (false, q) = (length q.all ≤ length p.all) × (q.config ≡ p.config)

  drop_entry-Roomy :
      (p : TransactionPool queue) (hash : ℕ) (o : Option PooledTransaction)
      → length p.all ≤ p.config.max_size
      → lookup p.all hash ≡ o
      → Roomy p (drop_entry queue hash o p)
  unfolding Roomy drop_entry unindex remove_from_lists
  drop_entry-Roomy p hash none h e = (omega arith, refl)
  drop_entry-Roomy p hash (some old) h e =
      (omega (arith, length-erase_found hash old p.all e), refl)

  Roomy-if :
      (p : TransactionPool queue) (b : Bool) (x y : Bool × TransactionPool queue)
      → Roomy p x
      → (b ≡ false → Roomy p y)
      → Roomy p (if b then x else y)
  Roomy-if p true x y h k = h
  Roomy-if p false x y h k = k refl

  evict_top-Roomy :
      (p : TransactionPool queue) (tx : PooledTransaction) (o : Option (ℕ × ℕ))
      → length p.all ≤ p.config.max_size
      → Roomy p (evict_top queue o tx p)
  unfolding evict_top Roomy
  evict_top-Roomy p tx none h = (omega arith, refl)
  evict_top-Roomy p tx (some (hash, priority)) h =
      Roomy-if p (ltb priority tx.gas_price) (drop_entry queue hash (lookup p.all hash) p)
        (false, p) (drop_entry-Roomy p hash (lookup p.all hash) h refl) (λ _. (omega arith, refl))

  make_room-Roomy :
      (p : TransactionPool queue) (tx : PooledTransaction)
      → length p.all ≤ p.config.max_size
      → Roomy p (make_room queue tx p)
  unfolding make_room evict_transaction Roomy
  make_room-Roomy p tx h =
      Roomy-if p (leb p.config.max_size (length p.all)) (evict_transaction queue tx p) (true, p)
        (evict_top-Roomy p tx (queue.peek p.price_heap) h)
        (λ e. (not_full (length p.all) p.config.max_size e, refl))

  abbrev pub Bounded : {A : Type 0} → Outcome (TransactionPool queue) TxPoolError A → Type 0
  Bounded (ok a q) = total_count queue q ≤ q.config.max_size
  Bounded (err e q) = total_count queue q ≤ q.config.max_size
  Bounded panic = Unit {0}
  Bounded stuck = ⊥

  stored-Bounded :
      {A : Type 0} (tx : PooledTransaction) (p : TransactionPool queue)
      (o : Outcome (TransactionPool queue) TxPoolError A)
      → length p.all < p.config.max_size
      → Stores tx p o
      → Bounded o
  unfolding Stores
  stored-Bounded tx p (ok a q) h (e, c) = omega (
    arith,
    h,
    ap (λ (m : List (ℕ × PooledTransaction)). length m) e,
    inserted_length p.all tx,
    ap (λ (k : TxPoolConfig). k.max_size) c,
  )
  stored-Bounded tx p (err x q) h (e, c) =
      omega (arith, h, e, ap (λ (k : TxPoolConfig). k.max_size) c)
  stored-Bounded tx p panic h e = tt
  stored-Bounded tx p stuck h e = e

  add_to_pool-Stores :
      (p : TransactionPool queue) (tx : PooledTransaction) → Stores tx p (add_to_pool queue tx p)
  unfolding add_to_pool
  add_to_pool-Stores p tx = place-Stores p tx (get_next_nonce (p.pending tx.sender))

  add_with_room-Bounded :
      (p : TransactionPool queue) (tx : PooledTransaction) (r : Bool × TransactionPool queue)
      → length p.all ≤ p.config.max_size
      → Roomy p r
      → Bounded (add_with_room queue tx r)
  unfolding add_with_room Roomy
  add_with_room-Bounded p tx (false, q) h (l, c) =
      omega (arith, h, l, ap (λ (k : TxPoolConfig). k.max_size) c)
  add_with_room-Bounded p tx (true, q) h (l, c) =
      stored-Bounded tx q (announce queue tx.hash (add_to_pool queue tx q))
        (omega (arith, l, ap (λ (k : TxPoolConfig). k.max_size) c))
        (announce-Stores tx q tx.hash (add_to_pool queue tx q) (add_to_pool-Stores q tx))

  Bounded-if :
      {A : Type 0} (b : Bool) (x y : Outcome (TransactionPool queue) TxPoolError A)
      → Bounded x
      → Bounded y
      → Bounded (if b then x else y)
  Bounded-if true x y h k = h
  Bounded-if false x y h k = k

  add_checked-Bounded :
      (p : TransactionPool queue) (tx : PooledTransaction) (o : Option PooledTransaction)
      → length p.all ≤ p.config.max_size
      → Bounded (add_checked queue tx o p)
  unfolding add_checked
  add_checked-Bounded p tx (some known) h = h
  add_checked-Bounded p tx none h =
      Bounded-if (ltb tx.gas_price p.config.price_limit) (err gas_price_too_low p)
        (add_with_room queue tx (make_room queue tx p)) h
        (add_with_room-Bounded p tx (make_room queue tx p) h (make_room-Roomy p tx h))

  -- A pool that holds at most `max_size` transactions holds at most that many after `add_transaction`,
  -- whether it returns the hash or an error.
  pub add_transaction-Bounded :
      (p : TransactionPool queue) (tx : PooledTransaction)
      → total_count queue p ≤ p.config.max_size
      → Bounded (add_transaction queue tx p)
  unfolding add_transaction
  add_transaction-Bounded p tx h = add_checked-Bounded p tx (lookup p.all tx.hash) h

  -- A successful outcome has the transaction under its hash.
  Found : PooledTransaction → Outcome (TransactionPool queue) TxPoolError ℕ → Type 0
  Found tx (ok hash q) = (hash ≡ tx.hash) × (lookup q.all tx.hash ≡ some tx)
  Found tx _ = Unit {0}

  announce-Found :
      (tx : PooledTransaction) (p : TransactionPool queue)
      (o : Outcome (TransactionPool queue) TxPoolError (Unit {0}))
      → Stores tx p o
      → Found tx (announce queue tx.hash o)
  unfolding announce Stores Found
  announce-Found tx p (ok _ q) (e, c) = (
    refl,
    ap (λ (m : List (ℕ × PooledTransaction)). lookup m tx.hash) e
        ∙ lookup-insert_same tx.hash tx p.all,
  )
  announce-Found tx p (err e q) h = tt
  announce-Found tx p panic h = tt
  announce-Found tx p stuck h = tt

  add_with_room-Found :
      (tx : PooledTransaction) (r : Bool × TransactionPool queue)
      → Found tx (add_with_room queue tx r)
  unfolding add_with_room Found
  add_with_room-Found tx (false, p) = tt
  add_with_room-Found tx (true, p) =
      announce-Found tx p (add_to_pool queue tx p) (add_to_pool-Stores p tx)

  Found-if :
      (tx : PooledTransaction) (b : Bool) (x y : Outcome (TransactionPool queue) TxPoolError ℕ)
      → Found tx x
      → Found tx y
      → Found tx (if b then x else y)
  Found-if tx true x y h k = h
  Found-if tx false x y h k = k

  add_checked-Found :
      (p : TransactionPool queue) (tx : PooledTransaction) (o : Option PooledTransaction)
      → Found tx (add_checked queue tx o p)
  unfolding add_checked Found
  add_checked-Found p tx (some known) = tt
  add_checked-Found p tx none =
      Found-if tx (ltb tx.gas_price p.config.price_limit) (err gas_price_too_low p)
        (add_with_room queue tx (make_room queue tx p)) tt
        (add_with_room-Found tx (make_room queue tx p))

  -- Where `add_transaction` succeeds, it returns the transaction's hash, and `get_transaction` finds the
  -- transaction under it.
  pub get_transaction-add_transaction :
      (p q : TransactionPool queue) (tx : PooledTransaction) (hash : ℕ)
      → add_transaction queue tx p ≡ ok hash q
      → (hash ≡ tx.hash) × (get_transaction queue tx.hash q ≡ some tx)
  unfolding add_transaction Found
  get_transaction-add_transaction p q tx hash e =
      subst (Found tx) e (add_checked-Found p tx (lookup p.all tx.hash))
