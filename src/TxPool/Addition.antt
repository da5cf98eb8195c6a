-- ===== src/TxPool/Addition.antt =====
-- crates/txpool/src/lib.rs: `add_transaction` keeps the pool well formed.
use ethereum_rust.Base.{
  ℕ, ◌≡◌, refl, sym, subst, ap, ◌∙◌, Bool, true, false, List, [], ◌∷◌, ◌++◌, Option, none, some,
  ltb, leb, if◌then◌else◌, length, All, inl, inr,
}
use ethereum_rust.Base.Outcome.{Outcome, ok, err, panic, stuck}
use ethereum_rust.TxPool.{
  PooledTransaction, PriorityQueue, TransactionPool, TxPoolError, lookup, erase, get_next_nonce,
  promotable, index, unindex, push_pending, push_queued, move, promote_from, promote_queued,
  settled, place, add_to_pool, announce, add_with_room, make_room, add_checked, add_transaction,
  new_transaction, evict_transaction, nonce_too_low, gas_price_too_low, drop_entry, evict_top,
  remove_from_lists,
}
use ethereum_rust.TxPool.Maps.{
  if_rule, at_rule, lookup-insert_same, lookup-erase_same, lookup-erase_other,
}
use ethereum_rust.TxPool.Ordered.{Rising, Held, WellFormed, append-Rising, All-append}
use ethereum_rust.TxPool.Removal.{if_keeps, same_or_not, send_keeps, evict_transaction-WellFormed}
use ethereum_rust.TxPool.Promotion.{
  Splits, promotable-Splits, index-Held, insert-keyed, unindex-Held, unindex-keyed,
}

module _ {queue : PriorityQueue} where
  index-WellFormed :
      (p : TransactionPool queue) (tx : PooledTransaction)
      → WellFormed p
      → lookup p.all tx.hash ≡ none
      → WellFormed (index queue tx p)
  unfolding index
  index-WellFormed p tx w e = record {
    rising = w.rising;
    pending_held = λ a. index-Held p.all tx a (p.pending a) e (w.pending_held a);
    queued_held = λ a. index-Held p.all tx a (p.queued a) e (w.queued_held a);
    keyed = insert-keyed p.all tx w.keyed;
  }

  -- What an outcome keeps.
  abbrev pub Keeps : {A : Type 0} → Outcome (TransactionPool queue) TxPoolError A → Type 0
  Keeps (ok a p) = WellFormed p
  Keeps (err e p) = WellFormed p
  Keeps panic = Unit {0}
  Keeps stuck = ⊥

  Whole : Option (TransactionPool queue) → Type 0
  Whole none = Unit {0}
  Whole (some p) = WellFormed p

  move-Whole :
      (p : TransactionPool queue) (a next : ℕ)
      (o : Option (List PooledTransaction × List PooledTransaction))
      → WellFormed p
      → get_next_nonce (p.pending a) ≡ some next
      → Splits (Held p.all a) next o
      → Whole (move queue a o p)
  unfolding move Splits Whole
  move-Whole p a next none w e h = tt
  move-Whole p a next (some (moved, kept)) w e (climbs, (l, m)) = record {
    rising = λ b.
        at_rule Rising a b p.pending
          (λ q. append-Rising (p.pending a) moved next (w.rising a) e climbs) (λ n. w.rising b);
    pending_held = λ b.
        at_rule (All (Held p.all b)) a b p.pending
          (λ q.
            subst (λ c. All (Held p.all c) (p.pending a ++ moved)) (sym q)
              (All-append (Held p.all a) (p.pending a) moved (w.pending_held a) l))
          (λ n. w.pending_held b);
    queued_held = λ b.
        at_rule (All (Held p.all b)) a b p.queued
          (λ q. subst (λ c. All (Held p.all c) kept) (sym q) m) (λ n. w.queued_held b);
    keyed = w.keyed;
  }

  promote_from-Whole :
      (p : TransactionPool queue) (a : ℕ) (o : Option ℕ)
      → WellFormed p
      → get_next_nonce (p.pending a) ≡ o
      → Whole (promote_from queue a o p)
  unfolding promote_from Whole
  promote_from-Whole p a none w e = tt
  promote_from-Whole p a (some next) w e =
      move-Whole p a next (promotable next (p.queued a)) w e
        (promotable-Splits (Held p.all a) next (p.queued a) (w.queued_held a))

  promote_queued-Whole :
      (p : TransactionPool queue) (a : ℕ) → WellFormed p → Whole (promote_queued queue a p)
  unfolding promote_queued
  promote_queued-Whole p a w = promote_from-Whole p a (get_next_nonce (p.pending a)) w refl

  push_pending-WellFormed :
      (p : TransactionPool queue) (tx : PooledTransaction)
      → WellFormed p
      → lookup p.all tx.hash ≡ some tx
      → get_next_nonce (p.pending tx.sender) ≡ some tx.nonce
      → WellFormed (push_pending queue tx p)
  unfolding push_pending
  push_pending-WellFormed p tx w e n = record {
    rising = λ b.
        at_rule Rising tx.sender b p.pending
          (λ q.
            append-Rising (p.pending tx.sender) (tx ∷ []) tx.nonce (w.rising tx.sender) n
              (refl, tt))
          (λ _. w.rising b);
    pending_held = λ b.
        at_rule (All (Held p.all b)) tx.sender b p.pending
          (λ q.
            subst (λ c. All (Held p.all c) (p.pending tx.sender ++ (tx ∷ []))) (sym q)
              (All-append (Held p.all tx.sender) (p.pending tx.sender) (tx ∷ [])
                (w.pending_held tx.sender) ((refl, e), tt)))
          (λ _. w.pending_held b);
    queued_held = w.queued_held;
    keyed = w.keyed;
  }

  push_queued-WellFormed :
      (p : TransactionPool queue) (tx : PooledTransaction)
      → WellFormed p
      → lookup p.all tx.hash ≡ some tx
      → WellFormed (push_queued queue tx p)
  unfolding push_queued
  push_queued-WellFormed p tx w e = record {
    rising = w.rising;
    pending_held = w.pending_held;
    queued_held = λ b.
        at_rule (All (Held p.all b)) tx.sender b p.queued
          (λ q.
            subst (λ c. All (Held p.all c) (p.queued tx.sender ++ (tx ∷ []))) (sym q)
              (All-append (Held p.all tx.sender) (p.queued tx.sender) (tx ∷ [])
                (w.queued_held tx.sender) ((refl, e), tt)))
          (λ _. w.queued_held b);
    keyed = w.keyed;
  }

  settled-Keeps : (o : Option (TransactionPool queue)) → Whole o → Keeps (settled queue o)
  unfolding Whole
  settled-Keeps none h = tt
  settled-Keeps (some p) h = h

  unindex-WellFormed :
      (p : TransactionPool queue) (tx : PooledTransaction)
      → WellFormed p
      → lookup p.all tx.hash ≡ none
      → WellFormed (unindex queue tx.hash (index queue tx p))
  unfolding unindex index
  unindex-WellFormed p tx w e = record {
    rising = w.rising;
    pending_held = λ a. unindex-Held p.all tx a (p.pending a) e (w.pending_held a);
    queued_held = λ a. unindex-Held p.all tx a (p.queued a) e (w.queued_held a);
    keyed = unindex-keyed p.all tx w.keyed;
  }

  lookup-index :
      (p : TransactionPool queue) (tx : PooledTransaction)
      → lookup (index queue tx p).all tx.hash ≡ some tx
  unfolding index
  lookup-index p tx = lookup-insert_same tx.hash tx p.all

  pending-index :
      (p : TransactionPool queue) (tx : PooledTransaction) → (index queue tx p).pending ≡ p.pending
  unfolding index
  pending-index p tx = refl

  Keeps-if :
      {A : Type 0} (b : Bool) (x y : Outcome (TransactionPool queue) TxPoolError A)
      → Keeps x
      → Keeps y
      → Keeps (if b then x else y)
  Keeps-if true x y h k = h
  Keeps-if false x y h k = k

  place-Keeps :
      (p : TransactionPool queue) (tx : PooledTransaction) (o : Option ℕ)
      → WellFormed p
      → lookup p.all tx.hash ≡ none
      → get_next_nonce (p.pending tx.sender) ≡ o
      → Keeps (place queue tx o p)
  unfolding place
  place-Keeps p tx none w e n = tt
  place-Keeps p tx (some next) w e n =
      let indexed = index-WellFormed p tx w e in
      if_rule Keeps tx.nonce next
        (λ q.
          settled-Keeps (promote_queued queue tx.sender (push_pending queue tx (index queue tx p)))
            (promote_queued-Whole (push_pending queue tx (index queue tx p)) tx.sender (
              push_pending-WellFormed (index queue tx p) tx indexed (lookup-index p tx) (
                ap (λ m. get_next_nonce (m tx.sender)) (pending-index p tx)
                ∙ n
                ∙ ap some (sym q)))))
        (λ q.
          Keeps-if (ltb next tx.nonce) (ok tt (push_queued queue tx (index queue tx p)))
            (err nonce_too_low (unindex queue tx.hash (index queue tx p)))
            (push_queued-WellFormed (index queue tx p) tx indexed (lookup-index p tx))
            (unindex-WellFormed p tx w e))

  announce-Keeps :
      (hash : ℕ) (o : Outcome (TransactionPool queue) TxPoolError (Unit {0}))
      → Keeps o
      → Keeps (announce queue hash o)
  unfolding announce
  announce-Keeps hash (ok _ p) w = send_keeps p (new_transaction hash) w
  announce-Keeps hash (err e p) w = w
  announce-Keeps hash panic w = tt
  announce-Keeps hash stuck w = w

  Absent : ℕ → Bool × TransactionPool queue → Type 0
  Absent hash r = lookup r.1.all hash ≡ none

  drop_entry-Absent :
      (p : TransactionPool queue) (hash other : ℕ) (o : Option PooledTransaction)
      → lookup p.all other ≡ none
      → Absent other (drop_entry queue hash o p)
  unfolding Absent drop_entry unindex remove_from_lists
  drop_entry-Absent p hash other none e = e
  drop_entry-Absent p hash other (some old) e = elim (same_or_not other hash) [
    | inl q ↦ ap (lookup (erase hash p.all)) q ∙ lookup-erase_same hash p.all
    | inr n ↦ lookup-erase_other hash other p.all n ∙ e
  ]

  Absent-if :
      (other : ℕ) (b : Bool) (x y : Bool × TransactionPool queue)
      → Absent other x
      → Absent other y
      → Absent other (if b then x else y)
  Absent-if other true x y h k = h
  Absent-if other false x y h k = k

  evict_top-Absent :
      (p : TransactionPool queue) (tx : PooledTransaction) (o : Option (ℕ × ℕ)) (other : ℕ)
      → lookup p.all other ≡ none
      → Absent other (evict_top queue o tx p)
  unfolding evict_top Absent
  evict_top-Absent p tx none other e = e
  evict_top-Absent p tx (some (hash, priority)) other e =
      Absent-if other (ltb priority tx.gas_price) (drop_entry queue hash (lookup p.all hash) p)
        (false, p) (drop_entry-Absent p hash other (lookup p.all hash) e) e

  make_room-Absent :
      (p : TransactionPool queue) (tx : PooledTransaction) (other : ℕ)
      → lookup p.all other ≡ none
      → Absent other (make_room queue tx p)
  unfolding make_room evict_transaction Absent
  make_room-Absent p tx other e =
      Absent-if other (leb p.config.max_size (length p.all)) (evict_transaction queue tx p)
        (true, p) (evict_top-Absent p tx (queue.peek p.price_heap) other e) e

  make_room-WellFormed :
      (p : TransactionPool queue) (tx : PooledTransaction)
      → WellFormed p
      → WellFormed (make_room queue tx p).1
  unfolding make_room
  make_room-WellFormed p tx w =
      if_keeps (leb p.config.max_size (length p.all)) (evict_transaction queue tx p) (true, p)
        (evict_transaction-WellFormed p tx w) w

  add_with_room-Keeps :
      (tx : PooledTransaction) (r : Bool × TransactionPool queue)
      → WellFormed r.1
      → Absent tx.hash r
      → Keeps (add_with_room queue tx r)
  unfolding add_with_room add_to_pool Absent
  add_with_room-Keeps tx (false, p) w e = w
  add_with_room-Keeps tx (true, p) w e =
      announce-Keeps tx.hash (place queue tx (get_next_nonce (p.pending tx.sender)) p)
        (place-Keeps p tx (get_next_nonce (p.pending tx.sender)) w e refl)

  add_checked-Keeps :
      (p : TransactionPool queue) (tx : PooledTransaction) (o : Option PooledTransaction)
      → WellFormed p
      → lookup p.all tx.hash ≡ o
      → Keeps (add_checked queue tx o p)
  unfolding add_checked
  add_checked-Keeps p tx (some known) w e = w
  add_checked-Keeps p tx none w e =
      Keeps-if (ltb tx.gas_price p.config.price_limit) (err gas_price_too_low p)
        (add_with_room queue tx (make_room queue tx p)) w
        (add_with_room-Keeps tx (make_room queue tx p) (make_room-WellFormed p tx w)
          (make_room-Absent p tx tx.hash e))

  -- `add_transaction` keeps a well-formed pool well formed, whether it returns the hash or an error: the
  -- pending transactions of each account have rising nonces, every listed transaction is the one that
  -- `all` has under its hash and stands in the lists of its sender.
  pub add_transaction-WellFormed :
      (p : TransactionPool queue) (tx : PooledTransaction)
      → WellFormed p
      → Keeps (add_transaction queue tx p)
  unfolding add_transaction
  add_transaction-WellFormed p tx w = add_checked-Keeps p tx (lookup p.all tx.hash) w refl
