-- ===== src/TxPool/Removal.antt =====
-- crates/txpool/src/lib.rs: `remove_transaction`, `evict_transaction`, `clear` and the maintenance keep the
-- pool well formed.
use ethereum_rust.Base.{
  ℕ, ◌≡◌, ◌≢◌, ◌⊎◌, refl, sym, subst, ap, ◌∙◌, Bool, true, false, List, [], ◌∷◌, ◌++◌, Option, none,
  some, ltb, if◌then◌else◌, All, inl, inr,
}
use ethereum_rust.TxPool.{
  PooledTransaction, PriorityQueue, TransactionPool, lookup, erase, retain_others, unindex,
  remove_from_lists, send, remove_entry, remove_transaction, drop_entry, evict_top,
  evict_transaction, get_transaction, TxPoolEvent, removed, expired, remove_all, maintain,
}
use ethereum_rust.TxPool.Maps.{if_rule, at_rule, lookup-erase_same, lookup-erase_other}
use ethereum_rust.TxPool.Ordered.{Rising, Held, WellFormed, All-map, retain_others-Rising}

Held-erase :
    (all : List (ℕ × PooledTransaction)) (hash a : ℕ) (t : PooledTransaction)
    → t.hash ≢ hash
    → Held all a t
    → Held (erase hash all) a t
Held-erase all hash a t n (s, e) = (s, lookup-erase_other hash t.hash all n ∙ e)

retained :
    (all : List (ℕ × PooledTransaction)) (hash a : ℕ) (xs : List PooledTransaction)
    → All (Held all a) xs
    → All (Held (erase hash all) a) (retain_others hash xs)
unfolding retain_others
retained all hash a [] h = tt
retained all hash a (x ∷ xs) h =
    let rest = retained all hash a xs h.1 in
    if_rule (All (Held (erase hash all) a)) x.hash hash (λ e. rest)
      (λ n. (Held-erase all hash a x n h.0, rest))

sender_of : (t u : PooledTransaction) → some t ≡ some u → t.sender ≡ u.sender
sender_of t u e = ap (λ (v : PooledTransaction). v.sender) {x = t} {y = u} (cc e)

pub none-some : {t : PooledTransaction} → none ≡ some t → ⊥
none-some e = cc

pub same_or_not : (a b : ℕ) → (a ≡ b) ⊎ (a ≢ b)
same_or_not a b = if_rule (λ (_ : Bool). (a ≡ b) ⊎ (a ≢ b)) a b {x = true} {y = false} inl inr

same_sender :
    (all : List (ℕ × PooledTransaction)) (hash a : ℕ) (old t : PooledTransaction)
    → lookup all hash ≡ some old
    → Held all a t
    → t.hash ≡ hash
    → a ≡ old.sender
same_sender all hash a old t e (s, l) q =
    let k : some t ≡ some old = sym l ∙ ap (lookup all) q ∙ e in sym s ∙ sender_of t old k

pub erased_keyed :
    (all : List (ℕ × PooledTransaction)) (hash : ℕ)
    → ((h : ℕ) (t : PooledTransaction) → lookup all h ≡ some t → t.hash ≡ h)
    → (h : ℕ) (t : PooledTransaction) → lookup (erase hash all) h ≡ some t
    → t.hash ≡ h
erased_keyed all hash k h t e = elim (same_or_not h hash) [
  | inl q ↦
      absurd
        (none-some (sym (lookup-erase_same hash all) ∙ ap (lookup (erase hash all)) (sym q) ∙ e))
  | inr n ↦ k h t (sym (lookup-erase_other hash h all n) ∙ e)
]

-- The lists of another sender do not hold the hash.
untouched :
    (all : List (ℕ × PooledTransaction)) (hash a : ℕ) (old : PooledTransaction)
    (xs : List PooledTransaction)
    → lookup all hash ≡ some old
    → a ≢ old.sender
    → All (Held all a) xs
    → All (Held (erase hash all) a) xs
untouched all hash a old xs e n h =
    All-map (Held all a) (Held (erase hash all) a) xs
      (λ t held. Held-erase all hash a t (λ q. n (same_sender all hash a old t e held q)) held) h

unlisted :
    (all : List (ℕ × PooledTransaction)) (hash a : ℕ) (xs : List PooledTransaction)
    → lookup all hash ≡ none
    → All (Held all a) xs
    → All (λ t. t.hash ≢ hash) xs
unlisted all hash a [] e h = tt
unlisted all hash a (t ∷ xs) e h =
    (λ q. none-some (sym e ∙ sym (ap (lookup all) q) ∙ h.0.1), unlisted all hash a xs e h.1)

module _ {queue : PriorityQueue} where
  pub if_keeps :
      (b : Bool) (x y : Bool × TransactionPool queue)
      → WellFormed x.1
      → WellFormed y.1
      → WellFormed (if b then x else y).1
  if_keeps true x y h k = h
  if_keeps false x y h k = k

  removed_lists :
      (p : TransactionPool queue) (old : PooledTransaction)
      → WellFormed p
      → lookup p.all old.hash ≡ some old
      → WellFormed (remove_from_lists queue old (unindex queue old.hash p))
  unfolding remove_from_lists unindex
  removed_lists p old w e = record {
    rising = λ a.
        at_rule Rising old.sender a p.pending
          (λ q. retain_others-Rising old.hash (p.pending old.sender) (w.rising old.sender))
          (λ n. w.rising a);
    pending_held = λ a.
        at_rule (All (Held (erase old.hash p.all) a)) old.sender a p.pending
          (λ q. retained p.all old.hash a (p.pending old.sender) (
            subst (λ b. All (Held p.all b) (p.pending old.sender)) (sym q)
              (w.pending_held old.sender)))
          (λ n. untouched p.all old.hash a old (p.pending a) e n (w.pending_held a));
    queued_held = λ a.
        at_rule (All (Held (erase old.hash p.all) a)) old.sender a p.queued
          (λ q. retained p.all old.hash a (p.queued old.sender) (
            subst (λ b. All (Held p.all b) (p.queued old.sender)) (sym q)
              (w.queued_held old.sender)))
          (λ n. untouched p.all old.hash a old (p.queued a) e n (w.queued_held a));
    keyed = λ h t q. erased_keyed p.all old.hash w.keyed h t q;
  }

  pub send_keeps :
      (p : TransactionPool queue) (e : TxPoolEvent) → WellFormed p → WellFormed (send queue e p)
  send_keeps p e w = record {
    rising = w.rising;
    pending_held = w.pending_held;
    queued_held = w.queued_held;
    keyed = w.keyed;
  }

  -- The entry that `all` has under a hash goes, with its place in the lists.
  dropped :
      (p : TransactionPool queue) (hash : ℕ) (old : PooledTransaction)
      → WellFormed p
      → lookup p.all hash ≡ some old
      → WellFormed (send queue (removed hash) (remove_from_lists queue old (unindex queue hash p)))
  dropped p hash old w e =
      let k = w.keyed hash old e in
      send_keeps _ (removed hash) (
        subst (λ h. WellFormed (remove_from_lists queue old (unindex queue h p))) k
          (removed_lists p old w (ap (lookup p.all) k ∙ e)))

  remove_entry-WellFormed :
      (p : TransactionPool queue) (hash : ℕ) (o : Option PooledTransaction)
      → WellFormed p
      → lookup p.all hash ≡ o
      → WellFormed (remove_entry queue hash o p).1
  unfolding remove_entry
  remove_entry-WellFormed p hash none w e = w
  remove_entry-WellFormed p hash (some old) w e = dropped p hash old w e

  -- `remove_transaction` keeps the pool well formed.
  pub remove_transaction-WellFormed :
      (p : TransactionPool queue) (hash : ℕ)
      → WellFormed p
      → WellFormed (remove_transaction queue hash p).1
  unfolding remove_transaction
  remove_transaction-WellFormed p hash w = remove_entry-WellFormed p hash (lookup p.all hash) w refl

  -- What a removal of the entry `o` leaves.
  abbrev pub Removed :
      ℕ
      → TransactionPool queue
      → Option PooledTransaction
      → Option PooledTransaction × TransactionPool queue
      → Type 0
  Removed hash p o r =
      (r.0 ≡ o)
      × ((lookup r.1.all hash ≡ none)
          × (((other : ℕ) → other ≢ hash → lookup r.1.all other ≡ lookup p.all other)
              × (r.1.events
                  ≡ elim o [ none ↦ p.events | some t ↦ p.events ++ (removed hash ∷ []) ])))

  entry_gone :
      (p : TransactionPool queue) (hash : ℕ) (o : Option PooledTransaction)
      → lookup p.all hash ≡ o
      → Removed hash p o (remove_entry queue hash o p)
  unfolding remove_entry unindex remove_from_lists
  entry_gone p hash none e = (refl, (e, (λ other n. refl, refl)))
  entry_gone p hash (some old) e = (
    refl,
    (lookup-erase_same hash p.all, (λ other n. lookup-erase_other hash other p.all n, refl)),
  )

  -- In a well-formed pool, `remove_transaction` returns what `get_transaction` finds under the hash. Afterwards
  -- `get_transaction` finds nothing there and what it found before under every other hash, no list
  -- of pending or queued transactions has one with the hash, the pool is well formed, and the event of the
  -- removal is sent if there was a transaction.
  pub get_transaction-remove_transaction :
      (p : TransactionPool queue) (hash : ℕ)
      → WellFormed p
      → (found : Option PooledTransaction) × (p' : TransactionPool queue) × (remove_transaction
            queue hash p
          ≡ (found, p'))
        × (found ≡ get_transaction queue hash p)
        × (get_transaction queue hash p' ≡ none)
        × ((other : ℕ)
            → other ≢ hash
            → get_transaction queue other p' ≡ get_transaction queue other p)
        × ((a : ℕ)
            → All (λ t. t.hash ≢ hash) (p'.pending a) × All (λ t. t.hash ≢ hash) (p'.queued a))
        × WellFormed p'
        × (p'.events ≡ elim (get_transaction queue hash p) [
          | none ↦ p.events
          | some t ↦ p.events ++ (removed hash ∷ [])
        ])
  unfolding remove_transaction
  get_transaction-remove_transaction p hash w =
      let r = remove_entry queue hash (lookup p.all hash) p in
      let (returned, (gone, (others, sent))) = entry_gone p hash (lookup p.all hash) refl in
      let w' = remove_transaction-WellFormed p hash w in
      (
        r.0,
        r.1,
        refl,
        returned,
        gone,
        others,
        λ a. (
          unlisted r.1.all hash a (r.1.pending a) gone (w'.pending_held a),
          unlisted r.1.all hash a (r.1.queued a) gone (w'.queued_held a),
        ),
        w',
        sent,
      )

  drop_entry-WellFormed :
      (p : TransactionPool queue) (hash : ℕ) (o : Option PooledTransaction)
      → WellFormed p
      → lookup p.all hash ≡ o
      → WellFormed (drop_entry queue hash o p).1
  unfolding drop_entry
  drop_entry-WellFormed p hash none w e = record {
    rising = w.rising;
    pending_held = w.pending_held;
    queued_held = w.queued_held;
    keyed = w.keyed;
  }
  drop_entry-WellFormed p hash (some old) w e = dropped p hash old w e

  evict_top-WellFormed :
      (p : TransactionPool queue) (o : Option (ℕ × ℕ)) (tx : PooledTransaction)
      → WellFormed p
      → WellFormed (evict_top queue o tx p).1
  unfolding evict_top
  evict_top-WellFormed p none tx w = w
  evict_top-WellFormed p (some (hash, priority)) tx w =
      if_keeps (ltb priority tx.gas_price) (drop_entry queue hash (lookup p.all hash) p) (false, p)
        (drop_entry-WellFormed p hash (lookup p.all hash) w refl) w

  pub evict_transaction-WellFormed :
      (p : TransactionPool queue) (tx : PooledTransaction)
      → WellFormed p
      → WellFormed (evict_transaction queue tx p).1
  unfolding evict_transaction
  evict_transaction-WellFormed p tx w = evict_top-WellFormed p (queue.peek p.price_heap) tx w

  remove_all-WellFormed :
      (hashes : List ℕ) (p : TransactionPool queue)
      → WellFormed p
      → WellFormed (remove_all queue hashes p)
  unfolding remove_all
  remove_all-WellFormed [] p w = w
  remove_all-WellFormed (hash ∷ hashes) p w =
      remove_all-WellFormed hashes (remove_transaction queue hash p).1
        (remove_transaction-WellFormed p hash w)

  -- A round of the maintenance keeps the pool well formed.
  pub maintain-WellFormed :
      (p : TransactionPool queue) (now : ℕ) → WellFormed p → WellFormed (maintain queue now p)
  unfolding maintain
  maintain-WellFormed p now w =
      remove_all-WellFormed (expired queue now p.config.lifetime p.all) p w
