-- ===== src/TxPool/Promotion.antt =====
-- crates/txpool/src/lib.rs: what `promote_queued` moves, and what a new entry of `all` leaves as it is.
use ethereum_rust.Base.{
  ℕ, ◌+◌, ◌^◌, ◌≡◌, ◌≢◌, refl, sym, ap, ◌∙◌, Bool, true, false, List, [], ◌∷◌, Option, none, some,
  ltb, ◌==◌, ==_iff, All, inl, inr,
}
use ethereum_rust.TxPool.{
  PooledTransaction, lookup, erase, insert, promotable, keep_first, keep_second,
}
use ethereum_rust.TxPool.Maps.{lookup-insert_same, lookup-insert_other, lookup-erase_other}
use ethereum_rust.TxPool.Ordered.{Held, Climbs, All-map}
use ethereum_rust.TxPool.Removal.{none-some, same_or_not, erased_keyed}

-- What `promotable` splits: the moved transactions climb from `next` on, and both parts keep what all
-- of them had.
unfoldable pub Splits :
    (PooledTransaction → Type 0)
    → ℕ
    → Option (List PooledTransaction × List PooledTransaction)
    → Type 0
Splits P next none = Unit {0}
Splits P next (some (moved, kept)) = Climbs next moved × (All P moved × All P kept)

keep_first-Splits :
    (P : PooledTransaction → Type 0) (next : ℕ) (t : PooledTransaction)
    (o : Option (List PooledTransaction × List PooledTransaction))
    → t.nonce ≡ next
    → P t
    → Splits P (next + 1) o
    → Splits P next (keep_first t o)
unfolding Splits
keep_first-Splits P next t none e h k = tt
keep_first-Splits P next t (some (moved, kept)) e h (k, (l, m)) = ((e, k), ((h, l), m))

keep_second-Splits :
    (P : PooledTransaction → Type 0) (next : ℕ) (t : PooledTransaction)
    (o : Option (List PooledTransaction × List PooledTransaction))
    → P t
    → Splits P next o
    → Splits P next (keep_second t o)
unfolding Splits
keep_second-Splits P next t none h k = tt
keep_second-Splits P next t (some (moved, kept)) h (k, (l, m)) = (k, (l, (h, m)))

step-Splits :
    (P : PooledTransaction → Type 0) (next : ℕ) (b c : Bool)
    (x y : Option (List PooledTransaction × List PooledTransaction))
    → (c ≡ true → Splits P next x)
    → Splits P next y
    → Splits P next (elim b [ true ↦ elim c [ true ↦ x | false ↦ y ] | false ↦ none ])
unfolding Splits
step-Splits P next true true x y h k = h refl
step-Splits P next true false x y h k = k
step-Splits P next false c x y h k = tt

pub promotable-Splits :
    (P : PooledTransaction → Type 0) (next : ℕ) (txs : List PooledTransaction)
    → All P txs
    → Splits P next (promotable next txs)
unfolding promotable Splits
promotable-Splits P next [] h = (tt, (tt, tt))
promotable-Splits P next (t ∷ txs) h =
    step-Splits P next (ltb next (2 ^ 256)) (t.nonce == next)
      (keep_first t (promotable (next + 1) txs)) (keep_second t (promotable next txs))
      (λ e.
        keep_first-Splits P next t (promotable (next + 1) txs) ((==_iff t.nonce next).0 e) h.0
          (promotable-Splits P (next + 1) txs h.1))
      (keep_second-Splits P next t (promotable next txs) h.0 (promotable-Splits P next txs h.1))

pub index-Held :
    (all : List (ℕ × PooledTransaction)) (tx : PooledTransaction) (a : ℕ)
    (xs : List PooledTransaction)
    → lookup all tx.hash ≡ none
    → All (Held all a) xs
    → All (Held (insert tx.hash tx all) a) xs
index-Held all tx a xs e h =
    All-map (Held all a) (Held (insert tx.hash tx all) a) xs
      (λ t (s, l). (
        s,
        lookup-insert_other tx.hash t.hash tx all
              (λ q. none-some (sym e ∙ ap (lookup all) (sym q) ∙ l))
            ∙ l,
      ))
      h

hash_of : (t u : PooledTransaction) → some t ≡ some u → t.hash ≡ u.hash
hash_of t u e = ap (λ (v : PooledTransaction). v.hash) {x = t} {y = u} (cc e)

pub insert-keyed :
    (all : List (ℕ × PooledTransaction)) (tx : PooledTransaction)
    → ((h : ℕ) (t : PooledTransaction) → lookup all h ≡ some t → t.hash ≡ h)
    → (h : ℕ) (t : PooledTransaction) → lookup (insert tx.hash tx all) h ≡ some t
    → t.hash ≡ h
insert-keyed all tx k h t e = elim (same_or_not h tx.hash) [
  | inl q ↦
      let f : some tx ≡ some t =
        sym (lookup-insert_same tx.hash tx all) ∙ ap (lookup (insert tx.hash tx all)) (sym q) ∙ e in
      sym (hash_of tx t f) ∙ sym q
  | inr n ↦ k h t (sym (lookup-insert_other tx.hash h tx all n) ∙ e)
]

pub unindex-Held :
    (all : List (ℕ × PooledTransaction)) (tx : PooledTransaction) (a : ℕ)
    (xs : List PooledTransaction)
    → lookup all tx.hash ≡ none
    → All (Held all a) xs
    → All (Held (erase tx.hash (insert tx.hash tx all)) a) xs
unindex-Held all tx a xs e h =
    All-map (Held all a) (Held (erase tx.hash (insert tx.hash tx all)) a) xs
      (λ t (s, l).
        let n : t.hash ≢ tx.hash = λ q. none-some (sym e ∙ ap (lookup all) (sym q) ∙ l) in
        (
          s,
          lookup-erase_other tx.hash t.hash (insert tx.hash tx all) n
              ∙ lookup-insert_other tx.hash t.hash tx all n
              ∙ l,
        ))
      h

pub unindex-keyed :
    (all : List (ℕ × PooledTransaction)) (tx : PooledTransaction)
    → ((h : ℕ) (t : PooledTransaction) → lookup all h ≡ some t → t.hash ≡ h)
    → (h : ℕ) (t : PooledTransaction) → lookup (erase tx.hash (insert tx.hash tx all)) h ≡ some t
    → t.hash ≡ h
unindex-keyed all tx k = erased_keyed (insert tx.hash tx all) tx.hash (insert-keyed all tx k)
