-- ===== src/TxPool/Ordered.antt =====
-- What every operation of the pool keeps: the pending transactions of an account have rising nonces, and
-- every listed transaction is the one that `all` has under its hash, in the lists of its sender.
use ethereum_rust.Base.{ℕ, ◌+◌, ◌≤◌, ◌<◌, ◌≡◌, List, [], ◌∷◌, ◌++◌, some, arith, All}
use ethereum_rust.TxPool.{
  PooledTransaction, TxPoolConfig, PriorityQueue, TransactionPool, new, lookup, retain_others,
  get_next_nonce,
}
use ethereum_rust.TxPool.Maps.{if_rule}

abbrev pub Rising : List PooledTransaction → Type 0
Rising [] = Unit {0}
Rising (t ∷ []) = Unit {0}
Rising (t ∷ u ∷ txs) = (t.nonce < u.nonce) × Rising (u ∷ txs)

abbrev pub Held : List (ℕ × PooledTransaction) → ℕ → PooledTransaction → Type 0
Held all address t = (t.sender ≡ address) × (lookup all t.hash ≡ some t)

pub record WellFormed {queue : PriorityQueue} (p : TransactionPool queue) : Type 0 where
  pub rising : (a : ℕ) → Rising (p.pending a)
  pub pending_held : (a : ℕ) → All (Held p.all a) (p.pending a)
  pub queued_held : (a : ℕ) → All (Held p.all a) (p.queued a)
  pub keyed : (hash : ℕ) (t : PooledTransaction) → lookup p.all hash ≡ some t → t.hash ≡ hash

-- An empty pool is well formed.
pub new-WellFormed : (queue : PriorityQueue) (config : TxPoolConfig) → WellFormed (new queue config)
unfolding lookup
new-WellFormed queue config = record {
  rising = λ a. tt;
  pending_held = λ a. tt;
  queued_held = λ a. tt;
  keyed = λ h t e. cc;
}

-- The nonces `next`, `next + 1`, and so on.
abbrev pub Climbs : ℕ → List PooledTransaction → Type 0
Climbs next [] = Unit {0}
Climbs next (t ∷ txs) = (t.nonce ≡ next) × Climbs (next + 1) txs

Below : ℕ → PooledTransaction → Type 0
Below n t = t.nonce < n

Climbs-Rising : (next : ℕ) (txs : List PooledTransaction) → Climbs next txs → Rising txs
Climbs-Rising next [] h = tt
Climbs-Rising next (t ∷ []) h = tt
Climbs-Rising next (t ∷ u ∷ txs) (h, k) =
    (omega (arith, h, k.0), Climbs-Rising (next + 1) (u ∷ txs) k)

Rising-append :
    (next : ℕ) (xs ys : List PooledTransaction)
    → Rising xs
    → All (Below next) xs
    → Climbs next ys
    → Rising (xs ++ ys)
unfolding Below
Rising-append next [] ys h k l = Climbs-Rising next ys l
Rising-append next (x ∷ []) [] h k l = tt
Rising-append next (x ∷ []) (y ∷ ys) h k l =
    (omega (arith, k.0, l.0), Climbs-Rising next (y ∷ ys) l)
Rising-append next (x ∷ y ∷ xs) ys h k l = (h.0, Rising-append next (y ∷ xs) ys h.1 k.1 l)

next_above :
    (xs : List PooledTransaction) (next : ℕ)
    → Rising xs
    → get_next_nonce xs ≡ some next
    → All (Below next) xs
unfolding get_next_nonce Below
next_above [] next h e = tt
next_above (t ∷ []) next h e = (ground (arith, e), tt)
next_above (t ∷ u ∷ txs) next h e =
    let rest = next_above (u ∷ txs) next h.1 e in (omega (arith, h.0, rest.0), rest)

-- Consecutive nonces from the expected one on are appended.
pub append-Rising :
    (xs ys : List PooledTransaction) (next : ℕ)
    → Rising xs
    → get_next_nonce xs ≡ some next
    → Climbs next ys
    → Rising (xs ++ ys)
append-Rising xs ys next h e k = Rising-append next xs ys h (next_above xs next h e) k

pub All-append :
    {A : Type 0} (P : A → Type 0) (xs ys : List A) → All P xs → All P ys → All P (xs ++ ys)
All-append P [] ys h k = k
All-append P (x ∷ xs) ys h k = (h.0, All-append P xs ys h.1 k)

pub All-map :
    {A : Type 0} (P Q : A → Type 0) (xs : List A) → ((a : A) → P a → Q a) → All P xs → All Q xs
All-map P Q [] f h = tt
All-map P Q (x ∷ xs) f h = (f x h.0, All-map P Q xs f h.1)

-- What is taken out keeps the rest in order.
Above : ℕ → List PooledTransaction → Type 0
Above n [] = Unit {0}
Above n (t ∷ txs) = n < t.nonce

Rising-cons :
    (t : PooledTransaction) (xs : List PooledTransaction)
    → Above t.nonce xs
    → Rising xs
    → Rising (t ∷ xs)
unfolding Above
Rising-cons t [] h k = tt
Rising-cons t (x ∷ xs) h k = (h, k)

Rising-tail : (t : PooledTransaction) (xs : List PooledTransaction) → Rising (t ∷ xs) → Rising xs
Rising-tail t [] h = tt
Rising-tail t (x ∷ xs) h = h.1

retain-Above :
    (hash n : ℕ) (t : PooledTransaction) (xs : List PooledTransaction)
    → n ≤ t.nonce
    → Rising (t ∷ xs)
    → Above n (retain_others hash xs)
unfolding Above retain_others
retain-Above hash n t [] l h = tt
retain-Above hash n t (x ∷ xs) l h =
    if_rule (Above n) x.hash hash (λ e. retain-Above hash n x xs (omega (arith, h.0)) h.1)
      (λ e. omega (arith, h.0))

pub retain_others-Rising :
    (hash : ℕ) (xs : List PooledTransaction) → Rising xs → Rising (retain_others hash xs)
unfolding retain_others
retain_others-Rising hash [] h = tt
retain_others-Rising hash (x ∷ xs) h =
    let rest = retain_others-Rising hash xs (Rising-tail x xs h) in
    if_rule Rising x.hash hash (λ e. rest)
      (λ e.
        Rising-cons x (retain_others hash xs) (retain-Above hash x.nonce x xs (omega arith) h) rest)
