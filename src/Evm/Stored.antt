-- ===== src/Evm/Stored.antt =====
-- crates/evm/src/memory.rs: what is stored in the memory, and its size.
use ethereum_rust.Base.{
  ℕ, ◌+◌, ◌-◌, ◌≤◌, ◌<◌, ◌^◌, ◌≡◌, refl, ap, subst, ◌∙◌, Bool, true, false, List, [], ◌∷◌, ◌++◌,
  arith, ltb, ltb→lt, if◌then◌else◌, length, length-append, length-take, length-drop,
  length-replicate, take, drop, take-append_length, drop-append_length, replicate, min, max,
}
use ethereum_rust.Base.Outcome.{Outcome, ok, err, panic, stuck}
use ethereum_rust.Evm.Error
use ethereum_rust.Evm.Error.{EvmError}
use ethereum_rust.Evm.Memory
use ethereum_rust.Evm.Memory.{Memory, resize, overwrite}

length-resize : (n : ℕ) (bytes : List ℕ) → length (resize n bytes) ≡ max n (length bytes)
unfolding resize
length-resize n bytes = ground (
  arith,
  length-append bytes (replicate {A = ℕ} (n - length bytes) 0),
  length-replicate {A = ℕ} (n - length bytes) 0,
)

length-overwrite :
    (i : ℕ) (content bytes : List ℕ)
    → i + length content ≤ length bytes
    → length (overwrite i content bytes) ≡ length bytes
unfolding overwrite
length-overwrite i content bytes h = omega (
  arith,
  length-append (take i bytes) (content ++ drop (i + length content) bytes),
  length-append content (drop (i + length content) bytes),
  length-take i bytes,
  length-drop (i + length content) bytes,
)

drop-overwrite :
    (i : ℕ) (content bytes : List ℕ)
    → i ≤ length bytes
    → drop i (overwrite i content bytes) ≡ content ++ drop (i + length content) bytes
unfolding overwrite
drop-overwrite i content bytes h =
    subst
      (λ n.
        drop n (take i bytes ++ (content ++ drop (i + length content) bytes))
        ≡ content ++ drop (i + length content) bytes)
      (omega (arith, length-take i bytes))
      (drop-append_length (take i bytes) (content ++ drop (i + length content) bytes))

stored : ℕ → List ℕ → List ℕ → Memory
stored i content bytes = record { bytes = overwrite i content (resize (i + length content) bytes) }

length-stored :
    (i : ℕ) (content bytes : List ℕ)
    → length (stored i content bytes).bytes ≡ max (i + length content) (length bytes)
unfolding stored
length-stored i content bytes = omega (
  arith,
  length-overwrite i content (resize (i + length content) bytes)
      (omega (arith, length-resize (i + length content) bytes)),
  length-resize (i + length content) bytes,
)

get_inside :
    (i n : ℕ) (m : Memory)
    → 0 < n
    → i + n < 2 ^ 64
    → i + n ≤ length m.bytes
    → Memory.get i n m ≡ take n (drop i m.bytes)
unfolding Memory.get
get_inside i n m h k l =
    let q : min (i + n) (2 ^ 64 - 1) - i ≡ n = omega arith in
    ground (arith, h, k, l, ap (λ e. take e (drop i m.bytes)) q)

get-stored :
    (i : ℕ) (content bytes : List ℕ)
    → 0 < length content
    → i + length content < 2 ^ 64
    → Memory.get i (length content) (stored i content bytes) ≡ content
unfolding stored
get-stored i content bytes h k =
    let grown = resize (i + length content) bytes in
    get_inside i (length content) (stored i content bytes) h k
      (omega (arith, length-stored i content bytes))
    ∙ ap (take (length content))
        (drop-overwrite i content grown (omega (arith, length-resize (i + length content) bytes)))
    ∙ take-append_length content (drop (i + length content) grown)

get_nothing : (i : ℕ) (m : Memory) → Memory.get i 0 m ≡ []
unfolding Memory.get
get_nothing i m = refl

-- What a write does to a memory.
Written : ℕ → List ℕ → Memory → Outcome Memory EvmError (Unit {0}) → Type 0
Written i content m (ok a t) =
    (Memory.get i (length content) t ≡ content)
    × (0 < length content → length t.bytes ≡ max (i + length content) (length m.bytes))
Written i content m (err e t) = (2 ^ 64 ≤ i + length content) × (t ≡ m)
Written i content m panic = ⊥
Written i content m stuck = ⊥

Written-if :
    (i : ℕ) (content : List ℕ) (m t : Memory) (b : Bool)
    → (b ≡ true → Written i content m (ok tt t))
    → (b ≡ false → Written i content m (err Error.invalid_memory_access m))
    → Written i content m (if b then ok tt t else err Error.invalid_memory_access m)
Written-if i content m t true h k = h refl
Written-if i content m t false h k = k refl

past : (n : ℕ) → ltb n (2 ^ 64) ≡ false → 2 ^ 64 ≤ n
past n h = ground (arith, h)

set-Written : (i : ℕ) (content : List ℕ) (m : Memory) → Written i content m (Memory.set i content m)
unfolding Memory.set Written stored
set-Written i [] m = (get_nothing i m, λ h. absurd (omega arith))
set-Written i (b ∷ content) m =
    Written-if i (b ∷ content) m (stored i (b ∷ content) m.bytes)
      (ltb (i + length (b ∷ content)) (2 ^ 64))
      (λ e. (
        get-stored i (b ∷ content) m.bytes (omega arith)
            (ltb→lt (i + length (b ∷ content)) (2 ^ 64) e),
        λ _. length-stored i (b ∷ content) m.bytes,
      ))
      (λ e. (past (i + length (b ∷ content)) e, refl))

-- Bytes that `set` has stored, one at least, are what `get` returns for their range, and the memory has
-- grown just to hold them.
pub get-set :
    (i : ℕ) (content : List ℕ) (m t : Memory)
    → 0 < length content
    → Memory.set i content m ≡ ok tt t
    → (Memory.get i (length content) t ≡ content)
      × (length t.bytes ≡ max (i + length content) (length m.bytes))
unfolding Written
get-set i content m t h e =
    let (read, grown) = subst (Written i content m) e (set-Written i content m) in (read, grown h)
