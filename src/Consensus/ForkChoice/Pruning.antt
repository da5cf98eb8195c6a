-- ===== src/Consensus/ForkChoice/Pruning.antt =====
-- crates/consensus/src/fork_choice.rs: `prune`, and the marks of justified and finalized blocks.
use ethereum_rust.Base.{
  ℕ, zero, suc, ◌≡◌, refl, subst, true, List, [], ◌∷◌, Option, none, some, ◌==◌, All, if◌then◌else◌,
}
use ethereum_rust.Base.Assoc.{lookup, erase, insert}
use ethereum_rust.Base.Sorting.{choose}
use ethereum_rust.Consensus.ForkChoice.{
  Header, BlockInfo, ForkChoice, or_empty, add_block, update_block, set_justified, set_finalized,
  mark_justified, mark_finalized,
}
use ethereum_rust.Consensus.ForkChoice.Heads.{contains}

-- `queue.extend(..)`, where the model's queue has the end that is popped first.
unfoldable pub extend : List ℕ → List ℕ → List ℕ
extend queue [] = queue
extend queue (hash ∷ hashes) = extend (hash ∷ queue) hashes

-- The loop of `prune`; `none` is fuel that ran out.
unfoldable pub to_keep : List (ℕ × List ℕ) → ℕ → List ℕ → List ℕ → Option (List ℕ)
to_keep children zero kept queue = none
to_keep children (suc fuel) kept [] = some kept
to_keep children (suc fuel) kept (hash ∷ queue) =
    to_keep children fuel (hash ∷ kept) (extend queue (or_empty (lookup children hash)))

-- `retain(|hash, _| to_keep.contains(hash))`
unfoldable pub retain : {V : Type 0} → List ℕ → List (ℕ × V) → List (ℕ × V)
retain kept [] = []
retain kept ((key, v) ∷ rest) =
    let others = retain kept rest in if contains kept key then (key, v) ∷ others else others

unfoldable pub keep_only : Option (List ℕ) → ForkChoice → Option ForkChoice
keep_only none s = none
keep_only (some kept) s =
    some (record s { blocks = retain kept s.blocks; children = retain kept s.children })

unfoldable pub prune : ℕ → ℕ → ForkChoice → Option ForkChoice
prune fuel finalized_hash s = keep_only (to_keep s.children fuel [] (finalized_hash ∷ [])) s

-- A finalized block is justified.
abbrev pub Sound : ℕ × BlockInfo → Type 0
Sound e = e.1.finalized ≡ true → e.1.justified ≡ true

abbrev pub Settled : ForkChoice → Type 0
Settled s = All Sound s.blocks

erase-Sound : (key : ℕ) (m : List (ℕ × BlockInfo)) → All Sound m → All Sound (erase key m)
unfolding erase
erase-Sound key [] h = tt
erase-Sound key (e ∷ rest) h =
    choose (All Sound) (e.0 == key) (erase key rest) (e ∷ erase key rest)
      (λ _. erase-Sound key rest h.1) (λ _. (h.0, erase-Sound key rest h.1))

-- An addition keeps it that a finalized block is justified.
pub add_block-Settled :
    (block : Header) (total_difficulty : ℕ) (s : ForkChoice)
    → Settled s
    → Settled (add_block block total_difficulty s)
unfolding add_block insert
add_block-Settled block total_difficulty s h =
    ((λ e. absurd (cc e)), erase-Sound block.hash s.blocks h)

update_block-Sound :
    (f : BlockInfo → BlockInfo) (hash : ℕ) (m : List (ℕ × BlockInfo))
    → ((key : ℕ) (info : BlockInfo) → Sound (key, f info))
    → All Sound m
    → All Sound (update_block f hash m)
unfolding update_block
update_block-Sound f hash [] k h = tt
update_block-Sound f hash (e ∷ rest) k h =
    choose (All Sound) (e.0 == hash) ((e.0, f e.1) ∷ update_block f hash rest)
      (e ∷ update_block f hash rest) (λ _. (k e.0 e.1, update_block-Sound f hash rest k h.1))
      (λ _. (h.0, update_block-Sound f hash rest k h.1))

-- The marks keep it that a finalized block is justified.
pub mark-Settled :
    (hash : ℕ) (s : ForkChoice)
    → Settled s
    → Settled (mark_justified hash s) × Settled (mark_finalized hash s)
unfolding mark_justified mark_finalized
mark-Settled hash s h = (
  update_block-Sound set_justified hash s.blocks (λ key info _. refl) h,
  update_block-Sound set_finalized hash s.blocks (λ key info _. refl) h,
)

module _ (children : List (ℕ × List ℕ)) (P : ℕ → Type 0) where
  extend-All : (queue hashes : List ℕ) → All P queue → All P hashes → All P (extend queue hashes)
  unfolding extend
  extend-All queue [] h k = h
  extend-All queue (hash ∷ hashes) h k = extend-All (hash ∷ queue) hashes (k.0, h) k.1

  -- What holds of the finalized hash, and of the children of every hash it holds of, holds of all the
  -- hashes that `prune` keeps.
  pub to_keep-All :
      ((hash : ℕ) → P hash → All P (or_empty (lookup children hash)))
      → (fuel : ℕ) (kept queue : List ℕ) → All P kept
      → All P queue
      → (result : List ℕ) → to_keep children fuel kept queue ≡ some result
      → All P result
  unfolding to_keep
  to_keep-All closed zero kept queue h k result e = absurd (cc e)
  to_keep-All closed (suc fuel) kept [] h k result e =
      let same : kept ≡ result = cc e in subst (All P) same h
  to_keep-All closed (suc fuel) kept (hash ∷ queue) h k result e =
      to_keep-All closed fuel (hash ∷ kept) (extend queue (or_empty (lookup children hash)))
        (k.0, h) (extend-All queue (or_empty (lookup children hash)) k.1 (closed hash k.0)) result e
