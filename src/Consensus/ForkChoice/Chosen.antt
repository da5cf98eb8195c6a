-- ===== src/Consensus/ForkChoice/Chosen.antt =====
-- crates/consensus/src/fork_choice.rs: what `select_head` returns.
use ethereum_rust.Base.{
  ℕ, suc, ◌≡◌, refl, ap, ◌∙◌, subst, Bool, true, false, List, [], ◌∷◌, Option, none, some, ltb,
  ◌==◌, All, if◌then◌else◌,
}
use ethereum_rust.Base.Sorting.{choose}
use ethereum_rust.Base.Result.{ok, err, panic, stuck, ◌>>=◌, or_panic}
use ethereum_rust.Consensus.ForkChoice.{
  Header, ForkChoice, ForkChoiceRule, longest_chain, ghost, lmd_ghost, casper_ffg, known,
  select_longest_chain, longest_start, longest_from, challenge, get_total_difficulty, valid_blocks,
  build_block_tree, is_descendant_of,
}
use ethereum_rust.Consensus.ForkChoice.Ancestry.{Numbered, Below, valid_blocks_none}
use ethereum_rust.Consensus.ForkChoice.Heads.{
  R, ForkChoiceError, no_valid_blocks, find_block, select_ghost, select_lmd_ghost, from_valid,
  select_casper_ffg, select_by, select_head, or_stuck, find_common_ancestor, follow,
  calculate_subtree_weight, votes, get_latest_attestations,
}

-- What holds of all blocks holds of the block that is returned.
abbrev pub Within : List Header → R Header → Type 1
Within blocks r = (P : Header → Type 0) → All P blocks → (x : Header) → r ≡ ok x → P x

bind-Within :
    {A : Type 0} (blocks : List Header) (m : R A) (f : A → R Header)
    → ((a : A) → m ≡ ok a → Within blocks (f a))
    → Within blocks (m >>= f)
bind-Within blocks (ok a) f h P k x e = h a refl P k x e
bind-Within blocks (err e') f h P k x e = absurd (cc e)
bind-Within blocks panic f h P k x e = absurd (cc e)
bind-Within blocks stuck f h P k x e = absurd (cc e)

find_block-Within : (hash : ℕ) (blocks : List Header) → Within blocks (find_block hash blocks)
unfolding find_block
find_block-Within hash [] P k x e = absurd (cc e)
find_block-Within hash (block ∷ blocks) P k x e =
    choose (λ (r : R Header). r ≡ ok x → P x) (block.hash == hash) (ok block)
      (find_block hash blocks) (λ _ e'. subst P (cc e') k.0)
      (λ _. find_block-Within hash blocks P k.1 x) e

challenge_keeps :
    (P : Header → Type 0) (a b : Header) (d difficulty : ℕ)
    → P a
    → P b
    → P (challenge a d b difficulty).0
unfolding challenge
challenge_keeps P a b d difficulty p q =
    choose (λ (n : Header × ℕ). P n.0) (ltb d difficulty) (b, difficulty)
      (if difficulty == d then (if ltb b.hash a.hash then (b, d) else (a, d)) else (a, d)) (λ _. q)
      (λ _.
        choose (λ (n : Header × ℕ). P n.0) (difficulty == d)
          (if ltb b.hash a.hash then (b, d) else (a, d)) (a, d)
          (λ _.
            choose (λ (n : Header × ℕ). P n.0) (ltb b.hash a.hash) (b, d) (a, d) (λ _. q) (λ _. p))
          (λ _. p))

through :
    {A : Type 0} (P : Header → Type 0) (o : Option A) (k : A → Option Header) (x : Header)
    → ((a : A) → k a ≡ some x → P x)
    → elim o [ none ↦ none | some a ↦ k a ] ≡ some x
    → P x
through P none k x h e = absurd (cc e)
through P (some a) k x h e = h a e

longest_from_within :
    (P : Header → Type 0) (a : Header) (d : ℕ) (blocks : List Header)
    → P a
    → All P blocks
    → (x : Header) → longest_from a d blocks ≡ some x
    → P x
unfolding longest_from
longest_from_within P a d [] p h x e = subst P (cc e) p
longest_from_within P a d (b ∷ blocks) p h x e =
    through P (get_total_difficulty b)
      (λ difficulty.
        longest_from (challenge a d b difficulty).0 (challenge a d b difficulty).1 blocks)
      x
      (λ difficulty.
        longest_from_within P (challenge a d b difficulty).0 (challenge a d b difficulty).1 blocks
          (challenge_keeps P a b d difficulty p h.0) h.1 x)
      e

longest_start_within :
    (P : Header → Type 0) (a : Header) (o : Option ℕ) (blocks : List Header)
    → P a
    → All P blocks
    → (x : Header) → longest_start a o blocks ≡ some x
    → P x
unfolding longest_start
longest_start_within P a none blocks p h x e = absurd (cc e)
longest_start_within P a (some d) blocks p h x e = longest_from_within P a d blocks p h x e

or_panic_ok :
    {A : Type 0} (o : Option A) (x : A) → or_panic {E = ForkChoiceError} o ≡ ok x → o ≡ some x
or_panic_ok none x e = absurd (cc e)
or_panic_ok (some a) x e = cc e

or_stuck_ok : {A : Type 0} (o : Option A) (x : A) → or_stuck o ≡ ok x → o ≡ some x
or_stuck_ok none x e = absurd (cc e)
or_stuck_ok (some a) x e = cc e

-- Any way to a head ends with a block of the list.
head-Within :
    (fuel : ℕ) (s : ForkChoice) (blocks : List Header) (to_head : ℕ → R ℕ)
    → Within blocks (
        find_common_ancestor fuel s blocks >>= λ current.
        to_head current >>= λ head. find_block head blocks)
head-Within fuel s blocks to_head =
    bind-Within blocks (find_common_ancestor fuel s blocks)
      (λ current. to_head current >>= λ head. find_block head blocks)
      (λ current _.
        bind-Within blocks (to_head current) (λ head. find_block head blocks)
          (λ head _. find_block-Within head blocks))

select_ghost-Within :
    (fuel : ℕ) (s : ForkChoice) (blocks : List Header) → Within blocks (select_ghost fuel s blocks)
unfolding select_ghost
select_ghost-Within fuel s blocks = head-Within fuel s blocks (
    follow (build_block_tree [] blocks) (calculate_subtree_weight (build_block_tree [] blocks) fuel)
      fuel)

select_lmd_ghost-Within :
    (fuel : ℕ) (s : ForkChoice) (blocks : List Header)
    → Within blocks (select_lmd_ghost fuel s blocks)
unfolding select_lmd_ghost
select_lmd_ghost-Within fuel s blocks =
    head-Within fuel s blocks
      (follow (build_block_tree [] blocks) (λ hash. ok (votes get_latest_attestations hash)) fuel)

-- What holds of all blocks holds of the valid ones.
valid_keep :
    (P : Header → Type 0) (block : Header) (d : Option Bool) (rest : Option (List Header))
    (valid : List Header)
    → P block
    → ((others : List Header) → rest ≡ some others → All P others)
    → elim d [
      | none ↦ none
      | some false ↦ rest
      | some true ↦ elim rest [ none ↦ none | some others ↦ some (block ∷ others) ]
    ]
      ≡ some valid
    → All P valid
valid_keep P block none rest valid p h e = absurd (cc e)
valid_keep P block (some false) rest valid p h e = h valid e
valid_keep P block (some true) none valid p h e = absurd (cc e)
valid_keep P block (some true) (some others) valid p h e =
    let same : (block ∷ others) ≡ valid = cc e in subst (All P) same (p, h others refl)

valid_blocks-All :
    (P : Header → Type 0) (fuel : ℕ) (s : ForkChoice) (blocks valid : List Header)
    → All P blocks
    → valid_blocks fuel s blocks ≡ some valid
    → All P valid
unfolding valid_blocks
valid_blocks-All P fuel s [] valid h e = let same : [] ≡ valid = cc e in subst (All P) same tt
valid_blocks-All P fuel s (block ∷ blocks) valid h e =
    valid_keep P block (is_descendant_of fuel s block 0) (valid_blocks fuel s blocks) valid h.0
      (λ others. valid_blocks-All P fuel s blocks others h.1) e

from_valid-Within :
    (fuel : ℕ) (s : ForkChoice) (valid : List Header) → Within valid (from_valid fuel s valid)
unfolding from_valid
from_valid-Within fuel s [] P k x e = absurd (cc e)
from_valid-Within fuel s (block ∷ valid) P k x e =
    select_lmd_ghost-Within fuel s (block ∷ valid) P k x e

select_casper_ffg-Within :
    (fuel : ℕ) (s : ForkChoice) (blocks : List Header)
    → Within blocks (select_casper_ffg fuel s blocks)
unfolding select_casper_ffg
select_casper_ffg-Within fuel s blocks =
    bind-Within blocks (or_stuck (valid_blocks fuel s blocks)) (from_valid fuel s) (λ valid q P k.
      from_valid-Within fuel s valid P (
        valid_blocks-All P fuel s blocks valid k
          (or_stuck_ok (valid_blocks fuel s blocks) valid q)))

longest-Within :
    (block : Header) (blocks : List Header)
    → Within (block ∷ blocks) (or_panic (select_longest_chain (block ∷ blocks)))
unfolding select_longest_chain
longest-Within block blocks P k x e =
    longest_start_within P block (get_total_difficulty block) blocks k.0 k.1 x
      (or_panic_ok (select_longest_chain (block ∷ blocks)) x e)

select_by-Within :
    (rule : ForkChoiceRule) (fuel : ℕ) (s : ForkChoice) (block : Header) (blocks : List Header)
    → Within (block ∷ blocks) (select_by rule fuel s (block ∷ blocks))
unfolding select_by
select_by-Within longest_chain fuel s block blocks = longest-Within block blocks
select_by-Within ghost fuel s block blocks = select_ghost-Within fuel s (block ∷ blocks)
select_by-Within lmd_ghost fuel s block blocks = select_lmd_ghost-Within fuel s (block ∷ blocks)
select_by-Within casper_ffg fuel s block blocks = select_casper_ffg-Within fuel s (block ∷ blocks)

-- Under every rule, what holds of all the blocks that `select_head` chooses from holds of the block it
-- returns.
pub select_head_keeps :
    (fuel : ℕ) (s : ForkChoice) (blocks : List Header) (P : Header → Type 0)
    → All P blocks
    → (x : Header) → select_head fuel s blocks ≡ ok x
    → P x
unfolding select_head
select_head_keeps fuel s [] P k x e = absurd (cc e)
select_head_keeps fuel s (block ∷ []) P k x e = subst P (cc e) k.0
select_head_keeps fuel s (block ∷ other ∷ blocks) P k x e =
    select_by-Within s.rule fuel s block (other ∷ blocks) P k x e

casper_fails :
    (s : ForkChoice) (fuel : ℕ) (blocks : List Header)
    → Numbered (known s)
    → All (Below s fuel) blocks
    → select_casper_ffg (suc fuel) s blocks ≡ err no_valid_blocks
unfolding select_casper_ffg from_valid
casper_fails s fuel blocks w h = rw (select_casper_ffg, valid_blocks_none s fuel blocks w h) refl

-- With the Casper rule and more than one block, `select_head` returns the error that no block is valid,
-- since the checkpoint is the hash 0: the known blocks have numbers above those of their known parents,
-- and the parents of the blocks are unknown or have numbers below the fuel.
pub select_head_casper :
    (s : ForkChoice) (fuel : ℕ) (a b : Header) (blocks : List Header)
    → s.rule ≡ casper_ffg
    → Numbered (known s)
    → All (Below s fuel) (a ∷ b ∷ blocks)
    → select_head (suc fuel) s (a ∷ b ∷ blocks) ≡ err no_valid_blocks
unfolding select_head select_by
select_head_casper s fuel a b blocks r w h =
    ap (λ rule. select_by rule (suc fuel) s (a ∷ b ∷ blocks)) r
    ∙ casper_fails s fuel (a ∷ b ∷ blocks) w h
