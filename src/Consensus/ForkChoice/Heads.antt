-- ===== src/Consensus/ForkChoice/Heads.antt =====
-- crates/consensus/src/fork_choice.rs: `select_head` with its four rules. The tree of blocks maps a parent to
-- its children. Every loop runs on `fuel`, and `stuck` is fuel that ran out; a weight is a `u64`.
use ethereum_rust.Base.{
  ℕ, zero, suc, ◌+◌, ◌^◌, Bool, true, false, List, [], ◌∷◌, Option, none, some, ltb, ◌==◌,
  if◌then◌else◌,
}
use ethereum_rust.Base.Assoc.{lookup}
use ethereum_rust.Base.Result.{Result, ok, err, panic, stuck, ◌>>=◌, or_panic}
use ethereum_rust.Consensus.ForkChoice.{
  Header, BlockInfo, ForkChoice, ForkChoiceRule, longest_chain, ghost, lmd_ghost, casper_ffg, known,
  build_block_tree, or_empty, select_longest_chain, valid_blocks,
}

-- The texts of `ConsensusError::ForkChoiceError`.
pub data ForkChoiceError : Type 0 where
  no_blocks_to_select selected_not_found no_valid_blocks no_blocks_provided : ForkChoiceError

abbrev pub R : Type 0 → Type 0
R = Result ForkChoiceError

abbrev pub or_stuck : {A : Type 0} → Option A → R A
or_stuck none = stuck
or_stuck (some a) = ok a

-- The first loop of `find_common_ancestor`: the set of ancestors, and where the walk stops.
unfoldable pub ancestors : (ℕ → Option BlockInfo) → ℕ → List ℕ → ℕ → Option (List ℕ × ℕ)
ancestors blocks zero found current = none
ancestors blocks (suc fuel) found current = elim (current == 0) [
  | true ↦ some (found, current)
  | false ↦ elim (blocks current) [
    | none ↦ some (current ∷ found, current)
    | some info ↦ ancestors blocks fuel (current ∷ found) info.header.parent_hash
  ]
]

unfoldable pub contains : List ℕ → ℕ → Bool
contains [] hash = false
contains (h ∷ hashes) hash = if h == hash then true else contains hashes hash

-- The inner loop of `find_common_ancestor` for one of the other blocks.
unfoldable pub meet : (ℕ → Option BlockInfo) → ℕ → List ℕ → ℕ → Option ℕ
meet blocks zero found current = none
meet blocks (suc fuel) found current = elim (current == 0) [
  | true ↦ some current
  | false ↦ elim (contains found current) [
    | true ↦ some current
    | false ↦ elim (blocks current) [
      | none ↦ some current
      | some info ↦ meet blocks fuel found info.header.parent_hash
    ]
  ]
]

-- The outer loop; every block overwrites `current`.
unfoldable pub meet_all : (ℕ → Option BlockInfo) → ℕ → List ℕ → ℕ → List Header → Option ℕ
meet_all blocks fuel found current [] = some current
meet_all blocks fuel found current (block ∷ rest) =
    elim (meet blocks fuel found block.parent_hash) [
      | none ↦ none
      | some next ↦ meet_all blocks fuel found next rest
    ]

unfoldable pub find_common_ancestor : ℕ → ForkChoice → List Header → R ℕ
find_common_ancestor fuel s [] = err no_blocks_provided
find_common_ancestor fuel s (block ∷ blocks) = do
  (found, current) ← or_stuck (ancestors (known s) fuel [] block.parent_hash)
  or_stuck (meet_all (known s) fuel found current blocks)

-- The sum over the children in `calculate_subtree_weight`.
unfoldable pub add_weights : (ℕ → R ℕ) → ℕ → List ℕ → R ℕ
add_weights weight_of weight [] = ok weight
add_weights weight_of weight (child ∷ children) = do
  w ← weight_of child
  if ltb (weight + w) (2 ^ 64) then add_weights weight_of (weight + w) children else panic

unfoldable pub calculate_subtree_weight : List (ℕ × List ℕ) → ℕ → ℕ → R ℕ
calculate_subtree_weight tree zero root = stuck
calculate_subtree_weight tree (suc fuel) root =
    add_weights (calculate_subtree_weight tree fuel) 1 (or_empty (lookup tree root))

-- The loop over the children after the first.
unfoldable pub heaviest : (ℕ → R ℕ) → ℕ → ℕ → List ℕ → R ℕ
heaviest weight_of best best_weight [] = ok best
heaviest weight_of best best_weight (child ∷ children) = do
  weight ← weight_of child
  if ltb best_weight weight
      then heaviest weight_of child weight children
      else heaviest weight_of best best_weight children

-- `while let Some(children) = tree.get(&current)`
unfoldable pub follow : List (ℕ × List ℕ) → (ℕ → R ℕ) → ℕ → ℕ → R ℕ
follow tree weight_of zero current = stuck
follow tree weight_of (suc fuel) current = elim (or_empty (lookup tree current)) [
  | [] ↦ ok current
  | child ∷ children ↦ weight_of child >>= λ weight.
      heaviest weight_of child weight children >>= λ next. follow tree weight_of fuel next
]

unfoldable pub find_block : ℕ → List Header → R Header
find_block hash [] = err selected_not_found
find_block hash (block ∷ blocks) = if block.hash == hash then ok block else find_block hash blocks

unfoldable pub select_ghost : ℕ → ForkChoice → List Header → R Header
select_ghost fuel s blocks = do
  current ← find_common_ancestor fuel s blocks
  head ←
      follow (build_block_tree [] blocks)
        (calculate_subtree_weight (build_block_tree [] blocks) fuel) fuel current
  find_block head blocks

-- The targets of the attestations: none are stored.
abbrev pub get_latest_attestations : List ℕ
get_latest_attestations = []

-- The weight of a block among the targets.
unfoldable pub votes : List ℕ → ℕ → ℕ
votes [] hash = 0
votes (target ∷ targets) hash =
    let rest = votes targets hash in if target == hash then suc rest else rest

unfoldable pub select_lmd_ghost : ℕ → ForkChoice → List Header → R Header
select_lmd_ghost fuel s blocks = do
  current ← find_common_ancestor fuel s blocks
  head ←
      follow (build_block_tree [] blocks) (λ hash. ok (votes get_latest_attestations hash)) fuel
        current
  find_block head blocks

unfoldable pub from_valid : ℕ → ForkChoice → List Header → R Header
from_valid fuel s [] = err no_valid_blocks
from_valid fuel s (block ∷ blocks) = select_lmd_ghost fuel s (block ∷ blocks)

unfoldable pub select_casper_ffg : ℕ → ForkChoice → List Header → R Header
select_casper_ffg fuel s blocks = or_stuck (valid_blocks fuel s blocks) >>= from_valid fuel s

unfoldable pub select_by : ForkChoiceRule → ℕ → ForkChoice → List Header → R Header
select_by longest_chain fuel s blocks = or_panic (select_longest_chain blocks)
select_by ghost fuel s blocks = select_ghost fuel s blocks
select_by lmd_ghost fuel s blocks = select_lmd_ghost fuel s blocks
select_by casper_ffg fuel s blocks = select_casper_ffg fuel s blocks

unfoldable pub select_head : ℕ → ForkChoice → List Header → R Header
select_head fuel s [] = err no_blocks_to_select
select_head fuel s (block ∷ []) = ok block
select_head fuel s (block ∷ other ∷ blocks) = select_by s.rule fuel s (block ∷ other ∷ blocks)
