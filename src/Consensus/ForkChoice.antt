-- ===== src/Consensus/ForkChoice.antt =====
-- crates/consensus/src/fork_choice.rs: the blocks that are known, the choice of the longest chain, and the
-- walk to the ancestors. A hash is the number that its bytes write. Of a header the model keeps what the
-- fork choice reads. The hash maps are association lists with one entry for each key, so that their order
-- is not modelled. The walk runs on fuel, and `none` is fuel that ran out.
pub mod Longest
pub mod Ancestry
pub mod Heads
pub mod Chosen
pub mod Pruning
mod Tests
use ethereum_rust.Base.{
  ℕ, zero, suc, ◌+◌, ◌*◌, ◌^◌, Bool, true, false, List, [], ◌∷◌, ◌++◌, Option, none, some, ltb,
  ◌==◌, if◌then◌else◌,
}
use ethereum_rust.Base.Assoc.{lookup, insert}

pub record Header : Type 0 where
  pub hash : ℕ
  pub parent_hash : ℕ
  pub number : ℕ

pub record BlockInfo : Type 0 where
  pub header : Header
  pub total_difficulty : ℕ
  pub weight : ℕ
  pub justified : Bool
  pub finalized : Bool

pub data ForkChoiceRule : Type 0 where
  longest_chain ghost lmd_ghost casper_ffg : ForkChoiceRule

-- The `attestations` of the source are never written.
pub record ForkChoice : Type 0 where
  pub rule : ForkChoiceRule
  pub blocks : List (ℕ × BlockInfo)
  pub children : List (ℕ × List ℕ)

abbrev pub new : ForkChoice
new = record { rule = longest_chain; blocks = []; children = [] }

abbrev pub set_rule : ForkChoiceRule → ForkChoice → ForkChoice
set_rule rule s = record s { rule = rule }

-- `entry(parent).or_insert_with(Vec::new).push(hash)`
abbrev pub or_empty : Option (List ℕ) → List ℕ
or_empty none = []
or_empty (some hashes) = hashes

abbrev pub push_child : ℕ → ℕ → List (ℕ × List ℕ) → List (ℕ × List ℕ)
push_child parent hash tree = insert parent (or_empty (lookup tree parent) ++ (hash ∷ [])) tree

abbrev pub info_of : Header → ℕ → BlockInfo
info_of block total_difficulty = record {
  header = block;
  total_difficulty = total_difficulty;
  weight = 1;
  justified = false;
  finalized = false;
}

unfoldable pub add_block : Header → ℕ → ForkChoice → ForkChoice
add_block block total_difficulty s = record s {
  blocks = insert block.hash (info_of block total_difficulty) s.blocks;
  children = push_child block.parent_hash block.hash s.children;
}

-- `get_mut(&block_hash)` and the change of what is found.
unfoldable pub update_block :
    (BlockInfo → BlockInfo) → ℕ → List (ℕ × BlockInfo) → List (ℕ × BlockInfo)
update_block f hash [] = []
update_block f hash ((key, info) ∷ rest) =
    let others = update_block f hash rest in
    if key == hash then (key, f info) ∷ others else (key, info) ∷ others

abbrev pub set_justified : BlockInfo → BlockInfo
set_justified info = record info { justified = true }

abbrev pub set_finalized : BlockInfo → BlockInfo
set_finalized info = record info { finalized = true; justified = true }

unfoldable pub mark_justified : ℕ → ForkChoice → ForkChoice
mark_justified block_hash s = record s { blocks = update_block set_justified block_hash s.blocks }

unfoldable pub mark_finalized : ℕ → ForkChoice → ForkChoice
mark_finalized block_hash s = record s { blocks = update_block set_finalized block_hash s.blocks }

-- `header.number * U256::from(1_000_000)`; `none` is the panic of the product.
unfoldable pub get_total_difficulty : Header → Option ℕ
get_total_difficulty header =
    if ltb (header.number * 1000000) (2 ^ 256) then some (header.number * 1000000) else none

-- The best block and its difficulty after one round of the loop of `select_longest_chain`.
unfoldable pub challenge : Header → ℕ → Header → ℕ → Header × ℕ
challenge best_block best_difficulty block difficulty =
    if ltb best_difficulty difficulty
    then (block, difficulty)
    else if difficulty == best_difficulty
    then (if ltb block.hash best_block.hash
        then (block, best_difficulty)
        else (best_block, best_difficulty))
    else (best_block, best_difficulty)

unfoldable pub longest_from : Header → ℕ → List Header → Option Header
longest_from best_block best_difficulty [] = some best_block
longest_from best_block best_difficulty (block ∷ blocks) = elim (get_total_difficulty block) [
  | none ↦ none
  | some difficulty ↦
      let next = challenge best_block best_difficulty block difficulty in
      longest_from next.0 next.1 blocks
]

unfoldable pub longest_start : Header → Option ℕ → List Header → Option Header
longest_start best_block none blocks = none
longest_start best_block (some best_difficulty) blocks =
    longest_from best_block best_difficulty blocks

-- `select_longest_chain`; `none` is a panic, as `blocks[0]` is on no block.
unfoldable pub select_longest_chain : List Header → Option Header
select_longest_chain [] = none
select_longest_chain (block ∷ blocks) = longest_start block (get_total_difficulty block) blocks

unfoldable pub build_block_tree : List (ℕ × List ℕ) → List Header → List (ℕ × List ℕ)
build_block_tree tree [] = tree
build_block_tree tree (block ∷ blocks) =
    build_block_tree (push_child block.parent_hash block.hash tree) blocks

-- The loop of `is_descendant_of`.
unfoldable pub descends : (ℕ → Option BlockInfo) → ℕ → ℕ → ℕ → Option Bool
descends blocks zero ancestor current = none
descends blocks (suc fuel) ancestor current = elim (current == 0) [
  | true ↦ some false
  | false ↦ elim (current == ancestor) [
    | true ↦ some true
    | false ↦ elim (blocks current) [
      | none ↦ some false
      | some info ↦ descends blocks fuel ancestor info.header.parent_hash
    ]
  ]
]

abbrev pub known : ForkChoice → ℕ → Option BlockInfo
known s = lookup s.blocks

unfoldable pub is_descendant_of : ℕ → ForkChoice → Header → ℕ → Option Bool
is_descendant_of fuel s block ancestor = descends (known s) fuel ancestor block.parent_hash

-- `find_common_ancestor` needs more than the list, so that `select_casper_ffg` is modelled up to its
-- choice of `valid_blocks`. `get_justified_checkpoint` returns the hash 0.
unfoldable pub valid_blocks : ℕ → ForkChoice → List Header → Option (List Header)
valid_blocks fuel s [] = some []
valid_blocks fuel s (block ∷ blocks) =
    let rest = valid_blocks fuel s blocks in
    elim (is_descendant_of fuel s block 0) [
      | none ↦ none
      | some false ↦ rest
      | some true ↦ elim rest [ none ↦ none | some others ↦ some (block ∷ others) ]
    ]
