-- ===== src/Consensus/ForkChoice/Tests.antt =====
-- The fork choice on a genesis block and two blocks above it.
use ethereum_rust.Base.{ℕ, ◌<◌, ◌≡◌, refl, sym, subst, [], ◌∷◌, Option, none, some, arith, ◌==◌}
use ethereum_rust.Base.Assoc.{lookup, erase, insert}
use ethereum_rust.Base.Sorting.{choose}
use ethereum_rust.Base.Result.{ok, err}
use ethereum_rust.Consensus.ForkChoice.{
  Header, BlockInfo, ForkChoice, casper_ffg, known, info_of, add_block, challenge, longest_from,
  longest_start, select_longest_chain, get_total_difficulty, is_descendant_of, new, set_rule,
  build_block_tree, ghost,
}
use ethereum_rust.Consensus.ForkChoice.Longest.{select_longest_chain_unordered}
use ethereum_rust.Consensus.ForkChoice.Ancestry.{Numbered, Below, Decides, is_descendant_of-Decides}
use ethereum_rust.Consensus.ForkChoice.Heads.{
  select_head, select_by, select_ghost, find_common_ancestor, ancestors, meet, meet_all, contains,
  follow, heaviest, add_weights, calculate_subtree_weight, find_block, no_valid_blocks,
}
use ethereum_rust.Consensus.ForkChoice.Chosen.{select_head_keeps, select_head_casper}

abbrev genesis : Header
genesis = record { hash = 1; parent_hash = 0; number = 0 }

abbrev block_two : Header
block_two = record { hash = 2; parent_hash = 1; number = 1 }

abbrev block_three : Header
block_three = record { hash = 3; parent_hash = 1; number = 1 }

abbrev block_four : Header
block_four = record { hash = 4; parent_hash = 3; number = 2 }

abbrev state : ForkChoice
state = record {
  rule = casper_ffg;
  blocks = (1, info_of genesis 0) ∷ [];
  children = (0, 1 ∷ []) ∷ [];
}

genesis_added : add_block genesis 0 (set_rule casper_ffg new) ≡ state
unfolding add_block insert erase lookup
genesis_added = refl

one_known :
    (hash : ℕ) (child : BlockInfo) → known state hash ≡ some child → child ≡ info_of genesis 0
unfolding lookup
one_known hash child e =
    choose (λ (o : Option BlockInfo). o ≡ some child → child ≡ info_of genesis 0) (1 == hash)
      (some (info_of genesis 0)) none (λ _ q. cc q) (λ _ q. absurd (cc q)) e

state-Numbered : Numbered (known state)
unfolding lookup
state-Numbered hash child parent e q =
    let unknown : none ≡ some parent =
      subst (λ (c : BlockInfo). known state c.header.parent_hash ≡ some parent)
        (one_known hash child e) q in
    absurd (cc unknown)

child-Below : (b : Header) → Below state 1 b
child-Below b info e =
    subst (λ (i : BlockInfo). i.header.number < 1) (sym (one_known b.parent_hash info e))
      (omega arith)

is_descendant_of-Decides_example : Decides (known state) 1 1 (is_descendant_of 2 state block_two 1)
is_descendant_of-Decides_example =
    is_descendant_of-Decides state block_two 1 1 state-Numbered (child-Below block_two)

select_head_casper_example :
    select_head 2 state (block_two ∷ block_three ∷ []) ≡ err no_valid_blocks
select_head_casper_example =
    select_head_casper state 1 block_two block_three [] refl state-Numbered
      (child-Below block_two, (child-Below block_three, tt))

lowest_hash : select_longest_chain (block_two ∷ block_three ∷ []) ≡ some block_two
unfolding select_longest_chain longest_start longest_from challenge get_total_difficulty
lowest_hash = refl

lowest_hash_last : select_longest_chain (block_three ∷ block_two ∷ []) ≡ some block_two
unfolding select_longest_chain longest_start longest_from challenge get_total_difficulty
lowest_hash_last = refl

select_longest_chain_unordered_example : (1 ≡ block_two.number) × (block_two.hash ≡ 2)
select_longest_chain_unordered_example =
    select_longest_chain_unordered block_two block_three (block_three ∷ []) (block_two ∷ [])
      (omega arith, (omega arith, tt)) (omega arith, (omega arith, tt))
      (λ P h. (h.1.0, (h.0, h.1.1))) (λ P h. (h.1.0, (h.0, h.1.1))) block_two block_two lowest_hash
      lowest_hash_last

heaviest_subtree :
    select_head 4 (set_rule ghost state) (block_two ∷ block_three ∷ block_four ∷ []) ≡ ok block_four
unfolding select_head select_by select_ghost find_common_ancestor ancestors meet meet_all contains
    follow heaviest add_weights calculate_subtree_weight find_block build_block_tree lookup insert
    erase
heaviest_subtree = refl

select_head_keeps_example : 0 < block_four.number
select_head_keeps_example =
    select_head_keeps 4 (set_rule ghost state) (block_two ∷ block_three ∷ block_four ∷ [])
      (λ b. 0 < b.number) (omega arith, (omega arith, (omega arith, tt))) block_four
      heaviest_subtree
