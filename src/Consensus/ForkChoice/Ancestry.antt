-- ===== src/Consensus/ForkChoice/Ancestry.antt =====
-- crates/consensus/src/fork_choice.rs: `is_descendant_of`, `add_block` and the marks.
use ethereum_rust.Base.{
  ℕ, zero, suc, ◌<◌, ◌≡◌, ◌≢◌, ◌⊎◌, inl, inr, refl, subst, Bool, true, false, List, [], ◌∷◌, Option,
  none, some, arith, ◌==◌, Bool-cases, All,
}
use ethereum_rust.Consensus.ForkChoice.{
  Header, BlockInfo, ForkChoice, descends, known, is_descendant_of, valid_blocks,
}

module _ (blocks : ℕ → Option BlockInfo) where
  -- `ancestor` is reached from `current` by `n` known parents, on no hash that is 0.
  abbrev pub Walk : ℕ → ℕ → ℕ → Type 0
  Walk zero ancestor current = (current ≢ 0) × (current ≡ ancestor)
  Walk (suc n) ancestor current =
      (current ≢ 0)
      × ((info : BlockInfo) × ((blocks current ≡ some info)
            × Walk n ancestor info.header.parent_hash))

  abbrev pub IsAncestor : ℕ → ℕ → Type 0
  IsAncestor ancestor current = (n : ℕ) × Walk n ancestor current

  -- The number of a known block is above that of its parent, where the parent is known.
  abbrev pub Numbered : Type 0
  Numbered =
      (hash : ℕ) (child parent : BlockInfo)
      → blocks hash ≡ some child
      → blocks child.header.parent_hash ≡ some parent
      → parent.header.number < child.header.number

  -- The walk decides the ancestry.
  abbrev pub Decides : ℕ → ℕ → Option Bool → Type 0
  Decides ancestor current o =
      ((o ≡ some true) × IsAncestor ancestor current)
      ⊎ ((o ≡ some false) × (IsAncestor ancestor current → ⊥))

  Walk-nonzero : (n ancestor current : ℕ) → Walk n ancestor current → current ≢ 0
  Walk-nonzero zero ancestor current p = p.0
  Walk-nonzero (suc n) ancestor current p = p.0

  Walk-unknown :
      (n ancestor current : ℕ)
      → current ≢ ancestor
      → blocks current ≡ none
      → Walk n ancestor current
      → ⊥
  Walk-unknown zero ancestor current n e p = n p.1
  Walk-unknown (suc k) ancestor current n e (_, (info, (known_as, p))) = absurd (cc (e, known_as))

  Walk-parent :
      (n ancestor current : ℕ) (info : BlockInfo)
      → current ≢ ancestor
      → blocks current ≡ some info
      → Walk n ancestor current
      → IsAncestor ancestor info.header.parent_hash
  Walk-parent zero ancestor current info n e p = absurd (n p.1)
  Walk-parent (suc k) ancestor current info n e (_, (found, (known_as, p))) =
      let same : found ≡ info = cc (known_as, e) in
      (k, subst (λ (i : BlockInfo). Walk k ancestor i.header.parent_hash) same p)

  -- The walk from a known block decides as the walk from its parent.
  from_parent :
      (ancestor current : ℕ) (info : BlockInfo) (o : Option Bool)
      → current ≢ 0
      → current ≢ ancestor
      → blocks current ≡ some info
      → Decides ancestor info.header.parent_hash o
      → Decides ancestor current o
  from_parent ancestor current info o z n e (inl r) =
      inl (r.0, (suc r.1.0, (z, (info, (e, r.1.1)))))
  from_parent ancestor current info o z n e (inr r) =
      inr (r.0, λ p. r.1 (Walk-parent p.0 ancestor current info n e p.1))

  Option-cases : {A : Type 0} (o : Option A) → (o ≡ none) ⊎ ((a : A) × (o ≡ some a))
  Option-cases none = inl refl
  Option-cases (some a) = inr (a, refl)

  ==_no : (a b : ℕ) → (a == b) ≡ false → a ≢ b
  ==_no a b h e = ground (arith, h, e)

  -- One round of the walk, when the rest of it decides.
  round-Decides :
      (fuel ancestor current : ℕ)
      → ((info : BlockInfo)
          → blocks current ≡ some info
          → Decides ancestor info.header.parent_hash
              (descends blocks fuel ancestor info.header.parent_hash))
      → Decides ancestor current (descends blocks (suc fuel) ancestor current)
  unfolding descends
  round-Decides fuel ancestor current next = elim (Bool-cases (current == 0)) [
    | inl z ↦
        rw (descends, z)
          (inr (refl, λ p. Walk-nonzero p.0 ancestor current p.1 (ground (arith, z))))
    | inr z ↦ elim (Bool-cases (current == ancestor)) [
      | inl a ↦ rw (descends, z, a) (inl (refl, (zero, (==_no current 0 z, ground (arith, a)))))
      | inr a ↦ elim (Option-cases (blocks current)) [
        | inl e ↦
            rw (descends, z, a, e)
              (inr (refl, λ p. Walk-unknown p.0 ancestor current (==_no current ancestor a) e p.1))
        | inr (info, e) ↦
            rw (descends, z, a, e)
              (from_parent ancestor current info
                (descends blocks fuel ancestor info.header.parent_hash) (==_no current 0 z)
                (==_no current ancestor a) e (next info e))
      ]
    ]
  ]

  -- Fuel above the number of the first known block is enough for the walk.
  descends-Decides :
      Numbered
      → (fuel ancestor current : ℕ)
      → ((info : BlockInfo) → blocks current ≡ some info → info.header.number < fuel)
      → Decides ancestor current (descends blocks (suc fuel) ancestor current)
  descends-Decides w zero ancestor current l =
      round-Decides zero ancestor current (λ info e. absurd (omega (arith, l info e)))
  descends-Decides w (suc fuel) ancestor current l =
      round-Decides (suc fuel) ancestor current (λ info e.
        descends-Decides w fuel ancestor info.header.parent_hash
          (λ parent q. omega (arith, w current info parent e q, l info e)))

-- The parent of a block is unknown or has a number below the fuel.
abbrev pub Below : ForkChoice → ℕ → Header → Type 0
Below s fuel block =
    (info : BlockInfo) → known s block.parent_hash ≡ some info → info.header.number < fuel

-- When a block that is known has a number above that of its known parent, and the parent of `block` is
-- unknown or has a number below `fuel`, `is_descendant_of` ends and decides whether the hash is reached
-- from the parent by known blocks before a hash that is 0.
pub is_descendant_of-Decides :
    (s : ForkChoice) (block : Header) (ancestor fuel : ℕ)
    → Numbered (known s)
    → Below s fuel block
    → Decides (known s) ancestor block.parent_hash (is_descendant_of (suc fuel) s block ancestor)
unfolding is_descendant_of
is_descendant_of-Decides s block ancestor fuel w l =
    descends-Decides (known s) w fuel ancestor block.parent_hash l

no_zero : (blocks : ℕ → Option BlockInfo) (n current : ℕ) → Walk blocks n 0 current → ⊥
no_zero blocks zero current p = p.0 p.1
no_zero blocks (suc n) current (_, (info, (_, p))) = no_zero blocks n info.header.parent_hash p

descends_zero :
    (s : ForkChoice) (block : Header) (o : Option Bool)
    → Decides (known s) 0 block.parent_hash o
    → o ≡ some false
descends_zero s block o (inl r) = absurd (no_zero (known s) r.1.0 block.parent_hash r.1.1)
descends_zero s block o (inr r) = r.0

pub valid_blocks_none :
    (s : ForkChoice) (fuel : ℕ) (blocks : List Header)
    → Numbered (known s)
    → All (Below s fuel) blocks
    → valid_blocks (suc fuel) s blocks ≡ some []
unfolding valid_blocks
valid_blocks_none s fuel [] w h = refl
valid_blocks_none s fuel (block ∷ blocks) w h =
    rw
      (
        valid_blocks,
        descends_zero s block (is_descendant_of (suc fuel) s block 0)
            (is_descendant_of-Decides s block 0 fuel w h.0),
      )
      (valid_blocks_none s fuel blocks w h.1)
