-- ===== src/Trie/Patricia/Compact.antt =====
-- crates/trie/src/trie.rs: `try_compact_branch` keeps every answer of the branch.
use ethereum_rust.Base.{
  ℕ, zero, suc, ◌+◌, ◌<◌, ◌≡◌, ◌≢◌, refl, sym, ap, ◌∙◌, subst, List, [], ◌∷◌, Option, none, some,
  arith, inl, inr,
}
use ethereum_rust.Base.Result.{ok}
use ethereum_rust.Trie.Nibbles.{Nibbles, matching}
use ethereum_rust.Trie.Nibbles
use ethereum_rust.Trie.Nibbles.Split.{IsPath}
use ethereum_rust.Trie.Node.{
  Node, empty, leaf, extension, branch, NodeRef, Children, nil, absent, present, child, Externals,
}
use ethereum_rust.Trie.Patricia.{resolve_slot, occupied, join_child, compact_by, try_compact_branch}
use ethereum_rust.Trie.Patricia.Slots.{count, child-total}
use ethereum_rust.Trie.Patricia.Holds
use ethereum_rust.Trie.Patricia.Holds.{Holds}
use ethereum_rust.Trie.Patricia.WellFormed.{WfNode, child-WfSlot}
use ethereum_rust.Trie.Patricia.Updated.{Value, Loads, Keeps, Refers, Like, resolve_node_ref-total}
use ethereum_rust.Trie.Patricia.Parts.{equal-cases, Like-leaf, Like-extension}
use ethereum_rust.Trie.Patricia.Branches.{branch-child}

occupied-none :
    (i : ℕ) (cs : Children) (j : ℕ) (s : Option NodeRef)
    → occupied i cs ≡ []
    → child cs j ≡ some s
    → s ≡ none
unfolding occupied child
occupied-none i nil j s h e = absurd (cc e)
occupied-none i (absent cs) zero s h e = cc e
occupied-none i (absent cs) (suc j) s h e = occupied-none (suc i) cs j s h e
occupied-none i (present r cs) j s h e = absurd (cc h)

-- The one child that is there.
record Only (i : ℕ) (cs : Children) (n : ℕ) (r : NodeRef) : Type 0 where
  pub at : ℕ
  pub place : n ≡ i + at
  pub here : child cs at ≡ some (some r)
  pub others : (l : ℕ) (s : Option NodeRef) → l ≢ at → child cs l ≡ some s → s ≡ none

others_absent :
    (cs : Children) (j l : ℕ) (s : Option NodeRef)
    → ((l : ℕ) (s : Option NodeRef) → l ≢ j → child cs l ≡ some s → s ≡ none)
    → l ≢ suc j
    → child (absent cs) l ≡ some s
    → s ≡ none
unfolding child
others_absent cs j zero s f d e = cc e
others_absent cs j (suc l) s f d e = f l s (λ g. d (ap suc g)) e

others_present :
    (i : ℕ) (r : NodeRef) (cs : Children) (l : ℕ) (s : Option NodeRef)
    → occupied i cs ≡ []
    → l ≢ 0
    → child (present r cs) l ≡ some s
    → s ≡ none
unfolding child
others_present i r cs zero s h d e = absurd (d refl)
others_present i r cs (suc l) s h d e = occupied-none i cs l s h e

cons-parts :
    (i n : ℕ) (q r : NodeRef) (rest : List (ℕ × NodeRef))
    → (i, q) ∷ rest ≡ (n, r) ∷ []
    → (i ≡ n) × (q ≡ r) × (rest ≡ [])
cons-parts i n q r rest h = (cc h, cc h, cc h)

occupied-one :
    (i : ℕ) (cs : Children) (n : ℕ) (r : NodeRef) → occupied i cs ≡ (n, r) ∷ [] → Only i cs n r
unfolding occupied child
occupied-one i nil n r h = absurd (cc h)
occupied-one i (absent cs) n r h =
    let t = occupied-one (suc i) cs n r h in
    record {
      at = suc t.at;
      place = omega (arith, t.place);
      here = t.here;
      others = λ l s d e. others_absent cs t.at l s t.others d e;
    }
occupied-one i (present q cs) n r h = record {
  at = 0;
  place = let t = cons-parts i n q r (occupied (suc i) cs) h in omega (arith, t.0);
  here = ap (λ z. some (some z)) (cons-parts i n q r (occupied (suc i) cs) h).1;
  others =
      λ l s d e. others_present (suc i) q cs l s (cons-parts i n q r (occupied (suc i) cs) h).2 d e;
}

child-below : (cs : Children) (j : ℕ) (s : Option NodeRef) → child cs j ≡ some s → j < count cs
unfolding child count
child-below nil j s e = absurd (cc e)
child-below (absent cs) zero s e = omega arith
child-below (present r cs) zero s e = omega arith
child-below (absent cs) (suc j) s e = omega (arith, child-below cs j s e)
child-below (present r cs) (suc j) s e = omega (arith, child-below cs j s e)

module _ (x : Externals) (Stored : List ℕ → Type 0) (loads : Loads x Stored)
    (keeps : Keeps x Stored) where
  branch-empty_slot :
      (cs : Children) (v : Value) (j : ℕ) (q : List ℕ) (p : Value) (n : Node)
      → WfNode Stored (branch cs v)
      → IsPath (j ∷ q)
      → ((s : Option NodeRef) → child cs j ≡ some s → s ≡ none)
      → Holds x (branch cs v) (j ∷ q) p
      → Holds x n (j ∷ q) none
      → Holds x n (j ∷ q) p
  unfolding WfNode resolve_slot
  branch-empty_slot cs v j q p n (e, w) i f h g =
      let (s, d) = child-total cs j (subst (λ z. j < z) (sym e) i.0) in
      subst (Holds x n (j ∷ q))
        (Holds.Holds-unique x (branch cs v) (j ∷ q) none p
          (Holds.Holds-branch x cs v j q none empty none (d ∙ ap some (f s d)) refl
            (Holds.Holds-empty x q))
          h)
        g

  branch-end :
      (cs : Children) (v p : Value) (n : Node)
      → Holds x (branch cs v) [] p
      → Holds x n [] v
      → Holds x n [] p
  branch-end cs v p n h g =
      subst (Holds x n [])
        (Holds.Holds-unique x (branch cs v) [] v p (Holds.Holds-branch_end x cs v) h) g

  Like-no_child :
      (cs : Children)
      → WfNode Stored (branch cs none)
      → occupied 0 cs ≡ []
      → Like x Stored loads keeps (branch cs none) empty
  Like-no_child cs w e [] p i h = branch-end cs none p empty h (Holds.Holds-empty x [])
  Like-no_child cs w e (j ∷ q) p i h =
      branch-empty_slot cs none j q p empty w i (λ s. occupied-none 0 cs j s e) h
        (Holds.Holds-empty x (j ∷ q))

  Like-only_value :
      (cs : Children) (v : List ℕ)
      → WfNode Stored (branch cs (some v))
      → occupied 0 cs ≡ []
      → Like x Stored loads keeps (branch cs (some v)) (leaf (Nibbles.new []) v)
  Like-only_value cs v w e [] p i h =
      branch-end cs (some v) p (leaf (Nibbles.new []) v) h (Holds.Holds-leaf_same x [] v)
  Like-only_value cs v w e (j ∷ q) p i h =
      branch-empty_slot cs (some v) j q p (leaf (Nibbles.new []) v) w i
        (λ s. occupied-none 0 cs j s e) h (Holds.Holds-leaf_other x [] (j ∷ q) v (λ z. cc z))

  Like-one_child :
      (cs : Children) (m : ℕ) (r : NodeRef) (c : Node)
      → WfNode Stored (branch cs none)
      → Only 0 cs m r
      → Refers x Stored loads keeps r c
      → WfNode Stored c
      → Like x Stored loads keeps (branch cs none) (extension (Nibbles.new (m ∷ [])) r)
  unfolding matching resolve_slot
  Like-one_child cs m r c w t f wc [] p i h =
      branch-end cs none p (extension (Nibbles.new (m ∷ [])) r) h
        (Holds.Holds-extension_other x (m ∷ []) [] r refl)
  Like-one_child cs m r c w t f wc (j ∷ q) p i h = elim (equal-cases j t.at) [
    | inl e ↦
        subst (λ z. Holds x (extension (Nibbles.new (m ∷ [])) r) (z ∷ q) p)
          (omega (arith, t.place, e))
          (Holds.Holds-extension x (m ∷ []) q r c p (λ z. cc z) f.1
            (branch-child x Stored loads keeps cs none j q (some r) c p (ap (child cs) e ∙ t.here)
              f.1 wc i.1 h))
    | inr d ↦
        branch-empty_slot cs none j q p (extension (Nibbles.new (m ∷ [])) r) w i
          (λ s. t.others j s d) h
          (Holds.Holds-extension_other x (m ∷ []) (j ∷ q) r (ground (arith, d, t.place)))
  ]

  -- A node that answers as another does, and is well formed.
  abbrev pub Keeping : Node → Node → Type 0
  Keeping n m = WfNode Stored m × Like x Stored loads keeps n m

  Keeping-trans : (n m t : Node) → Like x Stored loads keeps n m → Keeping m t → Keeping n t
  Keeping-trans n m t f (w, g) = (w, λ q p i h. g q p i (f q p i h))

  join_child-Keeping :
      (m : ℕ) (r : NodeRef) (c : Node)
      → m < 16
      → Refers x Stored loads keeps r c
      → WfNode Stored c
      → Keeping (extension (Nibbles.new (m ∷ [])) r) (join_child x m r c)
  unfolding join_child WfNode
  join_child-Keeping m r (leaf b v) l f w =
      ((l, w), Like-leaf x Stored loads keeps (m ∷ []) b.items v r (λ z. cc z) w f)
  join_child-Keeping m r (extension b r') l f (n, (i, w)) =
      let (c, h, w') = resolve_node_ref-total x Stored loads keeps r' w in
      (
        ((λ z. cc z), ((l, i), w)),
        Like-extension x Stored loads keeps (m ∷ []) b.items r r' c (λ z. cc z) n i f (w, h) w',
      )
  join_child-Keeping m r empty l f w = (((λ z. cc z), ((l, tt), f.0)), λ q p i h. h)
  join_child-Keeping m r (branch cs v) l f w = (((λ z. cc z), ((l, tt), f.0)), λ q p i h. h)

  compact_by-Keeping :
      (found : List (ℕ × NodeRef)) (cs : Children) (v : Value)
      → WfNode Stored (branch cs v)
      → occupied 0 cs ≡ found
      → (m : Node) × (compact_by x found cs v ≡ ok m) × Keeping (branch cs v) m
  unfolding compact_by WfNode
  compact_by-Keeping [] cs none w e = (empty, refl, (tt, Like-no_child cs w e))
  compact_by-Keeping [] cs (some v) w e =
      (leaf (Nibbles.new []) v, refl, (tt, Like-only_value cs v w e))
  compact_by-Keeping ((j, r) ∷ []) cs none w e =
      let t = occupied-one 0 cs j r e in
      let (c, h, w') =
        resolve_node_ref-total x Stored loads keeps r
          (child-WfSlot Stored cs t.at (some r) w.1 t.here) in
      let f : Refers x Stored loads keeps r c =
        (child-WfSlot Stored cs t.at (some r) w.1 t.here, h) in
      (
        join_child x j r c,
        rw h refl,
        Keeping-trans (branch cs none) (extension (Nibbles.new (j ∷ [])) r) (join_child x j r c)
            (Like-one_child cs j r c w t f w')
            (join_child-Keeping j r c
              (omega (arith, t.place, w.0, child-below cs t.at (some r) t.here)) f w'),
      )
  compact_by-Keeping ((j, r) ∷ []) cs (some v) w e = (branch cs (some v), refl, (w, λ q p i h. h))
  compact_by-Keeping (c ∷ d ∷ found) cs v w e = (branch cs v, refl, (w, λ q p i h. h))

  pub try_compact_branch-Keeping :
      (cs : Children) (v : Value)
      → WfNode Stored (branch cs v)
      → (m : Node) × (try_compact_branch x cs v ≡ ok m) × Keeping (branch cs v) m
  try_compact_branch-Keeping cs v w = compact_by-Keeping (occupied 0 cs) cs v w refl
