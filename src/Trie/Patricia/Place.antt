-- ===== src/Trie/Patricia/Place.antt =====
-- crates/trie/src/trie.rs: the branch that a leaf or an extension is split into.
use ethereum_rust.Base.{
  ℕ, ◌<◌, ◌≡◌, ◌≢◌, refl, sym, ap, ◌∙◌, subst, List, [], ◌∷◌, ◌++◌, Option, none, some, arith, inl,
  inr,
}
use ethereum_rust.Base.Result.{ok}
use ethereum_rust.Trie.Nibbles.{Nibbles, matching}
use ethereum_rust.Trie.Nibbles
use ethereum_rust.Trie.Nibbles.Split.{IsPath, Apart}
use ethereum_rust.Trie.Node.{
  Node, empty, leaf, extension, branch, NodeRef, Children, child, set_child, no_children, Externals,
}
use ethereum_rust.Trie.Patricia.{
  resolve_slot, place, place_extension, with_prefix, split_leaf, split_extension,
}
use ethereum_rust.Trie.Patricia.Slots.{
  Replaced, count-no_children, child-no_children, set_child-Replaced,
}
use ethereum_rust.Trie.Patricia.Holds
use ethereum_rust.Trie.Patricia.Holds.{Holds, same-cases}
use ethereum_rust.Trie.Patricia.WellFormed.{WfNode, no_children-WfChildren, set_child-WfChildren}
use ethereum_rust.Trie.Patricia.Updated.{
  Value, Loads, Keeps, Updated, Refers, Like, Below, from_node-Refers, Updated-extension,
}
use ethereum_rust.Trie.Patricia.Parts.{
  equal-cases, Holds-from, Below-extension, Below-extension_split, Below-leaf,
}
use ethereum_rust.Trie.Patricia.Branches.{Updated-branch, Updated-value}

-- Nothing is yet at the first nibble of the path.
abbrev Free : Children → List ℕ → Type 0
Free cs [] = Unit
Free cs (m ∷ rest) = child cs m ≡ some none

Free-others :
    (cs cs' : Children) (m : ℕ) (a : List ℕ) (s : Option NodeRef) (b : List ℕ)
    → Replaced cs m s cs'
    → Apart (m ∷ a) b
    → Free cs b
    → Free cs' b
Free-others cs cs' m a s [] r d h = tt
Free-others cs cs' m a s (j ∷ b) r d h = r.others j (λ e. d (sym e)) ∙ h

Free-new : (b : List ℕ) → IsPath b → Free (no_children 16) b
Free-new [] i = tt
Free-new (m ∷ b) i = child-no_children 16 m i.0

module _ (x : Externals) (Stored : List ℕ → Type 0) (loads : Loads x Stored)
    (keeps : Keeps x Stored) where
  -- A new leaf in the place of nothing.
  pub Updated-leaf :
      (k v : List ℕ)
      → IsPath k
      → Updated x Stored loads keeps empty k (some v) (leaf (Nibbles.new k) v)
  unfolding WfNode
  Updated-leaf k v i = record {
    formed = i;
    here = Holds.Holds-leaf_same x k v;
    others = λ q p j d h.
        subst (Holds x (leaf (Nibbles.new k) v) q)
          (Holds.Holds-unique x empty q none p (Holds.Holds-empty x q) h)
          (Holds.Holds-leaf_other x k q v d);
  }

  new_branch-WfNode : WfNode Stored (branch (no_children 16) none)
  unfolding WfNode
  new_branch-WfNode = (count-no_children 16, no_children-WfChildren Stored 16)

  Holds-new_branch : (q : List ℕ) → IsPath q → Holds x (branch (no_children 16) none) q none
  unfolding resolve_slot
  Holds-new_branch [] i = Holds.Holds-branch_end x (no_children 16) none
  Holds-new_branch (m ∷ q) i =
      Holds.Holds-branch x (no_children 16) none m q none empty none (child-no_children 16 m i.0)
        refl (Holds.Holds-empty x q)

  place_lem :
      (a v : List ℕ) (cs : Children) (o : Value)
      → WfNode Stored (branch cs o)
      → IsPath a
      → Free cs a
      → (cs' : Children) × (o' : Value) × (place x a v cs o ≡ ok (cs', o'))
        × Updated x Stored loads keeps (branch cs o) a (some v) (branch cs' o')
        × ((b : List ℕ) → Apart a b → Free cs b → Free cs' b)
  unfolding place WfNode resolve_slot
  place_lem [] v cs o w i f =
      (cs, some v, refl, Updated-value x Stored loads keeps cs o (some v) w, λ b d g. g)
  place_lem (m ∷ a) v cs o w i f =
      let (r, e, g) = from_node-Refers x Stored loads keeps (leaf (Nibbles.new a) v) i.1 in
      let (cs', h, k) = set_child-Replaced cs m (some r) (subst (λ z. m < z) (sym w.0) i.0) in
      (
        cs',
        o,
        rw (e, h) refl,
        Updated-branch x Stored loads keeps cs cs' o m a none (some r) empty
            (leaf (Nibbles.new a) v) (some v) w f refl tt g.1 (Updated-leaf a v i.1) k
            (set_child-WfChildren Stored cs m (some r) cs' w.1 g.0 h),
        λ b. Free-others cs cs' m a (some r) b k,
      )

  with_prefix_lem :
      (top n m : Node) (a b : List ℕ) (o : Value)
      → IsPath a
      → Below x Stored loads keeps top a n
      → Updated x Stored loads keeps n b o m
      → (t : Node) × (with_prefix x a m ≡ ok t) × Updated x Stored loads keeps top (a ++ b) o t
  unfolding with_prefix
  with_prefix_lem top n m [] b o i l u = (
    m,
    refl,
    record {
      formed = u.formed;
      here = u.here;
      others = λ q p j d h. u.others q p j d (l.0 q p j h);
    },
  )
  with_prefix_lem top n m (c ∷ a) b o i l u =
      let (r, e, g) = from_node-Refers x Stored loads keeps m u.formed in
      (
        extension (Nibbles.new (c ∷ a)) r,
        rw e refl,
        Updated-extension x Stored loads keeps top n m (c ∷ a) b o r (λ z. cc z) i l g u,
      )

  -- Two values in a new branch are the second put into the leaf of the first.
  Updated-twice :
      (a b v w : List ℕ) (m m' : Node)
      → Updated x Stored loads keeps (branch (no_children 16) none) a (some v) m
      → Updated x Stored loads keeps m b (some w) m'
      → Updated x Stored loads keeps (leaf (Nibbles.new a) v) b (some w) m'
  Updated-twice a b v w m m' u t = record {
    formed = t.formed;
    here = t.here;
    others = λ q p j d h. t.others q p j d (elim (same-cases q a) [
      | inl e ↦
          Holds-from x Stored loads keeps (leaf (Nibbles.new a) v) m q q (some v) p
            (subst (λ z. Holds x (leaf (Nibbles.new a) v) z (some v)) (sym e)
              (Holds.Holds-leaf_same x a v))
            h (subst (λ z. Holds x m z (some v)) (sym e) u.here)
      | inr (n, _) ↦
          Holds-from x Stored loads keeps (leaf (Nibbles.new a) v) m q q none p
            (Holds.Holds-leaf_other x a q v n) h (u.others q none j n (Holds-new_branch q j))
    ]);
  }

  pub split_leaf_lem :
      (c a b v w : List ℕ)
      → IsPath c
      → IsPath a
      → IsPath b
      → Apart a b
      → (m : Node) × (split_leaf x c a v b w ≡ ok m)
        × Updated x Stored loads keeps (leaf (Nibbles.new (c ++ a)) v) (c ++ b) (some w) m
  unfolding split_leaf
  split_leaf_lem c a b v w k i j d =
      let (cs, o, e, u, f) =
        place_lem a v (no_children 16) none new_branch-WfNode i (Free-new a i) in
      let (cs', o', e', u', _) = place_lem b w cs o u.formed j (f b d (Free-new b j)) in
      let (m, g, t) =
        with_prefix_lem (leaf (Nibbles.new (c ++ a)) v) (leaf (Nibbles.new a) v) (branch cs' o') c b
          (some w) k (Below-leaf x Stored loads keeps c a v i)
          (Updated-twice a b v w (branch cs o) (branch cs' o') u u') in
      (m, rw (e, e') g, t)

  -- A new branch with one child is the extension over the nibble of the child.
  Like-single :
      (top n : Node) (m : ℕ) (r : NodeRef) (cs : Children)
      → Below x Stored loads keeps top (m ∷ []) n
      → Refers x Stored loads keeps r n
      → Replaced (no_children 16) m (some r) cs
      → Like x Stored loads keeps top (branch cs none)
  unfolding matching resolve_slot
  Like-single top n m r cs b f s [] p i h =
      subst (Holds x (branch cs none) []) (sym (b.1 [] p refl h)) (Holds.Holds-branch_end x cs none)
  Like-single top n m r cs b f s (j ∷ q) p i h = elim (equal-cases j m) [
    | inl e ↦
        Holds.Holds-branch x cs none j q (some r) n p (ap (child cs) e ∙ s.here) f.1
          (b.0 q p i.1 (subst (λ z. Holds x top (z ∷ q) p) e h))
    | inr d ↦ subst (Holds x (branch cs none) (j ∷ q)) (sym (b.1 (j ∷ q) p (ground (arith, d)) h)) (
        Holds.Holds-branch x cs none j q none empty none (s.others j d ∙ child-no_children 16 j i.0)
          refl (Holds.Holds-empty x q))
  ]

  single :
      (top n : Node) (m : ℕ) (a : List ℕ) (r : NodeRef)
      → m < 16
      → Below x Stored loads keeps top (m ∷ []) n
      → Refers x Stored loads keeps r n
      → (cs : Children) × (set_child (no_children 16) m (some r) ≡ some cs)
        × WfNode Stored (branch cs none)
        × Like x Stored loads keeps top (branch cs none)
        × ((b : List ℕ) → Apart (m ∷ a) b → Free (no_children 16) b → Free cs b)
  unfolding WfNode
  single top n m a r l b f =
      let (cs, e, s) =
        set_child-Replaced (no_children 16) m (some r)
          (subst (λ z. m < z) (sym (count-no_children 16)) l) in
      (
        cs,
        e,
        (
          s.counts ∙ count-no_children 16,
          set_child-WfChildren Stored (no_children 16) m (some r) cs
              (no_children-WfChildren Stored 16) f.0 e,
        ),
        Like-single top n m r cs b f s,
        λ b'. Free-others (no_children 16) cs m a (some r) b' s,
      )

  place_extension_lem :
      (a : List ℕ) (r : NodeRef) (c : Node)
      → a ≢ []
      → IsPath a
      → Refers x Stored loads keeps r c
      → WfNode Stored c
      → (cs : Children) × (place_extension x a r (no_children 16) ≡ ok cs)
        × WfNode Stored (branch cs none)
        × Like x Stored loads keeps (extension (Nibbles.new a) r) (branch cs none)
        × ((b : List ℕ) → Apart a b → Free (no_children 16) b → Free cs b)
  unfolding place_extension WfNode
  place_extension_lem [] r c n i f w = absurd (n refl)
  place_extension_lem (m ∷ []) r c n i f w =
      let (cs, e, w', l, t) =
        single (extension (Nibbles.new (m ∷ [])) r) c m [] r i.0
          (Below-extension x Stored loads keeps (m ∷ []) r c n f w) f in
      (cs, rw e refl, w', l, t)
  place_extension_lem (m ∷ k ∷ a) r c n i f w =
      let (r', e', g) =
        from_node-Refers x Stored loads keeps (extension (Nibbles.new (k ∷ a)) r)
          ((λ z. cc z), (i.1, f.0)) in
      let (cs, e, w', l, t) =
        single (extension (Nibbles.new (m ∷ k ∷ a)) r) (extension (Nibbles.new (k ∷ a)) r) m (k ∷ a)
          r' i.0
          (Below-extension_split x Stored loads keeps (m ∷ []) (k ∷ a) r c (λ z. cc z) i.1 f w) g in
      (cs, rw (e', e) refl, w', l, t)

  pub split_extension_lem :
      (c a b : List ℕ) (r : NodeRef) (n : Node) (v : List ℕ)
      → IsPath c
      → a ≢ []
      → IsPath a
      → IsPath b
      → Apart a b
      → Refers x Stored loads keeps r n
      → WfNode Stored n
      → (m : Node) × (split_extension x c a r b v ≡ ok m)
        × Updated x Stored loads keeps (extension (Nibbles.new (c ++ a)) r) (c ++ b) (some v) m
  unfolding split_extension
  split_extension_lem c a b r n v k d i j p f w =
      let (cs, e, w', l, g) = place_extension_lem a r n d i f w in
      let (cs', o', e', u, _) = place_lem b v cs none w' j (g b p (Free-new b j)) in
      let (m, h, t) =
        with_prefix_lem (extension (Nibbles.new (c ++ a)) r) (extension (Nibbles.new a) r)
          (branch cs' o') c b (some v) k
          (Below-extension_split x Stored loads keeps c a r n d i f w)
          (record {
            formed = u.formed;
            here = u.here;
            others = λ q s z t h. u.others q s z t (l q s z h);
          }) in
      (m, rw (e, e') h, t)
