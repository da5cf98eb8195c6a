-- ===== src/Trie/Patricia/Branches.antt =====
-- crates/trie/src/trie.rs: an update of a child, or of the value, of a branch.
use ethereum_rust.Base.{
  ℕ, ◌<◌, ◌≡◌, ◌≢◌, refl, sym, ap, ◌∙◌, subst, List, [], ◌∷◌, Option, some, inl, inr,
}
use ethereum_rust.Base.Result.{ok}
use ethereum_rust.Trie.Nibbles.Split.{IsPath}
use ethereum_rust.Trie.Node.{Node, branch, NodeRef, Children, child, Externals}
use ethereum_rust.Trie.Patricia.{resolve_slot}
use ethereum_rust.Trie.Patricia.Slots.{Replaced, child-total}
use ethereum_rust.Trie.Patricia.Holds
use ethereum_rust.Trie.Patricia.Holds.{Holds}
use ethereum_rust.Trie.Patricia.WellFormed.{WfNode, WfChildren, child-WfSlot}
use ethereum_rust.Trie.Patricia.Updated.{
  Value, Loads, Keeps, Updated, Holds-total, resolve_slot-total,
}
use ethereum_rust.Trie.Patricia.Parts.{equal-cases}

module _ (x : Externals) (Stored : List ℕ → Type 0) (loads : Loads x Stored)
    (keeps : Keeps x Stored) where
  -- A branch answers through the child.
  pub branch-child :
      (cs : Children) (v : Value) (m : ℕ) (q : List ℕ) (s : Option NodeRef) (c : Node) (p : Value)
      → child cs m ≡ some s
      → resolve_slot x s ≡ ok c
      → WfNode Stored c
      → IsPath q
      → Holds x (branch cs v) (m ∷ q) p
      → Holds x c q p
  branch-child cs v m q s c p e f w i h =
      let (o, g) = Holds-total x Stored loads keeps c q w i in
      subst (Holds x c q)
        (Holds.Holds-unique x (branch cs v) (m ∷ q) o p (Holds.Holds-branch x cs v m q s c o e f g)
          h)
        g

  -- Two branches answer alike below a nibble where they have the same child.
  pub branch-keeps :
      (cs cs' : Children) (v v' : Value) (m : ℕ) (q : List ℕ) (p : Value)
      → WfNode Stored (branch cs v)
      → IsPath (m ∷ q)
      → child cs' m ≡ child cs m
      → Holds x (branch cs v) (m ∷ q) p
      → Holds x (branch cs' v') (m ∷ q) p
  unfolding WfNode
  branch-keeps cs cs' v v' m q p (e, w) i d h =
      let (s, f) = child-total cs m (subst (λ z. m < z) (sym e) i.0) in
      let (c, g, w') = resolve_slot-total x Stored loads keeps s (child-WfSlot Stored cs m s w f) in
      Holds.Holds-branch x cs' v' m q s c p (d ∙ f) g (branch-child cs v m q s c p f g w' i.1 h)

  end-others :
      (cs cs' : Children) (v : Value) (p : Value)
      → Holds x (branch cs v) [] p
      → Holds x (branch cs' v) [] p
  end-others cs cs' v p h =
      subst (Holds x (branch cs' v) [])
        (Holds.Holds-unique x (branch cs v) [] v p (Holds.Holds-branch_end x cs v) h)
        (Holds.Holds-branch_end x cs' v)

  others-branch :
      (cs cs' : Children) (v : Value) (m : ℕ) (k q : List ℕ) (p : Value) (s s' : Option NodeRef)
      (c c' : Node) (o : Value)
      → WfNode Stored (branch cs v)
      → child cs m ≡ some s
      → resolve_slot x s ≡ ok c
      → WfNode Stored c
      → resolve_slot x s' ≡ ok c'
      → Updated x Stored loads keeps c k o c'
      → Replaced cs m s' cs'
      → IsPath q
      → q ≢ m ∷ k
      → Holds x (branch cs v) q p
      → Holds x (branch cs' v) q p
  others-branch cs cs' v m k [] p s s' c c' o w e f wc f' u r i d h = end-others cs cs' v p h
  others-branch cs cs' v m k (j ∷ q) p s s' c c' o w e f wc f' u r i d h = elim (equal-cases j m) [
    | inl g ↦ Holds.Holds-branch x cs' v j q s' c' p (ap (child cs') g ∙ r.here) f' (
        u.others q p i.1 (λ l. d (cc (g, l)))
          (branch-child cs v j q s c p (ap (child cs) g ∙ e) f wc i.1 h))
    | inr n ↦ branch-keeps cs cs' v v j q p w i (r.others j n) h
  ]

  pub Updated-branch :
      (cs cs' : Children) (v : Value) (m : ℕ) (k : List ℕ) (s s' : Option NodeRef) (c c' : Node)
      (o : Value)
      → WfNode Stored (branch cs v)
      → child cs m ≡ some s
      → resolve_slot x s ≡ ok c
      → WfNode Stored c
      → resolve_slot x s' ≡ ok c'
      → Updated x Stored loads keeps c k o c'
      → Replaced cs m s' cs'
      → WfChildren Stored cs'
      → Updated x Stored loads keeps (branch cs v) (m ∷ k) o (branch cs' v)
  unfolding WfNode
  Updated-branch cs cs' v m k s s' c c' o w e f wc f' u r w' = record {
    formed = (r.counts ∙ w.0, w');
    here = Holds.Holds-branch x cs' v m k s' c' o r.here f' u.here;
    others = λ q p i d h. others-branch cs cs' v m k q p s s' c c' o w e f wc f' u r i d h;
  }

  others-value :
      (cs : Children) (v v' : Value) (q : List ℕ) (p : Value)
      → WfNode Stored (branch cs v)
      → IsPath q
      → q ≢ []
      → Holds x (branch cs v) q p
      → Holds x (branch cs v') q p
  others-value cs v v' [] p w i d h = absurd (d refl)
  others-value cs v v' (m ∷ q) p w i d h = branch-keeps cs cs v v' m q p w i refl h

  pub Updated-value :
      (cs : Children) (v v' : Value)
      → WfNode Stored (branch cs v)
      → Updated x Stored loads keeps (branch cs v) [] v' (branch cs v')
  unfolding WfNode
  Updated-value cs v v' w = record {
    formed = w;
    here = Holds.Holds-branch_end x cs v';
    others = λ q p i d h. others-value cs v v' q p w i d h;
  }
