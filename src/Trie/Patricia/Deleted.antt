-- ===== src/Trie/Patricia/Deleted.antt =====
-- crates/trie/src/trie.rs: `delete_at_node` leaves nothing at the key, keeps every other, and says
-- whether the key was there.
use ethereum_rust.Base.{
  ℕ, zero, suc, ◌<◌, ◌≡◌, ◌≢◌, refl, sym, ap, ◌∙◌, subst, Bool, true, false, List, [], ◌∷◌, ◌++◌,
  Option, none, some, arith, inl, inr, length, ==_refl, length-append, drop-append_length,
}
use ethereum_rust.Base.Result.{ok}
use ethereum_rust.Trie.Nibbles.{Nibbles, matching}
use ethereum_rust.Trie.Nibbles
use ethereum_rust.Trie.Nibbles.Split.{
  IsPath, IsPath-take, IsPath-drop, IsPath-append, append-cases, matching-append,
}
use ethereum_rust.Trie.Node.{
  Node, empty, leaf, extension, branch, NodeRef, Children, child, Externals, from_node,
}
use ethereum_rust.Trie.Patricia.{
  resolve_node_ref, resolve_slot, delete_at_node, join_extension, slot_of,
}
use ethereum_rust.Trie.Patricia.Slots.{child-total, set_child-Replaced}
use ethereum_rust.Trie.Patricia.Holds
use ethereum_rust.Trie.Patricia.Holds.{Holds, same_refl, same-cases}
use ethereum_rust.Trie.Patricia.WellFormed.{WfNode, WfSlot, child-WfSlot, set_child-WfChildren}
use ethereum_rust.Trie.Patricia.Updated.{
  Value, Loads, Keeps, Updated, Refers, Like, from_node-Refers, resolve_node_ref-total,
  Updated-extension, Updated-Like, length-positive,
}
use ethereum_rust.Trie.Patricia.Parts.{
  Below-extension, Like-Below, Like-leaf, Like-extension, append-nonempty,
}
use ethereum_rust.Trie.Patricia.Branches.{Updated-branch, Updated-value}
use ethereum_rust.Trie.Patricia.Compact.{Keeping, try_compact_branch-Keeping}

abbrev pub is_some : Value → Bool
is_some none = false
is_some (some v) = true

slot-cases :
    {P : Type 0} (s : Option NodeRef) → (s ≡ none → P) → ((r : NodeRef) → s ≡ some r → P) → P
slot-cases none f g = f refl
slot-cases (some r) f g = g r refl

module _ (x : Externals) (Stored : List ℕ → Type 0) (loads : Loads x Stored)
    (keeps : Keeps x Stored) where
  -- A run of `delete_at_node` that ends, with the right node and the right answer.
  pub record Deletes (f : ℕ) (n : Node) (k : List ℕ) : Type 0 where
    pub node : Node
    pub deleted : Bool
    pub before : Value
    pub runs : delete_at_node x f n k ≡ ok (node, deleted)
    pub updated : Updated x Stored loads keeps n k none node
    pub held : Holds x n k before
    pub told : deleted ≡ is_some before

  unchanged :
      (n : Node) (k : List ℕ)
      → WfNode Stored n
      → Holds x n k none
      → Updated x Stored loads keeps n k none n
  unchanged n k w h = record { formed = w; here = h; others = λ q p i d g. g }

  Deletes-nothing :
      (f : ℕ) (n : Node) (k : List ℕ)
      → WfNode Stored n
      → Holds x n k none
      → delete_at_node x f n k ≡ ok (n, false)
      → Deletes f n k
  Deletes-nothing f n k w h e = record {
    node = n;
    deleted = false;
    before = none;
    runs = e;
    updated = unchanged n k w h;
    held = h;
    told = refl;
  }

  Updated-no_leaf :
      (k v : List ℕ) → Updated x Stored loads keeps (leaf (Nibbles.new k) v) k none empty
  unfolding WfNode
  Updated-no_leaf k v = record {
    formed = tt;
    here = Holds.Holds-empty x k;
    others = λ q p i d h.
        subst (Holds x empty q)
          (Holds.Holds-unique x (leaf (Nibbles.new k) v) q none p (Holds.Holds-leaf_other x k q v d)
            h)
          (Holds.Holds-empty x q);
  }

  Deletes-leaf : (f : ℕ) (a v k : List ℕ) → IsPath a → Deletes (suc f) (leaf (Nibbles.new a) v) k
  unfolding delete_at_node WfNode
  Deletes-leaf f a v k i = elim (same-cases k a) [
    | inl e ↦
        subst (λ z. Deletes (suc f) (leaf (Nibbles.new a) v) z) (sym e)
          (record {
            node = empty;
            deleted = true;
            before = some v;
            runs = rw (same_refl a) refl;
            updated = Updated-no_leaf a v;
            held = Holds.Holds-leaf_same x a v;
            told = refl;
          })
    | inr (d, h) ↦
        Deletes-nothing (suc f) (leaf (Nibbles.new a) v) k i (Holds.Holds-leaf_other x a k v d)
          (rw h refl)
  ]

  Like-nothing :
      (a : List ℕ) (r : NodeRef)
      → a ≢ []
      → Refers x Stored loads keeps r empty
      → Like x Stored loads keeps (extension (Nibbles.new a) r) empty
  unfolding WfNode
  Like-nothing a r d f =
      Like-Below x Stored loads keeps (extension (Nibbles.new a) r) empty empty a
        (Below-extension x Stored loads keeps a r empty d f tt)
        (λ q p i h.
          subst (Holds x empty (a ++ q))
            (Holds.Holds-unique x empty q none p (Holds.Holds-empty x q) h)
            (Holds.Holds-empty x (a ++ q)))
        (λ q g. Holds.Holds-empty x q)

  join_extension-Keeping :
      (a : List ℕ) (r : NodeRef) (n : Node)
      → a ≢ []
      → IsPath a
      → from_node x n ≡ ok r
      → Refers x Stored loads keeps r n
      → WfNode Stored n
      → (m : Node) × (join_extension x (Nibbles.new a) n ≡ ok m)
        × Keeping x Stored loads keeps (extension (Nibbles.new a) r) m
  unfolding join_extension WfNode
  join_extension-Keeping a r empty d i e f w = (empty, refl, (tt, Like-nothing a r d f))
  join_extension-Keeping a r (leaf b v) d i e f w = (
    leaf (Nibbles.new (a ++ b.items)) v,
    refl,
    (IsPath-append a b.items i w, Like-leaf x Stored loads keeps a b.items v r d w f),
  )
  join_extension-Keeping a r (extension b r') d i e f (n, (j, w)) =
      let (c, h, w') = resolve_node_ref-total x Stored loads keeps r' w in
      (
        extension (Nibbles.new (a ++ b.items)) r',
        refl,
        (
          (append-nonempty a b.items n, (IsPath-append a b.items i j, w)),
          Like-extension x Stored loads keeps a b.items r r' c d n j f (w, h) w',
        ),
      )
  join_extension-Keeping a r (branch cs v) d i e f w =
      (extension (Nibbles.new a) r, rw e refl, ((d, (i, f.0)), λ q p j h. h))

  Deletes-extension :
      (f : ℕ) (a k : List ℕ) (r : NodeRef) (c : Node) (d : Bool) (m : Node) (o : Value)
      → a ≢ []
      → IsPath (a ++ k)
      → Refers x Stored loads keeps r c
      → WfNode Stored c
      → delete_at_node x f c k ≡ ok (m, d)
      → Updated x Stored loads keeps c k none m
      → Holds x c k o
      → d ≡ is_some o
      → Deletes (suc f) (extension (Nibbles.new a) r) (a ++ k)
  unfolding delete_at_node WfNode
  Deletes-extension f a k r c false m none n i g w e u h t =
      Deletes-nothing (suc f) (extension (Nibbles.new a) r) (a ++ k) (n, (IsPath-take a k i, g.0))
        (Holds.Holds-extension x a k r c none n g.1 h)
        (rw (matching-append a k, ==_refl (length a), g.1, drop-append_length a k, e) refl)
  Deletes-extension f a k r c false m (some v) n i g w e u h t = absurd (cc t)
  Deletes-extension f a k r c true m o n i g w e u h t =
      let (r', e', g') = from_node-Refers x Stored loads keeps m u.formed in
      let (m', j, (w', l)) = join_extension-Keeping a r' m n (IsPath-take a k i) e' g' u.formed in
      record {
        node = m';
        deleted = true;
        before = o;
        runs = rw (matching-append a k, ==_refl (length a), g.1, drop-append_length a k, e, j) refl;
        updated =
            Updated-Like x Stored loads keeps (extension (Nibbles.new a) r) (a ++ k) none
              (extension (Nibbles.new a) r') m' i
              (Updated-extension x Stored loads keeps (extension (Nibbles.new a) r) c m a k none r'
                n (IsPath-take a k i) (Below-extension x Stored loads keeps a r c n g w) g' u)
              l w';
        held = Holds.Holds-extension x a k r c o n g.1 h;
        told = t;
      }

  some-slot :
      (n : Node) (o : Option NodeRef → Type 0)
      → WfNode Stored n
      → ((r : NodeRef) → from_node x n ≡ ok r → Refers x Stored loads keeps r n → o (some r))
      → (s : Option NodeRef) × o s
  some-slot n o w f = let (r, e, g) = from_node-Refers x Stored loads keeps n w in (some r, f r e g)

  -- The slot leads to the node, or is empty when the node is.
  abbrev SlotOf : Node → Option NodeRef → Type 0
  SlotOf n s = (slot_of x n ≡ ok s) × WfSlot Stored s × (resolve_slot x s ≡ ok n)

  SlotOf-total : (n : Node) → WfNode Stored n → (s : Option NodeRef) × SlotOf n s
  unfolding slot_of resolve_slot
  SlotOf-total empty w = (none, (refl, tt, refl))
  SlotOf-total (leaf k v) w =
      some-slot (leaf k v) (SlotOf (leaf k v)) w (λ r e g. (rw e refl, g.0, g.1))
  SlotOf-total (extension k r) w =
      some-slot (extension k r) (SlotOf (extension k r)) w (λ r e g. (rw e refl, g.0, g.1))
  SlotOf-total (branch cs v) w =
      some-slot (branch cs v) (SlotOf (branch cs v)) w (λ r e g. (rw e refl, g.0, g.1))

  Deletes-value :
      (f : ℕ) (cs : Children) (v : Value)
      → WfNode Stored (branch cs v)
      → Deletes (suc f) (branch cs v) []
  unfolding delete_at_node WfNode
  Deletes-value f cs none w =
      Deletes-nothing (suc f) (branch cs none) [] w (Holds.Holds-branch_end x cs none) refl
  Deletes-value f cs (some v) w =
      let (m, e, (w', l)) = try_compact_branch-Keeping x Stored loads keeps cs none w in
      record {
        node = m;
        deleted = true;
        before = some v;
        runs = rw e refl;
        updated =
            Updated-Like x Stored loads keeps (branch cs (some v)) [] none (branch cs none) m tt
              (Updated-value x Stored loads keeps cs (some v) none w) l w';
        held = Holds.Holds-branch_end x cs (some v);
        told = refl;
      }

  Deletes-branch :
      (f : ℕ) (cs : Children) (v : Value) (j : ℕ) (k : List ℕ) (r : NodeRef) (c : Node) (d : Bool)
      (m : Node) (o : Value)
      → WfNode Stored (branch cs v)
      → IsPath (j ∷ k)
      → child cs j ≡ some (some r)
      → resolve_node_ref x r ≡ ok c
      → WfNode Stored c
      → delete_at_node x f c k ≡ ok (m, d)
      → Updated x Stored loads keeps c k none m
      → Holds x c k o
      → d ≡ is_some o
      → Deletes (suc f) (branch cs v) (j ∷ k)
  unfolding delete_at_node resolve_slot WfNode
  Deletes-branch f cs v j k r c false m none w i s g wc e u h t =
      Deletes-nothing (suc f) (branch cs v) (j ∷ k) w
        (Holds.Holds-branch x cs v j k (some r) c none s g h) (rw (s, g, e) refl)
  Deletes-branch f cs v j k r c false m (some p) w i s g wc e u h t = absurd (cc t)
  Deletes-branch f cs v j k r c true m o w i s g wc e u h t =
      let (s', (e', w', g')) = SlotOf-total m u.formed in
      let (cs', h', l) = set_child-Replaced cs j s' (subst (λ z. j < z) (sym w.0) i.0) in
      let b =
        Updated-branch x Stored loads keeps cs cs' v j k (some r) s' c m none w s g wc g' u l
          (set_child-WfChildren Stored cs j s' cs' w.1 w' h') in
      let (m', q, (wm, y)) = try_compact_branch-Keeping x Stored loads keeps cs' v b.formed in
      record {
        node = m';
        deleted = true;
        before = o;
        runs = rw (s, g, e, e', h', q) refl;
        updated =
            Updated-Like x Stored loads keeps (branch cs v) (j ∷ k) none (branch cs' v) m' i b y wm;
        held = Holds.Holds-branch x cs v j k (some r) c o s g h;
        told = t;
      }

  Deletes-absent :
      (f : ℕ) (cs : Children) (v : Value) (j : ℕ) (k : List ℕ)
      → WfNode Stored (branch cs v)
      → child cs j ≡ some none
      → Deletes (suc f) (branch cs v) (j ∷ k)
  unfolding delete_at_node resolve_slot
  Deletes-absent f cs v j k w e =
      Deletes-nothing (suc f) (branch cs v) (j ∷ k) w
        (Holds.Holds-branch x cs v j k none empty none e refl (Holds.Holds-empty x k)) (rw e refl)

  -- With more fuel than the key has nibbles, a deletion from a well-formed node ends.
  pub delete_at_node-Deletes :
      (f : ℕ) (n : Node) (k : List ℕ) → length k < f → WfNode Stored n → IsPath k → Deletes f n k
  unfolding delete_at_node WfNode
  delete_at_node-Deletes zero n k l w i = absurd (omega (arith, l))
  delete_at_node-Deletes (suc f) empty k l w i =
      Deletes-nothing (suc f) empty k tt (Holds.Holds-empty x k) refl
  delete_at_node-Deletes (suc f) (leaf a v) k l w i = Deletes-leaf f a.items v k w
  delete_at_node-Deletes (suc f) (extension a r) k l (d, (j, w)) i = elim (append-cases a.items k) [
    | inl (k', e) ↦
        let (c, h, w') = resolve_node_ref-total x Stored loads keeps r w in
        let t =
          delete_at_node-Deletes f c k'
            (omega (arith, l, ap length e, length-append a.items k', length-positive a.items d)) w'
            (IsPath-drop a.items k' (subst IsPath e i)) in
        subst (Deletes (suc f) (extension a r)) (sym e) (
          Deletes-extension f a.items k' r c t.deleted t.node t.before d (subst IsPath e i) (w, h)
            w' t.runs t.updated t.held t.told)
    | inr g ↦
        Deletes-nothing (suc f) (extension a r) k (d, (j, w))
          (Holds.Holds-extension_other x a.items k r g) (rw g refl)
  ]
  delete_at_node-Deletes (suc f) (branch cs v) [] l w i = Deletes-value f cs v w
  delete_at_node-Deletes (suc f) (branch cs v) (j ∷ k) l w i =
      let (s, e) = child-total cs j (subst (λ z. j < z) (sym w.0) i.0) in
      slot-cases s (λ h. Deletes-absent f cs v j k w (e ∙ ap some h))
        (λ r h.
          let (c, g, w') =
            resolve_node_ref-total x Stored loads keeps r
              (child-WfSlot Stored cs j (some r) w.1 (e ∙ ap some h)) in
          let t = delete_at_node-Deletes f c k (omega (arith, l)) w' i.1 in
          Deletes-branch f cs v j k r c t.deleted t.node t.before w i (e ∙ ap some h) g w' t.runs
            t.updated t.held t.told)
