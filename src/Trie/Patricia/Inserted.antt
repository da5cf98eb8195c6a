-- ===== src/Trie/Patricia/Inserted.antt =====
-- crates/trie/src/trie.rs: `insert_at_node` gives the key its value and keeps every other.
use ethereum_rust.Base.{
  ℕ, zero, suc, ◌<◌, ◌≡◌, ◌≢◌, refl, sym, ap, subst, false, ◌&&◌, List, [], ◌∷◌, ◌++◌, Option, none,
  some, arith, inl, inr, length, ◌==◌, ==_refl, Bool-cases, length-append, drop-append_length,
}
use ethereum_rust.Base.Result.{ok}
use ethereum_rust.Trie.Nibbles.{Nibbles, matching}
use ethereum_rust.Trie.Nibbles
use ethereum_rust.Trie.Nibbles.Split.{
  IsPath, IsPath-take, IsPath-drop, append-cases, matching-append, parting, Parting-left,
  Parting-equal,
}
use ethereum_rust.Trie.Node.{
  Node, empty, leaf, extension, branch, NodeRef, Children, child, Externals,
}
use ethereum_rust.Trie.Patricia.{resolve_slot, insert_at_node}
use ethereum_rust.Trie.Patricia.Slots.{child-total, set_child-Replaced}
use ethereum_rust.Trie.Patricia.Holds
use ethereum_rust.Trie.Patricia.Holds.{Holds}
use ethereum_rust.Trie.Patricia.WellFormed.{WfNode, child-WfSlot, set_child-WfChildren}
use ethereum_rust.Trie.Patricia.Updated.{
  Loads, Keeps, Updated, Refers, from_node-Refers, resolve_node_ref-total, resolve_slot-total,
  Updated-extension, length-positive,
}
use ethereum_rust.Trie.Patricia.Parts.{Below-extension}
use ethereum_rust.Trie.Patricia.Branches.{Updated-branch, Updated-value}
use ethereum_rust.Trie.Patricia.Place.{Updated-leaf, split_leaf_lem, split_extension_lem}

module _ (x : Externals) (Stored : List ℕ → Type 0) (loads : Loads x Stored)
    (keeps : Keeps x Stored) where
  -- A run of `insert_at_node` that ends, with the right node.
  abbrev Inserts : ℕ → Node → List ℕ → List ℕ → Type 0
  Inserts f n k v =
      (m : Node) × (insert_at_node x f n k v ≡ ok m) × Updated x Stored loads keeps n k (some v) m

  Inserts-extension :
      (f : ℕ) (a k v : List ℕ) (r : NodeRef) (c : Node)
      → a ≢ []
      → IsPath a
      → Refers x Stored loads keeps r c
      → WfNode Stored c
      → Inserts f c k v
      → Inserts (suc f) (extension (Nibbles.new a) r) (a ++ k) v
  unfolding insert_at_node
  Inserts-extension f a k v r c d i g w (m, e, u) =
      let (r', h, g') = from_node-Refers x Stored loads keeps m u.formed in
      (
        extension (Nibbles.new a) r',
        rw (matching-append a k, ==_refl (length a), g.1, drop-append_length a k, e, h) refl,
        Updated-extension x Stored loads keeps (extension (Nibbles.new a) r) c m a k (some v) r' d i
            (Below-extension x Stored loads keeps a r c d g w) g' u,
      )

  Inserts-split :
      (f : ℕ) (a k v : List ℕ) (r : NodeRef) (c : Node)
      → IsPath a
      → IsPath k
      → Refers x Stored loads keeps r c
      → WfNode Stored c
      → (matching a k == length a) ≡ false
      → Inserts (suc f) (extension (Nibbles.new a) r) k v
  unfolding insert_at_node
  Inserts-split f a k v r c i j g w h =
      let t = parting a k in
      let (m, e, u) =
        split_extension_lem x Stored loads keeps t.prefix t.left t.right r c v
          (IsPath-take t.prefix t.left (subst IsPath t.left_is i)) (Parting-left a k t h)
          (IsPath-drop t.prefix t.left (subst IsPath t.left_is i))
          (IsPath-drop t.prefix t.right (subst IsPath t.right_is j)) t.apart g w in
      (
        m,
        rw (h, t.takes, t.drops_left, t.drops_right) e,
        subst (λ z. Updated x Stored loads keeps (extension (Nibbles.new z) r) k (some v) m)
            (sym t.left_is)
            (subst
              (λ z.
                Updated x Stored loads keeps (extension (Nibbles.new (t.prefix ++ t.left)) r) z
                  (some v) m)
              (sym t.right_is) u),
      )

  Inserts-branch :
      (f : ℕ) (cs : Children) (o : Option (List ℕ)) (j : ℕ) (k v : List ℕ) (s : Option NodeRef)
      (c : Node)
      → WfNode Stored (branch cs o)
      → j < 16
      → child cs j ≡ some s
      → resolve_slot x s ≡ ok c
      → WfNode Stored c
      → Inserts f c k v
      → Inserts (suc f) (branch cs o) (j ∷ k) v
  unfolding insert_at_node resolve_slot WfNode
  Inserts-branch f cs o j k v s c w l e g wc (m, h, u) =
      let (r, e', g') = from_node-Refers x Stored loads keeps m u.formed in
      let (cs', h', t) = set_child-Replaced cs j (some r) (subst (λ z. j < z) (sym w.0) l) in
      (
        branch cs' o,
        rw (e, g, h, e', h') refl,
        Updated-branch x Stored loads keeps cs cs' o j k s (some r) c m (some v) w e g wc g'.1 u t
            (set_child-WfChildren Stored cs j (some r) cs' w.1 g'.0 h'),
      )

  same_key :
      (a w k v : List ℕ)
      → IsPath a
      → k ≡ a
      → Updated x Stored loads keeps (leaf (Nibbles.new a) w) k (some v) (leaf (Nibbles.new a) v)
  unfolding WfNode
  same_key a w k v i e =
      subst
        (λ z.
          Updated x Stored loads keeps (leaf (Nibbles.new a) w) z (some v) (leaf (Nibbles.new a) v))
        (sym e)
        (record {
          formed = i;
          here = Holds.Holds-leaf_same x a v;
          others = λ q p j d h.
              subst (Holds x (leaf (Nibbles.new a) v) q)
                (Holds.Holds-unique x (leaf (Nibbles.new a) w) q none p
                  (Holds.Holds-leaf_other x a q w d) h)
                (Holds.Holds-leaf_other x a q v d);
        })

  Inserts-leaf :
      (f : ℕ) (a w k v : List ℕ)
      → IsPath a
      → IsPath k
      → Inserts (suc f) (leaf (Nibbles.new a) w) k v
  unfolding insert_at_node WfNode
  Inserts-leaf f a w k v i j =
      let t = parting a k in
      elim (Bool-cases ((matching a k == length a) && (matching a k == length k))) [
        | inl h ↦ (
          leaf (Nibbles.new a) v,
          rw h refl,
          same_key a w k v i (Parting-equal a k t (ground (arith, h)) (ground (arith, h))),
        )
        | inr h ↦
            let (m, e, u) =
              split_leaf_lem x Stored loads keeps t.prefix t.left t.right w v
                (IsPath-take t.prefix t.left (subst IsPath t.left_is i))
                (IsPath-drop t.prefix t.left (subst IsPath t.left_is i))
                (IsPath-drop t.prefix t.right (subst IsPath t.right_is j)) t.apart in
            (
              m,
              rw (h, t.takes, t.drops_left, t.drops_right) e,
              subst (λ z. Updated x Stored loads keeps (leaf (Nibbles.new z) w) k (some v) m)
                  (sym t.left_is)
                  (subst
                    (λ z.
                      Updated x Stored loads keeps (leaf (Nibbles.new (t.prefix ++ t.left)) w) z
                        (some v) m)
                    (sym t.right_is) u),
            )
      ]

  -- With more fuel than the key has nibbles, an insertion into a well-formed node ends, in a well-formed
  -- node that has the value at the key and answers every other key as before.
  pub insert_at_node-Updated :
      (f : ℕ) (n : Node) (k v : List ℕ)
      → length k < f
      → WfNode Stored n
      → IsPath k
      → (m : Node) × (insert_at_node x f n k v ≡ ok m) × Updated x Stored loads keeps n k (some v) m
  unfolding insert_at_node WfNode
  insert_at_node-Updated zero n k v l w i = absurd (omega (arith, l))
  insert_at_node-Updated (suc f) empty k v l w i =
      (leaf (Nibbles.new k) v, refl, Updated-leaf x Stored loads keeps k v i)
  insert_at_node-Updated (suc f) (leaf a b) k v l w i = Inserts-leaf f a.items b k v w i
  insert_at_node-Updated (suc f) (extension a r) k v l (d, (j, w)) i =
      let (c, h, w') = resolve_node_ref-total x Stored loads keeps r w in
      elim (append-cases a.items k) [
        | inl (k', e) ↦
            subst (λ z. Inserts (suc f) (extension a r) z v) (sym e)
              (Inserts-extension f a.items k' v r c d j (w, h) w'
                (insert_at_node-Updated f c k' v
                  (omega
                    (arith, l, ap length e, length-append a.items k', length-positive a.items d))
                  w' (IsPath-drop a.items k' (subst IsPath e i))))
        | inr g ↦ Inserts-split f a.items k v r c j i (w, h) w' g
      ]
  insert_at_node-Updated (suc f) (branch cs o) [] v l w i =
      (branch cs (some v), refl, Updated-value x Stored loads keeps cs o (some v) w)
  insert_at_node-Updated (suc f) (branch cs o) (j ∷ k) v l w i =
      let (s, e) = child-total cs j (subst (λ z. j < z) (sym w.0) i.0) in
      let (c, g, w') =
        resolve_slot-total x Stored loads keeps s (child-WfSlot Stored cs j s w.1 e) in
      Inserts-branch f cs o j k v s c w i.0 e g w'
        (insert_at_node-Updated f c k v (omega (arith, l)) w' i.1)
