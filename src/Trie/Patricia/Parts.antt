-- ===== src/Trie/Patricia/Parts.antt =====
-- crates/trie/src/trie.rs: how a branch and an extension answer through their children, and what
-- an update of a child is for its parent.
use ethereum_rust.Base.{
  ℕ, ◌≡◌, ◌≢◌, ◌⊎◌, sym, ap, ◌∙◌, subst, false, List, [], ◌∷◌, ◌++◌, none, some, arith, Bool-cases,
  inl, inr, length, ◌==◌, ==_iff, ==_refl, append_assoc,
}
use ethereum_rust.Trie.Nibbles.{Nibbles, matching}
use ethereum_rust.Trie.Nibbles
use ethereum_rust.Trie.Nibbles.Split.{
  IsPath, append-cases, append-injective, IsPath-drop, matching-append,
}
use ethereum_rust.Trie.Node.{Node, leaf, extension, NodeRef, Externals}
use ethereum_rust.Trie.Patricia.Holds
use ethereum_rust.Trie.Patricia.Holds.{Holds}
use ethereum_rust.Trie.Patricia.WellFormed.{WfNode}
use ethereum_rust.Trie.Patricia.Updated.{Value, Loads, Keeps, Refers, Like, Below, Holds-total}

not_append : (a q r : List ℕ) → (matching a q == length a) ≡ false → q ≢ a ++ r
not_append a q r h e =
    cc (h, ==_refl (length a), subst (λ z. matching a z ≡ length a) (sym e) (matching-append a r))

not_append-append :
    (a b q : List ℕ)
    → (matching b q == length b) ≡ false
    → (matching (a ++ b) (a ++ q) == length (a ++ b)) ≡ false
unfolding matching
not_append-append [] b q h = h
not_append-append (n ∷ a) b q h = rw (==_refl n) (ground (arith, not_append-append a b q h))

not_append-longer :
    (a b q : List ℕ)
    → (matching a q == length a) ≡ false
    → (matching (a ++ b) q == length (a ++ b)) ≡ false
not_append-longer a b q h = elim (append-cases (a ++ b) q) [
  | inl (r, e) ↦ absurd (not_append a q (b ++ r) h (e ∙ append_assoc a b r))
  | inr g ↦ g
]

pub append-nonempty : (a b : List ℕ) → b ≢ [] → a ++ b ≢ []
append-nonempty [] b n e = n e
append-nonempty (m ∷ a) b n e = cc e

pub equal-cases : (a b : ℕ) → (a ≡ b) ⊎ (a ≢ b)
equal-cases a b = elim (Bool-cases (a == b)) [
  | inl h ↦ inl ((==_iff a b).0 h)
  | inr h ↦ inr (λ e. ground (arith, h, e))
]

module _ (x : Externals) (Stored : List ℕ → Type 0) (loads : Loads x Stored)
    (keeps : Keeps x Stored) where
  -- The answer of a well-formed node is the one that is known.
  Holds-known :
      (top n : Node) (k q : List ℕ) (p : Value)
      → WfNode Stored n
      → IsPath q
      → ((o : Value) → Holds x n q o → Holds x top k o)
      → Holds x top k p
      → Holds x n q p
  Holds-known top n k q p w i f h =
      let (o, g) = Holds-total x Stored loads keeps n q w i in
      subst (Holds x n q) (Holds.Holds-unique x top k o p (f o g) h) g

  pub Below-extension :
      (a : List ℕ) (r : NodeRef) (c : Node)
      → a ≢ []
      → Refers x Stored loads keeps r c
      → WfNode Stored c
      → Below x Stored loads keeps (extension (Nibbles.new a) r) a c
  Below-extension a r c d (_, e) w = (
    λ q p i h.
        Holds-known (extension (Nibbles.new a) r) c (a ++ q) q p w i
          (λ o. Holds.Holds-extension x a q r c o d e) h,
    λ q p g h.
        Holds.Holds-unique x (extension (Nibbles.new a) r) q p none h
          (Holds.Holds-extension_other x a q r g),
  )

  pub Holds-from :
      (n m : Node) (q k : List ℕ) (p o : Value)
      → Holds x n q p
      → Holds x n q o
      → Holds x m k p
      → Holds x m k o
  Holds-from n m q k p o h g f = subst (Holds x m k) (Holds.Holds-unique x n q p o h g) f

  -- A leaf, and an extension, with a longer key.
  leaf-lift :
      (a b v q : List ℕ) (o : Value)
      → Holds x (leaf (Nibbles.new b) v) q o
      → Holds x (leaf (Nibbles.new (a ++ b)) v) (a ++ q) o
  leaf-lift a b v q o h = elim (Holds.same-cases q b) [
    | inl e ↦
        Holds-from (leaf (Nibbles.new b) v) (leaf (Nibbles.new (a ++ b)) v) q (a ++ q) (some v) o
          (subst (λ z. Holds x (leaf (Nibbles.new b) v) z (some v)) (sym e)
            (Holds.Holds-leaf_same x b v))
          h
          (subst (λ z. Holds x (leaf (Nibbles.new (a ++ b)) v) (a ++ z) (some v)) (sym e)
            (Holds.Holds-leaf_same x (a ++ b) v))
    | inr (d, _) ↦
        Holds-from (leaf (Nibbles.new b) v) (leaf (Nibbles.new (a ++ b)) v) q (a ++ q) none o
          (Holds.Holds-leaf_other x b q v d) h
          (Holds.Holds-leaf_other x (a ++ b) (a ++ q) v (λ e. d (append-injective a q b e)))
  ]

  extension-lift :
      (a b q : List ℕ) (r : NodeRef) (c : Node) (o : Value)
      → b ≢ []
      → Refers x Stored loads keeps r c
      → WfNode Stored c
      → IsPath q
      → Holds x (extension (Nibbles.new b) r) q o
      → Holds x (extension (Nibbles.new (a ++ b)) r) (a ++ q) o
  extension-lift a b q r c o d (_, e) w i h = elim (append-cases b q) [
    | inl (q', f) ↦
        let (p, g) =
          Holds-total x Stored loads keeps c q' w (IsPath-drop b q' (subst IsPath f i)) in
        Holds-from (extension (Nibbles.new b) r) (extension (Nibbles.new (a ++ b)) r) q (a ++ q) p o
          (subst (λ z. Holds x (extension (Nibbles.new b) r) z p) (sym f)
            (Holds.Holds-extension x b q' r c p d e g))
          h
          (subst (λ z. Holds x (extension (Nibbles.new (a ++ b)) r) z p)
            (append_assoc a b q' ∙ ap (◌++◌ a) (sym f))
            (Holds.Holds-extension x (a ++ b) q' r c p (append-nonempty a b d) e g))
    | inr f ↦
        Holds-from (extension (Nibbles.new b) r) (extension (Nibbles.new (a ++ b)) r) q (a ++ q)
          none o (Holds.Holds-extension_other x b q r f) h
          (Holds.Holds-extension_other x (a ++ b) (a ++ q) r (not_append-append a b q f))
  ]

  pub Below-leaf :
      (a b v : List ℕ)
      → IsPath b
      → Below x Stored loads keeps (leaf (Nibbles.new (a ++ b)) v) a (leaf (Nibbles.new b) v)
  unfolding WfNode
  Below-leaf a b v j = (
    λ q p i h.
        Holds-known (leaf (Nibbles.new (a ++ b)) v) (leaf (Nibbles.new b) v) (a ++ q) q p j i
          (λ o. leaf-lift a b v q o) h,
    λ q p g h.
        Holds.Holds-unique x (leaf (Nibbles.new (a ++ b)) v) q p none h
          (Holds.Holds-leaf_other x (a ++ b) q v (not_append a q b g)),
  )

  pub Below-extension_split :
      (a b : List ℕ) (r : NodeRef) (c : Node)
      → b ≢ []
      → IsPath b
      → Refers x Stored loads keeps r c
      → WfNode Stored c
      → Below x Stored loads keeps
          (extension (Nibbles.new (a ++ b)) r)
          a
          (extension (Nibbles.new b) r)
  unfolding WfNode
  Below-extension_split a b r c d j f w = (
    λ q p i h.
        Holds-known (extension (Nibbles.new (a ++ b)) r) (extension (Nibbles.new b) r) (a ++ q) q p
          (d, (j, f.0)) i (λ o. extension-lift a b q r c o d f w i) h,
    λ q p g h.
        Holds.Holds-unique x (extension (Nibbles.new (a ++ b)) r) q p none h
          (Holds.Holds-extension_other x (a ++ b) q r (not_append-longer a b q g)),
  )

  -- What answers as `n` below the path `a` and has nothing elsewhere is like `top`.
  pub Like-Below :
      (top n m : Node) (a : List ℕ)
      → Below x Stored loads keeps top a n
      → ((q : List ℕ) (p : Value) → IsPath q → Holds x n q p → Holds x m (a ++ q) p)
      → ((q : List ℕ) → (matching a q == length a) ≡ false → Holds x m q none)
      → Like x Stored loads keeps top m
  Like-Below top n m a b f g q p i h = elim (append-cases a q) [
    | inl (q', e) ↦
        subst (λ z. Holds x m z p) (sym e)
          (f q' p (IsPath-drop a q' (subst IsPath e i))
            (b.0 q' p (IsPath-drop a q' (subst IsPath e i)) (subst (λ z. Holds x top z p) e h)))
    | inr d ↦ subst (Holds x m q) (sym (b.1 q p d h)) (g q d)
  ]

  -- An extension above a leaf, and above an extension, is one node.
  pub Like-leaf :
      (a b v : List ℕ) (r : NodeRef)
      → a ≢ []
      → IsPath b
      → Refers x Stored loads keeps r (leaf (Nibbles.new b) v)
      → Like x Stored loads keeps (extension (Nibbles.new a) r) (leaf (Nibbles.new (a ++ b)) v)
  unfolding WfNode
  Like-leaf a b v r d j f =
      Like-Below (extension (Nibbles.new a) r) (leaf (Nibbles.new b) v)
        (leaf (Nibbles.new (a ++ b)) v) a (Below-extension a r (leaf (Nibbles.new b) v) d f j)
        (λ q p i. leaf-lift a b v q p)
        (λ q g. Holds.Holds-leaf_other x (a ++ b) q v (not_append a q b g))

  pub Like-extension :
      (a b : List ℕ) (r r' : NodeRef) (c : Node)
      → a ≢ []
      → b ≢ []
      → IsPath b
      → Refers x Stored loads keeps r (extension (Nibbles.new b) r')
      → Refers x Stored loads keeps r' c
      → WfNode Stored c
      → Like x Stored loads keeps
          (extension (Nibbles.new a) r)
          (extension (Nibbles.new (a ++ b)) r')
  unfolding WfNode
  Like-extension a b r r' c d n j f f' w =
      Like-Below (extension (Nibbles.new a) r) (extension (Nibbles.new b) r')
        (extension (Nibbles.new (a ++ b)) r') a
        (Below-extension a r (extension (Nibbles.new b) r') d f (n, (j, f'.0)))
        (λ q p i. extension-lift a b q r' c p n f' w i)
        (λ q g. Holds.Holds-extension_other x (a ++ b) q r' (not_append-longer a b q g))
