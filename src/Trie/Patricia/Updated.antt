-- ===== src/Trie/Patricia/Updated.antt =====
-- crates/trie/src/trie.rs: the references that a trie makes and follows, and what it means that a
-- node has a value at one key and answers as before at every other.
use ethereum_rust.Base.{
  ℕ, zero, suc, ◌<◌, ◌≡◌, ◌≢◌, refl, sym, ap, ◌∙◌, subst, false, List, [], ◌∷◌, ◌++◌, Option, none,
  some, arith, ltb, Bool-cases, inl, inr, length, ◌==◌, length-append,
}
use ethereum_rust.Base.Result.{ok}
use ethereum_rust.Trie.Nibbles.{Nibbles, matching}
use ethereum_rust.Trie.Nibbles
use ethereum_rust.Trie.Nibbles.Split.{IsPath, append-cases, IsPath-drop}
use ethereum_rust.Trie.Node.{
  Node, empty, leaf, extension, branch, NodeRef, hash, inline, Externals, encode_raw, from_node,
  ref_of,
}
use ethereum_rust.Trie.Patricia.{load_node, resolve_node_ref, resolve_slot}
use ethereum_rust.Trie.Patricia.Slots.{child-total}
use ethereum_rust.Trie.Patricia.Holds
use ethereum_rust.Trie.Patricia.Holds.{Holds}
use ethereum_rust.Trie.Patricia.WellFormed.{WfNode, WfRef, WfSlot, child-WfSlot, encode_raw-total}

abbrev pub Value : Type 0
Value = Option (List ℕ)

-- The database answers a stored hash with a well-formed node.
abbrev pub Loads : Externals → (List ℕ → Type 0) → Type 0
Loads x Stored = (h : List ℕ) → Stored h → (n : Node) × (load_node x h ≡ ok n) × WfNode Stored n

-- The database has every well-formed node of 32 bytes or more under its hash. The lemmas are applied where no node
-- has an encoding of that length, which is `unhidden` in Trie/Patricia/Hidden: two nodes with one
-- encoding, as are a branch with an empty value and the one with none, would refute it.
abbrev pub Keeps : Externals → (List ℕ → Type 0) → Type 0
Keeps x Stored =
    (n : Node) (b : List ℕ)
    → WfNode Stored n
    → encode_raw x n ≡ ok b
    → ltb (length b) 32 ≡ false
    → Stored (x.keccak256 b) × (load_node x (x.keccak256 b) ≡ ok n)

pub length-positive : (a : List ℕ) → a ≢ [] → 0 < length a
length-positive [] n = absurd (n refl)
length-positive (m ∷ a) n = omega arith

module _ (x : Externals) (Stored : List ℕ → Type 0) (loads : Loads x Stored)
    (keeps : Keeps x Stored) where
  -- A reference to `n`.
  abbrev pub Refers : NodeRef → Node → Type 0
  Refers r n = WfRef Stored r × (resolve_node_ref x r ≡ ok n)

  Refers-ref_of :
      (n : Node) (b : List ℕ) → WfNode Stored n → encode_raw x n ≡ ok b → Refers (ref_of x n b) n
  unfolding WfNode resolve_node_ref
  Refers-ref_of n b w e = elim (Bool-cases (ltb (length b) 32)) [
    | inl h ↦ rw h (w, refl)
    | inr h ↦ rw h (keeps n b w e h)
  ]

  pub from_node-Refers :
      (n : Node) → WfNode Stored n → (r : NodeRef) × (from_node x n ≡ ok r) × Refers r n
  unfolding from_node
  from_node-Refers n w =
      let (b, e) = encode_raw-total x n in (ref_of x n b, rw e refl, Refers-ref_of n b w e)

  pub resolve_node_ref-total :
      (r : NodeRef) → WfRef Stored r → (n : Node) × (resolve_node_ref x r ≡ ok n) × WfNode Stored n
  unfolding WfNode resolve_node_ref
  resolve_node_ref-total (inline n) w = (n, refl, w)
  resolve_node_ref-total (hash h) w = loads h w

  pub resolve_slot-total :
      (s : Option NodeRef)
      → WfSlot Stored s
      → (n : Node) × (resolve_slot x s ≡ ok n) × WfNode Stored n
  unfolding WfNode resolve_slot
  resolve_slot-total none w = (empty, refl, tt)
  resolve_slot-total (some r) w = resolve_node_ref-total r w

  -- `m` is well formed, has `o` at `k`, and answers every other path as `n` does.
  pub record Updated (n : Node) (k : List ℕ) (o : Value) (m : Node) : Type 0 where
    pub formed : WfNode Stored m
    pub here : Holds x m k o
    pub others : (q : List ℕ) (p : Value) → IsPath q → q ≢ k → Holds x n q p → Holds x m q p

  -- `m` answers every path as `n` does.
  abbrev pub Like : Node → Node → Type 0
  Like n m = (q : List ℕ) (p : Value) → IsPath q → Holds x n q p → Holds x m q p

  pub Updated-Like :
      (n : Node) (k : List ℕ) (o : Value) (m m' : Node)
      → IsPath k
      → Updated n k o m
      → Like m m'
      → WfNode Stored m'
      → Updated n k o m'
  Updated-Like n k o m m' i u l w = record {
    formed = w;
    here = l k o i u.here;
    others = λ q p j d h. l q p j (u.others q p j d h);
  }

  -- Below the path `a`, `top` is `n`; elsewhere it has nothing.
  abbrev pub Below : Node → List ℕ → Node → Type 0
  Below top a n =
      ((q : List ℕ) (p : Value) → IsPath q → Holds x top (a ++ q) p → Holds x n q p)
      × ((q : List ℕ) (p : Value) → (matching a q == length a) ≡ false → Holds x top q p → p ≡ none)

  -- An update under an extension.
  pub Updated-extension :
      (top n m : Node) (a k : List ℕ) (o : Value) (r : NodeRef)
      → a ≢ []
      → IsPath a
      → Below top a n
      → Refers r m
      → Updated n k o m
      → Updated top (a ++ k) o (extension (Nibbles.new a) r)
  unfolding WfNode
  Updated-extension top n m a k o r d i b f u = record {
    formed = (d, (i, f.0));
    here = Holds.Holds-extension x a k r m o d f.1 u.here;
    others = λ q p j e h. elim (append-cases a q) [
      | inl (q', e') ↦
          subst (λ z. Holds x (extension (Nibbles.new a) r) z p) (sym e')
            (Holds.Holds-extension x a q' r m p d f.1 (
              u.others q' p (IsPath-drop a q' (subst IsPath e' j)) (λ g. e (e' ∙ ap (◌++◌ a) g))
                (b.0 q' p (IsPath-drop a q' (subst IsPath e' j))
                  (subst (λ z. Holds x top z p) e' h))))
      | inr g ↦
          subst (λ z. Holds x (extension (Nibbles.new a) r) q z) (sym (b.1 q p g h))
            (Holds.Holds-extension_other x a q r g)
    ];
  }

  answers :
      (f : ℕ) (n : Node) (k : List ℕ)
      → length k < f
      → WfNode Stored n
      → IsPath k
      → (o : Value) × Holds x n k o
  unfolding WfNode
  answers zero n k l w i = absurd (omega (arith, l))
  answers (suc f) empty k l w i = (none, Holds.Holds-empty x k)
  answers (suc f) (leaf lk v) k l w i = elim (Holds.same-cases k lk.items) [
    | inl e ↦ (
      some v,
      subst (λ z. Holds x (leaf lk v) z (some v)) (sym e) (Holds.Holds-leaf_same x lk.items v),
    )
    | inr (d, _) ↦ (none, Holds.Holds-leaf_other x lk.items k v d)
  ]
  answers (suc f) (extension a r) k l (d, (j, w)) i = elim (append-cases a.items k) [
    | inl (k', e) ↦
        let (c, h, w') = resolve_node_ref-total r w in
        let (o, g) =
          answers f c k'
            (omega (arith, l, ap length e, length-append a.items k', length-positive a.items d)) w'
            (IsPath-drop a.items k' (subst IsPath e i)) in
        (
          o,
          subst (λ z. Holds x (extension a r) z o) (sym e)
              (Holds.Holds-extension x a.items k' r c o d h g),
        )
    | inr h ↦ (none, Holds.Holds-extension_other x a.items k r h)
  ]
  answers (suc f) (branch cs v) [] l w i = (v, Holds.Holds-branch_end x cs v)
  answers (suc f) (branch cs v) (m ∷ k) l (e, w) i =
      let (s, h) = child-total cs m (subst (λ z. m < z) (sym e) i.0) in
      let (c, g, w') = resolve_slot-total s (child-WfSlot Stored cs m s w h) in
      let (o, j) = answers f c k (omega (arith, l)) w' i.1 in
      (o, Holds.Holds-branch x cs v m k s c o h g j)

  -- A well-formed node answers every path.
  pub Holds-total :
      (n : Node) (k : List ℕ) → WfNode Stored n → IsPath k → (o : Value) × Holds x n k o
  Holds-total n k w i = answers (suc (length k)) n k (omega arith) w i
