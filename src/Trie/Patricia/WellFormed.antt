-- ===== src/Trie/Patricia/WellFormed.antt =====
-- crates/trie/src/node.rs, crates/trie/src/trie.rs: the nodes that a trie is made of, and references that
-- lead to them. `Stored` says which hashes the database answers.
use ethereum_rust.Base.{
  ℕ, zero, suc, ◌≡◌, ◌≢◌, refl, subst, ◌++◌, ◌%◌, Bool, true, false, List, [], ◌∷◌, Option, none,
  some, Bool-cases, inl, inr, length, ◌==◌,
}
use ethereum_rust.Base.Result.{ok}
use ethereum_rust.Trie.Nibbles.{Nibbles, encode_compact, pack_odd, pack, flags_of}
use ethereum_rust.Trie.Nibbles
use ethereum_rust.Rlp.Encode.{string_form}
use Prim.Native.Nat.{bit_or}
use ethereum_rust.Trie.Nibbles.Split.{IsPath}
use ethereum_rust.Trie.Node.{
  Node, empty, leaf, extension, branch, NodeRef, hash, inline, Children, nil, absent, present,
  child, set_child, no_children, slot_cons, Externals, encode_raw, encode_ref, encode_children,
  encode_value,
}
use ethereum_rust.Trie.Patricia.Slots.{count}

some-injective : {A : Type 0} {a b : A} → some a ≡ some b → a ≡ b
some-injective e = cc e

module _ (Stored : List ℕ → Type 0) where
  -- The key of an extension is not empty, and a branch has sixteen children.
  unfoldable mutual
    pub WfNode : Node → Type 0
    WfNode empty = Unit
    WfNode (leaf k v) = IsPath k.items
    WfNode (extension k r) = (k.items ≢ []) × (IsPath k.items × WfRef r)
    WfNode (branch cs v) = (count cs ≡ 16) × WfChildren cs

    pub WfRef : NodeRef → Type 0
    WfRef (hash h) = Stored h
    WfRef (inline n) = WfNode n

    pub WfChildren : Children → Type 0
    WfChildren nil = Unit
    WfChildren (absent cs) = WfChildren cs
    WfChildren (present r cs) = WfRef r × WfChildren cs

  abbrev pub WfSlot : Option NodeRef → Type 0
  WfSlot none = Unit
  WfSlot (some r) = WfRef r

  pub child-WfSlot :
      (cs : Children) (i : ℕ) (s : Option NodeRef) → WfChildren cs → child cs i ≡ some s → WfSlot s
  unfolding child WfNode
  child-WfSlot nil i s w e = absurd (cc e)
  child-WfSlot (absent cs) zero none w e = tt
  child-WfSlot (absent cs) zero (some r) w e = absurd (cc e)
  child-WfSlot (present r cs) zero none w e = absurd (cc e)
  child-WfSlot (present r cs) zero (some q) w e = subst WfRef (cc e) w.0
  child-WfSlot (absent cs) (suc i) s w e = child-WfSlot cs i s w e
  child-WfSlot (present r cs) (suc i) s w e = child-WfSlot cs i s w.1 e

  pub no_children-WfChildren : (n : ℕ) → WfChildren (no_children n)
  unfolding no_children WfNode
  no_children-WfChildren zero = tt
  no_children-WfChildren (suc n) = no_children-WfChildren n

  slot_cons-WfChildren :
      (s : Option NodeRef) (cs : Children) → WfSlot s → WfChildren cs → WfChildren (slot_cons s cs)
  unfolding WfNode
  slot_cons-WfChildren none cs h w = w
  slot_cons-WfChildren (some r) cs h w = (h, w)

  after_absent :
      (o : Option Children) (cs' : Children)
      → ((c : Children) → o ≡ some c → WfChildren c)
      → elim o [ none ↦ none | some c ↦ some (absent c) ] ≡ some cs'
      → WfChildren cs'
  unfolding WfNode
  after_absent none cs' h e = absurd (cc e)
  after_absent (some c) cs' h e = subst WfChildren (some-injective e) (h c refl)

  after_present :
      (r : NodeRef) (o : Option Children) (cs' : Children)
      → WfRef r
      → ((c : Children) → o ≡ some c → WfChildren c)
      → elim o [ none ↦ none | some c ↦ some (present r c) ] ≡ some cs'
      → WfChildren cs'
  unfolding WfNode
  after_present r none cs' w h e = absurd (cc e)
  after_present r (some c) cs' w h e = subst WfChildren (some-injective e) (w, h c refl)

  pub set_child-WfChildren :
      (cs : Children) (i : ℕ) (s : Option NodeRef) (cs' : Children)
      → WfChildren cs
      → WfSlot s
      → set_child cs i s ≡ some cs'
      → WfChildren cs'
  unfolding set_child WfNode
  set_child-WfChildren nil i s cs' w h e = absurd (cc e)
  set_child-WfChildren (absent cs) zero s cs' w h e =
      subst WfChildren (some-injective e) (slot_cons-WfChildren s cs h w)
  set_child-WfChildren (present r cs) zero s cs' w h e =
      subst WfChildren (some-injective e) (slot_cons-WfChildren s cs h w.1)
  set_child-WfChildren (absent cs) (suc i) s cs' w h e =
      after_absent (set_child cs i s) cs' (λ c. set_child-WfChildren cs i s c w h) e
  set_child-WfChildren (present r cs) (suc i) s cs' w h e =
      after_present r (set_child cs i s) cs' w.0 (λ c. set_child-WfChildren cs i s c w.1 h) e

encode_compact-total :
    (k : List ℕ) (b : Bool) → (bytes : List ℕ) × (encode_compact (Nibbles.new k) b ≡ some bytes)
unfolding encode_compact pack_odd
encode_compact-total [] b = (flags_of b false ∷ pack [], refl)
encode_compact-total (n ∷ k) b = elim (Bool-cases (length (n ∷ k) % 2 == 1)) [
  | inl e ↦ (bit_or (flags_of b true) n ∷ pack k, rw e refl)
  | inr e ↦ (flags_of b false ∷ pack (n ∷ k), rw e refl)
]

module _ (x : Externals) where
  -- Every node has an encoding.
  mutual
    unfolding encode_raw

    pub encode_raw-total : (n : Node) → (b : List ℕ) × (encode_raw x n ≡ ok b)
    encode_raw-total empty = (string_form [], refl)
    encode_raw-total (leaf k v) =
        let (c, e) = encode_compact-total k.items true in
        (x.encode_list 2 (string_form c ++ string_form v), rw e refl)
    encode_raw-total (extension k r) =
        let (c, e) = encode_compact-total k.items false in
        let (b, h) = encode_ref-total r in (x.encode_list 2 (string_form c ++ b), rw (e, h) refl)
    encode_raw-total (branch cs v) =
        let (b, h) = encode_children-total cs in (x.encode_list 17 (b ++ encode_value v), rw h refl)

    encode_ref-total : (r : NodeRef) → (b : List ℕ) × (encode_ref x r ≡ ok b)
    encode_ref-total (hash h) = (string_form h, refl)
    encode_ref-total (inline n) = let (b, h) = encode_raw-total n in (string_form b, rw h refl)

    encode_children-total : (cs : Children) → (b : List ℕ) × (encode_children x cs ≡ ok b)
    encode_children-total nil = ([], refl)
    encode_children-total (absent cs) =
        let (b, h) = encode_children-total cs in (string_form [] ++ b, rw h refl)
    encode_children-total (present r cs) =
        let (a, g) = encode_ref-total r in
        let (b, h) = encode_children-total cs in (a ++ b, rw (g, h) refl)
