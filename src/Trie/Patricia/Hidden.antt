-- ===== src/Trie/Patricia/Hidden.antt =====
-- crates/trie/src/trie.rs: a trie whose nodes of 32 bytes or more are behind a hash that the database does
-- not have, beside the same trie with every node in its parent.
pub mod Steps
use ethereum_rust.Base.{
  ℕ, zero, suc, ◌≡◌, refl, sym, subst, Bool, true, false, List, [], ◌∷◌, Option, none, some, ltb,
  Bool-cases, inl, inr, length, if◌then◌else◌,
}
use ethereum_rust.Base.Result.{Result, ok, err, panic, stuck, or_panic, ◌>>=◌}
use ethereum_rust.Rlp.Encode.{string_form}
use ethereum_rust.Trie.Nibbles.{Nibbles, encode_compact}
use ethereum_rust.Trie.Node.{
  Node, empty, leaf, extension, branch, NodeRef, hash, inline, Children, nil, absent, present,
  child, set_child, slot_cons, no_children, Externals, TrieError, key_not_found, encode_raw,
  encode_ref, encode_children, from_node, ref_of, hash_of,
}
use ethereum_rust.Trie.Patricia.{load_node, resolve_node_ref, resolve_slot, occupied}
use ethereum_rust.Trie.Patricia.WellFormed.{encode_raw-total}
use ethereum_rust.Trie.Patricia.Updated.{Loads, Keeps}

-- The database has no node.
abbrev pub Missing : Externals → Type 0
Missing x = (k : List ℕ) → x.db_get k ≡ ok none

-- The same with lists that are encoded in no byte, so that every node is inline.
abbrev pub unhidden : Externals → Externals
unhidden x = record x { encode_list = λ n payload. [] }

mutual
  -- The first is the second with some of its inline nodes behind a hash.
  pub data Hides : Node → Node → Type 0 where
    empty_hides : Hides empty empty
    leaf_hides : (k : Nibbles) (v : List ℕ) → Hides (leaf k v) (leaf k v)
    extension_hides :
        (k : Nibbles) {r r' : NodeRef} → HidesRef r r' → Hides (extension k r) (extension k r')
    branch_hides :
        {cs cs' : Children} (v : Option (List ℕ))
        → HidesChildren cs cs'
        → Hides (branch cs v) (branch cs' v)

  pub data HidesRef : NodeRef → NodeRef → Type 0 where
    hidden : (h : List ℕ) (n : Node) → HidesRef (hash h) (inline n)
    shown : {n m : Node} → Hides n m → HidesRef (inline n) (inline m)

  pub data HidesChildren : Children → Children → Type 0 where
    nil_hides : HidesChildren nil nil
    absent_hides :
        {cs cs' : Children} → HidesChildren cs cs' → HidesChildren (absent cs) (absent cs')
    present_hides :
        {r r' : NodeRef} {cs cs' : Children}
        → HidesRef r r'
        → HidesChildren cs cs'
        → HidesChildren (present r cs) (present r' cs')

-- The first fails with `KeyNotFound`, or both return related values, panic or run out of fuel.
pub data Follows {A B : Type 0} (R : A → B → Type 0)
    : Result TrieError A → Result TrieError B → Type 0 where
  fails : {r : Result TrieError B} → Follows R (err key_not_found) r
  returns : {a : A} {b : B} → R a b → Follows R (ok a) (ok b)
  panics : Follows R panic panic
  stops : Follows R stuck stuck

pub data Agrees {A B : Type 0} (R : A → B → Type 0) : Option A → Option B → Type 0 where
  neither : Agrees R none none
  both : {a : A} {b : B} → R a b → Agrees R (some a) (some b)

pub bind :
    {A B C D : Type 0} {R : A → B → Type 0} {S : C → D → Type 0} {m : Result TrieError A}
    {m' : Result TrieError B} {f : A → Result TrieError C} {f' : B → Result TrieError D}
    → Follows R m m'
    → ((a : A) (b : B) → R a b → Follows S (f a) (f' b))
    → Follows S (m >>= f) (m' >>= f')
bind fails k = fails
bind (returns {a} {b} r) k = k a b r
bind panics k = panics
bind stops k = stops

pub or_panic-Follows :
    {A B : Type 0} {R : A → B → Type 0} {o : Option A} {o' : Option B}
    → Agrees R o o'
    → Follows R (or_panic o) (or_panic o')
or_panic-Follows neither = panics
or_panic-Follows (both r) = returns r

pub if-Follows :
    {A B : Type 0} {R : A → B → Type 0} (c : Bool) {x y : Result TrieError A}
    {x' y' : Result TrieError B}
    → Follows R x x'
    → Follows R y y'
    → Follows R (if c then x else y) (if c then x' else y')
if-Follows true h k = h
if-Follows false h k = k

abbrev pub HidesSlot : Option NodeRef → Option NodeRef → Type 0
HidesSlot = Agrees HidesRef

pub child-Hides :
    {cs cs' : Children}
    → HidesChildren cs cs'
    → (i : ℕ) → Agrees HidesSlot (child cs i) (child cs' i)
unfolding child
child-Hides nil_hides i = neither
child-Hides (absent_hides h) zero = both neither
child-Hides (absent_hides h) (suc i) = child-Hides h i
child-Hides (present_hides r h) zero = both (both r)
child-Hides (present_hides r h) (suc i) = child-Hides h i

slot_cons-Hides :
    {s s' : Option NodeRef} {cs cs' : Children}
    → HidesSlot s s'
    → HidesChildren cs cs'
    → HidesChildren (slot_cons s cs) (slot_cons s' cs')
slot_cons-Hides neither h = absent_hides h
slot_cons-Hides (both r) h = present_hides r h

after_absent :
    {o o' : Option Children}
    → Agrees HidesChildren o o'
    → Agrees HidesChildren
        (elim o [ none ↦ none | some c ↦ some (absent c) ])
        (elim o' [ none ↦ none | some c ↦ some (absent c) ])
after_absent neither = neither
after_absent (both h) = both (absent_hides h)

after_present :
    {r r' : NodeRef} {o o' : Option Children}
    → HidesRef r r'
    → Agrees HidesChildren o o'
    → Agrees HidesChildren
        (elim o [ none ↦ none | some c ↦ some (present r c) ])
        (elim o' [ none ↦ none | some c ↦ some (present r' c) ])
after_present r neither = neither
after_present r (both h) = both (present_hides r h)

pub set_child-Hides :
    {cs cs' : Children} {s s' : Option NodeRef}
    → HidesChildren cs cs'
    → (i : ℕ) → HidesSlot s s'
    → Agrees HidesChildren (set_child cs i s) (set_child cs' i s')
unfolding set_child
set_child-Hides nil_hides i s = neither
set_child-Hides (absent_hides h) zero s = both (slot_cons-Hides s h)
set_child-Hides (present_hides r h) zero s = both (slot_cons-Hides s h)
set_child-Hides (absent_hides h) (suc i) s = after_absent (set_child-Hides h i s)
set_child-Hides (present_hides r h) (suc i) s = after_present r (set_child-Hides h i s)

pub no_children-Hides : (n : ℕ) → HidesChildren (no_children n) (no_children n)
unfolding no_children
no_children-Hides zero = nil_hides
no_children-Hides (suc n) = absent_hides (no_children-Hides n)

-- The children that are there, at the same places.
pub data HidesList : List (ℕ × NodeRef) → List (ℕ × NodeRef) → Type 0 where
  no_more : HidesList [] []
  one_more :
      {r r' : NodeRef} {cs cs' : List (ℕ × NodeRef)} (i : ℕ)
      → HidesRef r r'
      → HidesList cs cs'
      → HidesList ((i, r) ∷ cs) ((i, r') ∷ cs')

pub occupied-Hides :
    {cs cs' : Children}
    → HidesChildren cs cs'
    → (i : ℕ) → HidesList (occupied i cs) (occupied i cs')
unfolding occupied
occupied-Hides nil_hides i = no_more
occupied-Hides (absent_hides h) i = occupied-Hides h (suc i)
occupied-Hides (present_hides r h) i = one_more i r (occupied-Hides h (suc i))

module _ (x : Externals) where
  abbrev bytes : List ℕ → Result TrieError (List ℕ)
  bytes b = ok b

  ok-injective : {a b : List ℕ} → bytes a ≡ bytes b → a ≡ b
  ok-injective h = cc h

  abbrev Short : List ℕ → Type 0
  Short b = ltb (length b) 32 ≡ true

  no_bytes :
      {A : Type 0} (r : Result TrieError A) (b : List ℕ) → (r >>= λ _. bytes []) ≡ ok b → Short b
  no_bytes (ok a) b h = subst Short (ok-injective h) refl
  no_bytes (err e) b h = absurd (cc h)
  no_bytes panic b h = absurd (cc h)
  no_bytes stuck b h = absurd (cc h)

  no_bytes_twice :
      {A B : Type 0} (r : Result TrieError A) (q : Result TrieError B) (b : List ℕ)
      → (r >>= λ _. q >>= λ _. bytes []) ≡ ok b
      → Short b
  no_bytes_twice (ok a) q b h = no_bytes q b h
  no_bytes_twice (err e) q b h = absurd (cc h)
  no_bytes_twice panic q b h = absurd (cc h)
  no_bytes_twice stuck q b h = absurd (cc h)

  pub unhidden_short :
      (n : Node) (b : List ℕ) → encode_raw (unhidden x) n ≡ ok b → ltb (length b) 32 ≡ true
  unfolding encode_raw string_form
  unhidden_short empty b h = subst Short (ok-injective h) refl
  unhidden_short (leaf k v) b h = no_bytes (or_panic (encode_compact k true)) b h
  unhidden_short (extension k r) b h =
      no_bytes_twice (or_panic (encode_compact k false)) (encode_ref (unhidden x) r) b h
  unhidden_short (branch cs v) b h = no_bytes (encode_children (unhidden x) cs) b h

  unhidden-from_node : (n : Node) → from_node (unhidden x) n ≡ ok (inline n)
  unfolding from_node
  unhidden-from_node n =
      let (b, e) = encode_raw-total (unhidden x) n in rw (e, unhidden_short n b e) refl

  abbrev pub Nothing : List ℕ → Type 0
  Nothing h = ⊥

  pub unhidden-Loads : Loads (unhidden x) Nothing
  unhidden-Loads h n = absurd n

  pub unhidden-Keeps : Keeps (unhidden x) Nothing
  unhidden-Keeps n b w e l = absurd (cc (unhidden_short n b e, l))

  ref_of-Hides :
      {n m : Node} (c : Bool) (h : List ℕ)
      → Hides n m
      → HidesRef (if c then inline n else hash h) (inline m)
  ref_of-Hides true h k = shown k
  ref_of-Hides {m = m} false h k = hidden h m

  pub from_node-Follows :
      {n m : Node} → Hides n m → Follows HidesRef (from_node x n) (from_node (unhidden x) m)
  unfolding from_node
  from_node-Follows {n} {m} h =
      let (b, e) = encode_raw-total x n in
      subst (λ r. Follows HidesRef (from_node x n) r) (sym (unhidden-from_node m))
        (rw e (returns (ref_of-Hides (ltb (length b) 32) (hash_of x b) h)))

  module _ (missing : Missing x) where
    load_node-fails : (h : List ℕ) → load_node x h ≡ err key_not_found
    unfolding load_node
    load_node-fails h = rw (missing (0x74 ∷ h)) refl

    pub resolve_node_ref-Follows :
        {r r' : NodeRef}
        → HidesRef r r'
        → Follows Hides (resolve_node_ref x r) (resolve_node_ref (unhidden x) r')
    unfolding resolve_node_ref
    resolve_node_ref-Follows (hidden h n) = rw (load_node-fails h) fails
    resolve_node_ref-Follows (shown h) = returns h

    pub resolve_slot-Follows :
        {s s' : Option NodeRef}
        → HidesSlot s s'
        → Follows Hides (resolve_slot x s) (resolve_slot (unhidden x) s')
    unfolding resolve_slot
    resolve_slot-Follows neither = returns empty_hides
    resolve_slot-Follows (both r) = resolve_node_ref-Follows r
