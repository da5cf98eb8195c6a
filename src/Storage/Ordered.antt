-- ===== src/Storage/Ordered.antt =====
-- crates/storage/src/memory.rs: the entries stay in the order of their keys, each key once.
use ethereum_rust.Base.{
  ℕ, ◌≡◌, ◌≢◌, ◌⊎◌, refl, sym, ◌∙◌, subst, true, false, List, [], ◌∷◌, none, some, All, Bool-cases,
  inl, inr,
}
use ethereum_rust.Base.Keys.{
  same, key_lt, same_refl, same-cases, key_lt_refl, key_lt_trans, key_lt_total,
}
use ethereum_rust.Storage.{Key, Entries, find, insert, remove}

-- Every key is above `key`.
abbrev pub Above : Key → Entries → Type 0
Above key = All (λ e. key_lt key e.0 ≡ true)

abbrev pub Ordered : Entries → Type 0
Ordered [] = Unit
Ordered ((k, v) ∷ rest) = Above k rest × Ordered rest

pub Above-trans : (a b : Key) (es : Entries) → key_lt a b ≡ true → Above b es → Above a es
Above-trans a b [] h i = tt
Above-trans a b (e ∷ es) h i = (key_lt_trans a b e.0 h i.0, Above-trans a b es h i.1)

-- What a key has on both sides of an entry.
pub key-cases :
    (a b : Key)
    → ((a ≡ b) × (same a b ≡ true))
      ⊎ ((same a b ≡ false) × (key_lt a b ≡ true))
      ⊎ ((same a b ≡ false) × (key_lt a b ≡ false) × (key_lt b a ≡ true))
key-cases a b = elim (same-cases a b) [
  | inl e ↦ inl (e, subst (λ z. same a z ≡ true) e (same_refl a))
  | inr (_, h) ↦ elim (Bool-cases (key_lt a b)) [
    | inl g ↦ inr (inl (h, g))
    | inr g ↦ inr (inr (h, g, key_lt_total a b h g))
  ]
]

insert-Above :
    (a key : Key) (v : List ℕ) (es : Entries)
    → key_lt a key ≡ true
    → Above a es
    → Above a (insert key v es)
unfolding insert
insert-Above a key v [] h i = (h, tt)
insert-Above a key v ((k, w) ∷ es) h i = elim (key-cases key k) [
  | inl (_, e) ↦ rw e (h, i.1)
  | inr (inl (e, g)) ↦ rw (e, g) (h, i)
  | inr (inr (e, g, _)) ↦ rw (e, g) (i.0, insert-Above a key v es h i.1)
]

pub insert-Ordered :
    (key : Key) (v : List ℕ) (es : Entries) → Ordered es → Ordered (insert key v es)
unfolding insert
insert-Ordered key v [] o = (tt, tt)
insert-Ordered key v ((k, w) ∷ es) o = elim (key-cases key k) [
  | inl (p, e) ↦ rw e (subst (λ z. Above z es) (sym p) o.0, o.1)
  | inr (inl (e, g)) ↦ rw (e, g) ((g, Above-trans key k es g o.0), o)
  | inr (inr (e, g, l)) ↦ rw (e, g) (insert-Above k key v es l o.0, insert-Ordered key v es o.1)
]

remove-Above : (a key : Key) (es : Entries) → Above a es → Above a (remove key es)
unfolding remove
remove-Above a key [] i = tt
remove-Above a key ((k, w) ∷ es) i = elim (Bool-cases (same key k)) [
  | inl e ↦ rw e i.1
  | inr e ↦ rw e (i.0, remove-Above a key es i.1)
]

pub remove-Ordered : (key : Key) (es : Entries) → Ordered es → Ordered (remove key es)
unfolding remove
remove-Ordered key [] o = tt
remove-Ordered key ((k, w) ∷ es) o = elim (Bool-cases (same key k)) [
  | inl e ↦ rw e o.1
  | inr e ↦ rw e (remove-Above k key es o.0, remove-Ordered key es o.1)
]

-- A key below all the others is not there.
pub find-Above : (key : Key) (es : Entries) → Above key es → find key es ≡ none
unfolding find
find-Above key [] i = refl
find-Above key ((k, w) ∷ es) i = elim (same-cases key k) [
  | inl e ↦ absurd (cc (subst (λ z. key_lt key z ≡ true) (sym e) i.0, key_lt_refl key))
  | inr (_, h) ↦ rw h (find-Above key es i.1)
]

pub find-insert_same : (key : Key) (v : List ℕ) (es : Entries) → find key (insert key v es) ≡ some v
unfolding find insert
find-insert_same key v [] = rw (same_refl key) refl
find-insert_same key v ((k, w) ∷ es) = elim (key-cases key k) [
  | inl (_, e) ↦ rw (e, same_refl key) refl
  | inr (inl (e, g)) ↦ rw (e, g, same_refl key) refl
  | inr (inr (e, g, _)) ↦ rw (e, g, e) (find-insert_same key v es)
]

different : (q key : Key) → q ≢ key → same q key ≡ false
different q key d = elim (same-cases q key) [ inl e ↦ absurd (d e) | inr (_, h) ↦ h ]

pub find-insert_other :
    (q key : Key) (v : List ℕ) (es : Entries) → q ≢ key → find q (insert key v es) ≡ find q es
unfolding find insert
find-insert_other q key v [] d = rw (different q key d) refl
find-insert_other q key v ((k, w) ∷ es) d = elim (key-cases key k) [
  | inl (p, e) ↦ rw (e, different q key d, different q k (λ z. d (z ∙ sym p))) refl
  | inr (inl (e, g)) ↦ rw (e, g, different q key d) refl
  | inr (inr (e, g, _)) ↦ rw (e, g, find-insert_other q key v es d) refl
]

pub find-remove_same : (key : Key) (es : Entries) → Ordered es → find key (remove key es) ≡ none
unfolding find remove
find-remove_same key [] o = refl
find-remove_same key ((k, w) ∷ es) o = elim (same-cases key k) [
  | inl e ↦ rw (e, same_refl k) (find-Above k es o.0)
  | inr (_, h) ↦ rw (h, h) (find-remove_same key es o.1)
]

pub find-remove_other : (q key : Key) (es : Entries) → q ≢ key → find q (remove key es) ≡ find q es
unfolding find remove
find-remove_other q key [] d = refl
find-remove_other q key ((k, w) ∷ es) d = elim (same-cases key k) [
  | inl e ↦ rw (e, same_refl k, different q k (λ z. d (z ∙ sym e))) refl
  | inr (_, h) ↦ rw (h, find-remove_other q key es d) refl
]
