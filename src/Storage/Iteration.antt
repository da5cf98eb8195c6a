-- ===== src/Storage/Iteration.antt =====
-- crates/storage/src/memory.rs: what the iterators yield.
use ethereum_rust.Base.{
  ℕ, zero, suc, ◌<◌, ◌≤◌, ◌≡◌, refl, sym, ◌∙◌, ap, subst, true, false, List, [], ◌∷◌, Option, none,
  some, arith, lt→ltb, le→ltb, Bool-cases, inl, inr, if◌then◌else◌, length, drop, get_elem?-drop,
  length_of_drop,
}
use ethereum_rust.Base.Keys.{key_lt, same_refl, same-cases, key_lt_trans, key_lt_total}
use ethereum_rust.Storage.{
  Key, Entries, MemoryDatabase, find, get, from_key, with_prefix, starts_with, MemoryIterator, iter,
  iter_from, iter_prefix, next, first_from, seek,
}
use ethereum_rust.Storage.Ordered.{Ordered, find-Above, Above-trans}
use ethereum_rust.Storage.Laws.{IsOrdered}

-- `while let Some(Ok(entry)) = it.next()` on fuel.
abbrev go_on : Option (Key × List ℕ) × MemoryIterator → (MemoryIterator → Entries) → Entries
go_on (none, it) f = []
go_on (some entry, it) f = entry ∷ f it

unfoldable pub collect : ℕ → MemoryIterator → Entries
collect zero it = []
collect (suc fuel) it = go_on (next it) (λ it'. collect fuel it')

-- The item at the position, and what is left.
next-drop-some :
    (it : MemoryIterator) (e : Key × List ℕ) (rest : Entries)
    → drop it.position it.items ≡ e ∷ rest
    → next it ≡ (some e, record it { position = suc it.position })
unfolding next
next-drop-some it e rest h =
    rw
      (
        lt→ltb it.position (length it.items) (omega (arith, length_of_drop it.position it.items h)),
        get_elem?-drop it.position it.items h,
      )
      refl

nothing-left : {A : Type 0} (n : ℕ) (xs : List A) → drop n xs ≡ [] → length xs ≤ n
nothing-left n [] h = omega arith
nothing-left zero (y ∷ xs) h = absurd (cc h)
nothing-left (suc n) (y ∷ xs) h = omega (arith, nothing-left n xs h)

next-drop-none : (it : MemoryIterator) → drop it.position it.items ≡ [] → next it ≡ (none, it)
unfolding next
next-drop-none it h =
    rw (le→ltb it.position (length it.items) (nothing-left it.position it.items h)) refl

drop-next :
    {A : Type 0} (i : ℕ) (xs : List A) (e : A) (rest : List A)
    → drop i xs ≡ e ∷ rest
    → drop (suc i) xs ≡ rest
drop-next zero [] e rest h = absurd (cc h)
drop-next zero (y ∷ xs) e rest h = cc h
drop-next (suc i) [] e rest h = absurd (cc h)
drop-next (suc i) (y ∷ xs) e rest h = drop-next i xs e rest h

collect-left :
    (fuel : ℕ) (it : MemoryIterator) (left : Entries)
    → length left < fuel
    → drop it.position it.items ≡ left
    → collect fuel it ≡ left
unfolding collect
collect-left zero it left l h = absurd (omega (arith, l))
collect-left (suc fuel) it [] l h = ap (λ z. go_on z (collect fuel)) (next-drop-none it h)
collect-left (suc fuel) it (e ∷ left) l h =
    ap (λ z. go_on z (collect fuel)) (next-drop-some it e left h)
    ∙ ap (◌∷◌ e) (
        collect-left fuel (record it { position = suc it.position }) left (omega (arith, l))
          (drop-next it.position it.items e left h))

-- An iterator yields each entry of the database once, in the order of the keys, and then ends.
pub collect-iter : (db : MemoryDatabase) → collect (suc (length db.entries)) (iter db) ≡ db.entries
collect-iter db = collect-left (suc (length db.entries)) (iter db) db.entries (omega arith) refl

key_lt-not_below :
    (q k start : Key) → key_lt q start ≡ true → key_lt k start ≡ false → key_lt q k ≡ true
key_lt-not_below q k start h g = elim (same-cases k start) [
  | inl e ↦ subst (λ z. key_lt q z ≡ true) (sym e) h
  | inr (_, d) ↦ key_lt_trans q start k h (key_lt_total k start d g)
]

find-skipped :
    (start q k : Key) (v : List ℕ) (es : Entries)
    → key_lt k start ≡ true
    → (if key_lt q start then none else find q es)
      ≡ (if key_lt q start then none else find q ((k, v) ∷ es))
unfolding find
find-skipped start q k v es h = elim (same-cases q k) [
  | inl e ↦ rw (e, h) refl
  | inr (_, g) ↦ rw g refl
]

find-kept :
    (start q : Key) (k : Key) (v : List ℕ) (es : Entries)
    → Ordered ((k, v) ∷ es)
    → key_lt k start ≡ false
    → find q ((k, v) ∷ es) ≡ (if key_lt q start then none else find q ((k, v) ∷ es))
find-kept start q k v es o h = elim (Bool-cases (key_lt q start)) [
  | inl g ↦
      let l = key_lt-not_below q k start g h in
      rw g (find-Above q ((k, v) ∷ es) (l, Above-trans q k es l o.0))
  | inr g ↦ rw g refl
]

find-from_key :
    (start q : Key) (es : Entries)
    → Ordered es
    → find q (from_key start es) ≡ (if key_lt q start then none else find q es)
unfolding find from_key
find-from_key start q [] o = elim (Bool-cases (key_lt q start)) [
  | inl h ↦ rw h refl
  | inr h ↦ rw h refl
]
find-from_key start q ((k, v) ∷ es) o = elim (Bool-cases (key_lt k start)) [
  | inl h ↦ rw h (find-from_key start q es o.1 ∙ find-skipped start q k v es h)
  | inr h ↦ rw h (find-kept start q k v es o h)
]

from_key-Ordered : (start : Key) (es : Entries) → Ordered es → Ordered (from_key start es)
unfolding from_key
from_key-Ordered start [] o = tt
from_key-Ordered start ((k, v) ∷ es) o = elim (Bool-cases (key_lt k start)) [
  | inl h ↦ rw h (from_key-Ordered start es o.1)
  | inr h ↦ rw h o
]

-- The iterator from a key yields entries in the order of their keys, in which a key below the start is not
-- found and every other key has what the database has for it.
pub iter_from_lem :
    (db : MemoryDatabase) (start : Key)
    → IsOrdered db
    → (es : Entries) × (collect (suc (length es)) (iter_from db start) ≡ es)
      × Ordered es
      × ((q : Key) → find q es ≡ (if key_lt q start then none else get db q))
unfolding get
iter_from_lem db start o =
    let es : Entries = from_key start db.entries in
    (
      es,
      collect-left (suc (length es)) (iter_from db start) es (omega arith) refl,
      from_key-Ordered start db.entries o,
      λ q. find-from_key start q db.entries o,
    )

drop-first_from : (key : Key) (es : Entries) → drop (first_from key es) es ≡ from_key key es
unfolding first_from from_key
drop-first_from key [] = refl
drop-first_from key ((k, v) ∷ es) = elim (Bool-cases (key_lt k key)) [
  | inl h ↦ rw (h, drop-first_from key es) refl
  | inr h ↦ rw h refl
]

abbrev pub head : Entries → Option (Key × List ℕ)
head [] = none
head (e ∷ es) = some e

abbrev pub tail : Entries → Entries
tail [] = []
tail (e ∷ es) = es

seek-left :
    (key : Key) (it : MemoryIterator) (es : Entries)
    → from_key key it.items ≡ es
    → ((seek key it).0 ≡ head es) × (collect (suc (length es)) (seek key it).1 ≡ tail es)
unfolding seek
seek-left key it [] h =
    let at : MemoryIterator = record it { position = first_from key it.items } in
    let d = drop-first_from key it.items ∙ h in
    subst (λ z. (z.0 ≡ none) × (collect 1 z.1 ≡ [])) (sym (next-drop-none at d))
      (refl, collect-left 1 at [] (omega arith) d)
seek-left key it (e ∷ es) h =
    let at : MemoryIterator = record it { position = first_from key it.items } in
    let d = drop-first_from key it.items ∙ h in
    subst (λ z. (z.0 ≡ some e) × (collect (suc (suc (length es))) z.1 ≡ es))
      (sym (next-drop-some at e es d))
      (
        refl,
        collect-left (suc (suc (length es))) (record at { position = suc at.position }) es
            (omega arith) (drop-next at.position at.items e es d),
      )

-- `seek` on an iterator over the database, wherever it stood, yields the first entry that `iter_from` yields,
-- and the iterator then goes on with the rest of them.
pub seek_lem :
    (db : MemoryDatabase) (key : Key) (position : ℕ)
    → ((seek key (record { items = db.entries; position = position })).0
        ≡ head (iter_from db key).items)
      × (collect
            (suc (length (iter_from db key).items))
            (seek key (record { items = db.entries; position = position })).1
          ≡ tail (iter_from db key).items)
seek_lem db key position =
    seek-left key (record { items = db.entries; position = position }) (from_key key db.entries)
      refl

find-dropped :
    (prefix q k : Key) (v : List ℕ) (es : Entries)
    → starts_with k prefix ≡ false
    → (if starts_with q prefix then find q es else none)
      ≡ (if starts_with q prefix then find q ((k, v) ∷ es) else none)
unfolding find
find-dropped prefix q k v es h = elim (same-cases q k) [
  | inl e ↦ rw (e, h) refl
  | inr (_, g) ↦ rw g refl
]

find-with_prefix :
    (prefix q : Key) (es : Entries)
    → find q (with_prefix prefix es) ≡ (if starts_with q prefix then find q es else none)
unfolding find with_prefix
find-with_prefix prefix q [] = elim (Bool-cases (starts_with q prefix)) [
  | inl h ↦ rw h refl
  | inr h ↦ rw h refl
]
find-with_prefix prefix q ((k, v) ∷ es) = elim (Bool-cases (starts_with k prefix)) [
  | inl h ↦ elim (same-cases q k) [
    | inl e ↦ rw (h, e, same_refl k, h) refl
    | inr (_, g) ↦ rw (h, g) (find-with_prefix prefix q es)
  ]
  | inr h ↦ rw h (find-with_prefix prefix q es ∙ find-dropped prefix q k v es h)
]

-- The iterator over a prefix yields entries in which a key that starts with the prefix has what the database
-- has for it, and no other key is found.
pub iter_prefix_lem :
    (db : MemoryDatabase) (prefix : Key)
    → (es : Entries) × (collect (suc (length es)) (iter_prefix db prefix) ≡ es)
      × ((q : Key) → find q es ≡ (if starts_with q prefix then get db q else none))
unfolding get
iter_prefix_lem db prefix =
    let es : Entries = with_prefix prefix db.entries in
    (
      es,
      collect-left (suc (length es)) (iter_prefix db prefix) es (omega arith) refl,
      λ q. find-with_prefix prefix q db.entries,
    )
