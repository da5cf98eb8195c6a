-- ===== src/Trie/Patricia/Slots.antt =====
-- crates/trie/src/node.rs: the sixteen children of a branch.
use ethereum_rust.Base.{ℕ, zero, suc, ◌<◌, ◌≡◌, ◌≢◌, refl, sym, ◌∙◌, ap, Option, none, some, arith}
use ethereum_rust.Trie.Node.{
  NodeRef, Children, nil, absent, present, slot_cons, child, set_child, no_children,
}

unfoldable pub count : Children → ℕ
count nil = 0
count (absent cs) = suc (count cs)
count (present r cs) = suc (count cs)

pub count-no_children : (n : ℕ) → count (no_children n) ≡ n
unfolding count no_children
count-no_children zero = refl
count-no_children (suc n) = ap suc (count-no_children n)

pub child-no_children : (n i : ℕ) → i < n → child (no_children n) i ≡ some none
unfolding child no_children
child-no_children zero i l = absurd (omega (arith, l))
child-no_children (suc n) zero l = refl
child-no_children (suc n) (suc i) l = child-no_children n i (omega (arith, l))

pub child-total :
    (cs : Children) (i : ℕ) → i < count cs → (s : Option NodeRef) × (child cs i ≡ some s)
unfolding child count
child-total nil i l = absurd (omega (arith, l))
child-total (absent cs) zero l = (none, refl)
child-total (present r cs) zero l = (some r, refl)
child-total (absent cs) (suc i) l = child-total cs i (omega (arith, l))
child-total (present r cs) (suc i) l = child-total cs i (omega (arith, l))

-- `after` is `before` with the slot `i` replaced.
pub record Replaced (before : Children) (i : ℕ) (s : Option NodeRef) (after : Children)
    : Type 0 where
  pub counts : count after ≡ count before
  pub here : child after i ≡ some s
  pub others : (j : ℕ) → j ≢ i → child after j ≡ child before j

child-slot_cons-suc :
    (t : Option NodeRef) (cs : Children) (j : ℕ) → child (slot_cons t cs) (suc j) ≡ child cs j
unfolding child
child-slot_cons-suc none cs j = refl
child-slot_cons-suc (some r) cs j = refl

child-slot_cons-zero : (t : Option NodeRef) (cs : Children) → child (slot_cons t cs) 0 ≡ some t
unfolding child
child-slot_cons-zero none cs = refl
child-slot_cons-zero (some r) cs = refl

count-slot_cons : (t : Option NodeRef) (cs : Children) → count (slot_cons t cs) ≡ suc (count cs)
unfolding count
count-slot_cons none cs = refl
count-slot_cons (some r) cs = refl

others-zero :
    (t s : Option NodeRef) (cs : Children) (j : ℕ)
    → j ≢ 0
    → child (slot_cons s cs) j ≡ child (slot_cons t cs) j
others-zero t s cs zero n = absurd (n refl)
others-zero t s cs (suc j) n = child-slot_cons-suc s cs j ∙ sym (child-slot_cons-suc t cs j)

Replaced-slot_cons :
    (t s : Option NodeRef) (cs : Children) → Replaced (slot_cons t cs) 0 s (slot_cons s cs)
Replaced-slot_cons t s cs = record {
  counts = count-slot_cons s cs ∙ sym (count-slot_cons t cs);
  here = child-slot_cons-zero s cs;
  others = others-zero t s cs;
}

others-suc :
    (t s : Option NodeRef) (i : ℕ) (cs cs' : Children)
    → Replaced cs i s cs'
    → (j : ℕ) → j ≢ suc i
    → child (slot_cons t cs') j ≡ child (slot_cons t cs) j
others-suc t s i cs cs' h zero n = child-slot_cons-zero t cs' ∙ sym (child-slot_cons-zero t cs)
others-suc t s i cs cs' h (suc j) n =
    child-slot_cons-suc t cs' j ∙ h.others j (λ e. n (ap suc e)) ∙ sym (child-slot_cons-suc t cs j)

Replaced-suc :
    (t s : Option NodeRef) (i : ℕ) (cs cs' : Children)
    → Replaced cs i s cs'
    → Replaced (slot_cons t cs) (suc i) s (slot_cons t cs')
Replaced-suc t s i cs cs' h = record {
  counts = count-slot_cons t cs' ∙ ap suc h.counts ∙ sym (count-slot_cons t cs);
  here = child-slot_cons-suc t cs' i ∙ h.here;
  others = others-suc t s i cs cs' h;
}

pub set_child-Replaced :
    (cs : Children) (i : ℕ) (s : Option NodeRef)
    → i < count cs
    → (cs' : Children) × (set_child cs i s ≡ some cs') × Replaced cs i s cs'
unfolding set_child count
set_child-Replaced nil i s l = absurd (omega (arith, l))
set_child-Replaced (absent cs) zero s l = (slot_cons s cs, refl, Replaced-slot_cons none s cs)
set_child-Replaced (present r cs) zero s l =
    (slot_cons s cs, refl, Replaced-slot_cons (some r) s cs)
set_child-Replaced (absent cs) (suc i) s l =
    let (cs', e, h) = set_child-Replaced cs i s (omega (arith, l)) in
    (absent cs', rw e refl, Replaced-suc none s i cs cs' h)
set_child-Replaced (present r cs) (suc i) s l =
    let (cs', e, h) = set_child-Replaced cs i s (omega (arith, l)) in
    (present r cs', rw e refl, Replaced-suc (some r) s i cs cs' h)
