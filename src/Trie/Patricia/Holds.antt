-- ===== src/Trie/Patricia/Holds.antt =====
-- crates/trie/src/trie.rs: what `get_at_node` answers, whatever the fuel.
use ethereum_rust.Base.{
  ℕ, zero, suc, ◌<◌, ◌≡◌, ◌≢◌, refl, sym, ap, ◌∙◌, subst, false, List, [], ◌∷◌, ◌++◌, Option, none,
  some, arith, ◌==◌, ==_refl, inl, inr, length, drop-append_length, length-append,
}
pub use ethereum_rust.Base.Keys.{same_refl, same-eq, same-cases}
use ethereum_rust.Base.Result.{Result, ok}
use ethereum_rust.Trie.Nibbles.{Nibbles, matching}
use ethereum_rust.Trie.Nibbles
use ethereum_rust.Trie.Nibbles.Split.{matching-append}
use ethereum_rust.Trie.Node.{
  Node, empty, leaf, extension, branch, NodeRef, Children, child, Externals, TrieError,
}
use ethereum_rust.Trie.Patricia.{resolve_node_ref, resolve_slot, get_at_node}

abbrev Value : Type 0
Value = Option (List ℕ)

module _ (x : Externals) where
  abbrev result : {A : Type 0} → A → Result TrieError A
  result a = ok a

  unfoldable pub Holds : Node → List ℕ → Value → Type 0
  Holds n k o = (f : ℕ) → length k < f → get_at_node x f n k ≡ ok o

  ok-injective : {A : Type 0} {a b : A} → result a ≡ result b → a ≡ b
  ok-injective h = cc h

  pub Holds-unique : (n : Node) (k : List ℕ) (o p : Value) → Holds n k o → Holds n k p → o ≡ p
  unfolding Holds
  Holds-unique n k o p h g =
      ok-injective (sym (h (suc (length k)) (omega arith)) ∙ g (suc (length k)) (omega arith))

  pub Holds-empty : (k : List ℕ) → Holds empty k none
  unfolding Holds get_at_node
  Holds-empty k zero l = absurd (omega (arith, l))
  Holds-empty k (suc f) l = refl

  pub Holds-leaf_same : (k : List ℕ) (v : List ℕ) → Holds (leaf (Nibbles.new k) v) k (some v)
  unfolding Holds get_at_node
  Holds-leaf_same k v zero l = absurd (omega (arith, l))
  Holds-leaf_same k v (suc f) l = rw (same_refl k) refl

  pub Holds-leaf_other :
      (lk k : List ℕ) (v : List ℕ) → k ≢ lk → Holds (leaf (Nibbles.new lk) v) k none
  unfolding Holds get_at_node
  Holds-leaf_other lk k v n zero l = absurd (omega (arith, l))
  Holds-leaf_other lk k v n (suc f) l = elim (same-cases k lk) [
    | inl e ↦ absurd (n e)
    | inr (_, h) ↦ rw h refl
  ]

  pub Holds-extension :
      (p k : List ℕ) (r : NodeRef) (c : Node) (o : Value)
      → p ≢ []
      → resolve_node_ref x r ≡ ok c
      → Holds c k o
      → Holds (extension (Nibbles.new p) r) (p ++ k) o
  unfolding Holds get_at_node
  Holds-extension [] k r c o n e h f l = absurd (n refl)
  Holds-extension (m ∷ p) k r c o n e h zero l = absurd (omega (arith, l))
  Holds-extension (m ∷ p) k r c o n e h (suc f) l =
      rw (matching-append (m ∷ p) k, ==_refl (length (m ∷ p)), e, drop-append_length (m ∷ p) k)
        (h f (omega (arith, l, length-append p k)))

  pub Holds-extension_other :
      (p k : List ℕ) (r : NodeRef)
      → (matching p k == length p) ≡ false
      → Holds (extension (Nibbles.new p) r) k none
  unfolding Holds get_at_node
  Holds-extension_other p k r e zero l = absurd (omega (arith, l))
  Holds-extension_other p k r e (suc f) l = rw e refl

  pub Holds-branch_end : (cs : Children) (v : Value) → Holds (branch cs v) [] v
  unfolding Holds get_at_node
  Holds-branch_end cs v zero l = absurd (omega (arith, l))
  Holds-branch_end cs v (suc f) l = refl

  pub Holds-branch :
      (cs : Children) (v : Value) (m : ℕ) (k : List ℕ) (s : Option NodeRef) (c : Node) (o : Value)
      → child cs m ≡ some s
      → resolve_slot x s ≡ ok c
      → Holds c k o
      → Holds (branch cs v) (m ∷ k) o
  unfolding Holds get_at_node resolve_slot
  Holds-branch cs v m k s c o e d h zero l = absurd (omega (arith, l))
  Holds-branch cs v m k none c o e d h (suc f) l = rw e (
      ap ok (
        Holds-unique empty k none o (Holds-empty k)
          (subst (λ z. Holds z k o) (sym (ok-injective d)) h)))
  Holds-branch cs v m k (some r) c o e d h (suc f) l = rw (e, d) (h f (omega (arith, l)))
