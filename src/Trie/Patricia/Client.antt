-- ===== src/Trie/Patricia/Client.antt =====
-- crates/trie/src/trie.rs: any sequence of insertions and deletions, against the same changes of a function.
use ethereum_rust.Base.{◌≡◌, ◌≢◌, refl, ◌∙◌, List, [], ◌∷◌, none, some, inl, inr, All, ℕ}
use ethereum_rust.Base.Result.{ok}
use ethereum_rust.Trie.Node.{Externals}
use ethereum_rust.Trie.Patricia.{PatriciaTrie, new, get, get_at_node}
use ethereum_rust.Trie.Patricia.Holds.{same_refl, same-cases}
use ethereum_rust.Trie.Patricia.WellFormed.{WfNode}
use ethereum_rust.Trie.Patricia.Updated.{Value, Loads, Keeps}
use ethereum_rust.Trie.Patricia.Map.{
  IsBytes, update, Op, insert_op, delete_op, key_of, apply, run, apply_spec, replay, WellFormed,
  get-insert, get-delete,
}

-- The keys of the operations are bytes.
abbrev pub ByteKeys : List Op → Type 0
ByteKeys = All (λ op. IsBytes (key_of op))

module _ (x : Externals) (Stored : List ℕ → Type 0) (loads : Loads x Stored)
    (keeps : Keeps x Stored) where
  -- The trie reads as the function.
  abbrev pub Reads : PatriciaTrie → (List ℕ → Value) → Type 0
  Reads t f = (q : List ℕ) → IsBytes q → get x t q ≡ ok (f q)

  pub Reads-update :
      (t t' : PatriciaTrie) (f : List ℕ → Value) (key : List ℕ) (v : Value)
      → Reads t f
      → get x t' key ≡ ok v
      → ((q : List ℕ) → IsBytes q → q ≢ key → get x t' q ≡ get x t q)
      → Reads t' (update f key v)
  Reads-update t t' f key v r e g q i = elim (same-cases q key) [
    | inl h ↦ rw (h, same_refl key) e
    | inr (d, h) ↦ rw h (g q i d ∙ r q i)
  ]

  apply-refines :
      (op : Op) (t : PatriciaTrie) (f : List ℕ → Value)
      → WellFormed x Stored loads keeps t
      → IsBytes (key_of op)
      → Reads t f
      → (t' : PatriciaTrie) × (apply x op t ≡ ok t')
        × WellFormed x Stored loads keeps t'
        × Reads t' (apply_spec op f)
  unfolding apply
  apply-refines (insert_op key v) t f w i r =
      let (t', e, w', h, g) = get-insert x Stored loads keeps key v t w i in
      (t', e, w', Reads-update t t' f key (some v) r h g)
  apply-refines (delete_op key) t f w i r =
      let (o, t', _, e, w', h, g) = get-delete x Stored loads keeps key t w i in
      (t', rw e refl, w', Reads-update t t' f key none r h g)

  run-refines :
      (ops : List Op) (t : PatriciaTrie) (f : List ℕ → Value)
      → WellFormed x Stored loads keeps t
      → ByteKeys ops
      → Reads t f
      → (t' : PatriciaTrie) × (run x ops t ≡ ok t')
        × WellFormed x Stored loads keeps t'
        × Reads t' (replay ops f)
  unfolding run
  run-refines [] t f w i r = (t, refl, w, r)
  run-refines (op ∷ ops) t f w i r =
      let (t', e, w', r') = apply-refines op t f w i.0 r in
      let (t2, e', w2, r2) = run-refines ops t' (apply_spec op f) w' i.1 r' in (t2, rw e e', w2, r2)

  -- Any sequence of insertions and deletions of byte keys, from the empty trie, succeeds without
  -- a panic and within the fuel, and the trie then answers every byte key as the same changes of the empty
  -- function do, under `Loads` and `Keeps`.
  pub run-new_refines :
      (ops : List Op)
      → ByteKeys ops
      → (t : PatriciaTrie) × (run x ops new ≡ ok t)
        × WellFormed x Stored loads keeps t
        × ((q : List ℕ) → IsBytes q → get x t q ≡ ok (replay ops (λ _. none) q))
  unfolding WfNode get get_at_node
  run-new_refines ops i = run-refines ops new (λ _. none) tt i (λ q _. refl)
