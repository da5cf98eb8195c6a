-- ===== src/Trie/Patricia/Commit.antt =====
-- crates/trie/src/trie.rs: `commit`, which writes a batch through a parameter, and the cached root hash.
use ethereum_rust.Base.{
  ℕ, ◌≡◌, refl, sym, ap, ◌∙◌, subst, true, false, List, [], ◌∷◌, ◌++◌, some, ltb, length,
  if◌then◌else◌, inl, inr, append-nil, Option-cases,
}
use ethereum_rust.Base.Result.{Result, ok, ◌>>=◌}
use ethereum_rust.Trie.Node.{
  Node, empty, leaf, extension, branch, NodeRef, hash, inline, Children, nil, absent, present,
  Externals, TrieError, encode_raw, ref_of, hash_of,
}
use ethereum_rust.Trie.Patricia.{PatriciaTrie, node_key, root_hash, cached_hash}
use ethereum_rust.Trie.Patricia.WellFormed.{encode_raw-total}

some-injective : {A : Type 0} {a b : A} → some a ≡ some b → a ≡ b
some-injective h = cc h

abbrev pub Batch : Type 0
Batch = List (List ℕ × List ℕ)

module _ (x : Externals) where
  -- `batch.put` of a node that has this encoding
  abbrev pub put_of : List ℕ → Batch
  put_of encoded =
      if ltb (length encoded) 32 then [] else (node_key x (hash_of x encoded), encoded) ∷ []

  unfoldable mutual
    pub commit_node : Node → Result TrieError Batch
    commit_node empty = encode_raw x empty >>= λ e. ok (put_of e)
    commit_node (leaf key value) = encode_raw x (leaf key value) >>= λ e. ok (put_of e)
    commit_node (extension key r) =
        encode_raw x (extension key r) >>= λ e. commit_ref r >>= λ below. ok (put_of e ++ below)
    commit_node (branch cs value) = encode_raw x (branch cs value) >>= λ e.
        commit_children cs >>= λ below. ok (put_of e ++ below)

    pub commit_ref : NodeRef → Result TrieError Batch
    commit_ref (hash h) = ok []
    commit_ref (inline n) = commit_node n

    pub commit_children : Children → Result TrieError Batch
    commit_children nil = ok []
    commit_children (absent cs) = commit_children cs
    commit_children (present r cs) =
        commit_ref r >>= λ first. commit_children cs >>= λ rest. ok (first ++ rest)

  -- `write_batch` is the database's.
  unfoldable pub commit :
      (Batch → Result TrieError (Unit {0}))
      → PatriciaTrie
      → Result TrieError (List ℕ × PatriciaTrie)
  commit write_batch t = commit_node t.root >>= λ batch. write_batch batch >>= λ _. root_hash x t

  -- An inline node is below 32 bytes, as `from_node` makes it.
  unfoldable mutual
    pub Inlined : Node → Type 0
    Inlined empty = Unit
    Inlined (leaf k v) = Unit
    Inlined (extension k r) = InlinedRef r
    Inlined (branch cs v) = InlinedChildren cs

    pub InlinedRef : NodeRef → Type 0
    InlinedRef (hash h) = Unit
    InlinedRef (inline n) =
        ((e : List ℕ) × (encode_raw x n ≡ ok e) × (ltb (length e) 32 ≡ true)) × Inlined n

    pub InlinedChildren : Children → Type 0
    InlinedChildren nil = Unit
    InlinedChildren (absent cs) = InlinedChildren cs
    InlinedChildren (present r cs) = InlinedRef r × InlinedChildren cs

  small-put_of : (e : List ℕ) → ltb (length e) 32 ≡ true → put_of e ≡ []
  small-put_of e h = rw h refl

  mutual
    unfolding Inlined commit_node

    Inlined-commit_node :
        (n : Node) (e : List ℕ) → Inlined n → encode_raw x n ≡ ok e → commit_node n ≡ ok (put_of e)
    Inlined-commit_node empty e i h = rw h refl
    Inlined-commit_node (leaf k v) e i h = rw h refl
    Inlined-commit_node (extension k r) e i h =
        rw (h, Inlined-commit_ref r i, append-nil (put_of e)) refl
    Inlined-commit_node (branch cs v) e i h =
        rw (h, Inlined-commit_children cs i, append-nil (put_of e)) refl

    Inlined-commit_ref : (r : NodeRef) → InlinedRef r → commit_ref r ≡ ok []
    Inlined-commit_ref (hash h) i = refl
    Inlined-commit_ref (inline n) ((e, h, l), i) =
        Inlined-commit_node n e i h ∙ ap ok (small-put_of e l)

    Inlined-commit_children : (cs : Children) → InlinedChildren cs → commit_children cs ≡ ok []
    Inlined-commit_children nil i = refl
    Inlined-commit_children (absent cs) i = Inlined-commit_children cs i
    Inlined-commit_children (present r cs) i =
        rw (Inlined-commit_ref r i.0, Inlined-commit_children cs i.1) refl

  -- A node whose inline nodes are below 32 bytes each puts only itself into the batch of a commit, and
  -- only if it has 32 bytes or more: no node below it is written.
  pub commit_node-root :
      (n : Node) (e : List ℕ) → Inlined n → encode_raw x n ≡ ok e → commit_node n ≡ ok (put_of e)
  commit_node-root n e i h = Inlined-commit_node n e i h

  large-ref_of :
      (n : Node) (e : List ℕ) → ltb (length e) 32 ≡ false → ref_of x n e ≡ hash (x.keccak256 e)
  large-ref_of n e h = rw h refl

  -- The cached hash, if there is one, is the hash of the root.
  abbrev pub Cached : PatriciaTrie → Type 0
  Cached t =
      (h : List ℕ)
      → t.cached ≡ some h
      → (e : List ℕ) × (encode_raw x t.root ≡ ok e) × (h ≡ hash_of x e)

  -- `root_hash` succeeds with the hash of the root, whether it was cached or not, and leaves the root
  -- alone, if the cache was right before; the cache is right after it.
  pub root_hash_lem :
      (t : PatriciaTrie)
      → Cached t
      → (e : List ℕ) × (t' : PatriciaTrie) × (encode_raw x t.root ≡ ok e)
        × (root_hash x t ≡ ok (hash_of x e, t'))
        × (t'.root ≡ t.root)
        × Cached t'
  unfolding root_hash cached_hash
  root_hash_lem t c = elim (Option-cases t.cached) [
    | inl g ↦
        let (e, h) = encode_raw-total x t.root in
        (
          e,
          record t { cached = some (hash_of x e) },
          h,
          subst
              (λ z. cached_hash x z t ≡ ok (hash_of x e, record t { cached = some (hash_of x e) }))
              (sym g) (rw h refl),
          refl,
          λ k p. (e, h, sym (some-injective p)),
        )
    | inr (k, g) ↦
        let (e, h, p) = c k g in
        (
          e,
          t,
          h,
          subst (λ z. cached_hash x z t ≡ ok (hash_of x e, t)) (sym g) (ap (λ z. ok (z, t)) p),
          refl,
          c,
        )
  ]
