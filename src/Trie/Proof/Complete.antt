-- ===== src/Trie/Proof/Complete.antt =====
-- crates/trie/src/proof.rs: a generated proof is accepted.
use ethereum_rust.Base.{
  ℕ, zero, suc, ◌≡◌, refl, sym, ap, ◌∙◌, subst, Bool, true, false, List, [], ◌∷◌, Option, none,
  some, ◌==◌, if◌then◌else◌, length, drop, get_elem?-drop,
}
use ethereum_rust.Base.Result.{Result, ok, or_panic, ◌>>=◌}
use ethereum_rust.Trie.Nibbles.{Nibbles, matching}
use ethereum_rust.Trie.Node.Decoding.{decode_raw}
use ethereum_rust.Trie.Node.{
  Node, empty, leaf, extension, branch, NodeRef, child, Externals, TrieError, encode_raw, hash_of,
}
use ethereum_rust.Trie.Patricia.{path, enough, get_at_node, resolve_node_ref, PatriciaTrie, get}
use ethereum_rust.Trie.Patricia.Holds.{same_refl}
use ethereum_rust.Trie.Proof.{
  MerkleProof, resolve_proof_node, verify_at_node, verify_first, verify, collect_proof_nodes,
  generate_proof, proof_child,
}
use ethereum_rust.Trie.Proof.Collected.{
  Value, bind-ok, agrees_refl, ok-injective, stored_bytes, proof_child-resolve, begins,
  resolve-same, proof_child-decodes, Canonical, collect-Collected,
}

module _ (x : Externals) where
  -- The claim for what is collected from place `i` on.
  abbrev Verifies : ℕ → MerkleProof → List ℕ → Type 0
  Verifies f p k =
      (n : Node) (i : ℕ) (ps : List (List ℕ)) (o : Value)
      → collect_proof_nodes x f (stored_bytes x) n k ≡ ok ps
      → get_at_node x f n k ≡ ok o
      → drop i p.nodes ≡ ps
      → verify_at_node x f p n k (suc i) ≡ ok o

  step :
      (f : ℕ) (p : MerkleProof) (r : NodeRef) (k : List ℕ) (i : ℕ) (rest : List (List ℕ))
      (o : Value)
      → Canonical x
      → Verifies f p k
      → (proof_child x (stored_bytes x) r >>= λ n. collect_proof_nodes x f (stored_bytes x) n k)
        ≡ ok rest
      → (resolve_node_ref x r >>= λ n. get_at_node x f n k) ≡ ok o
      → drop (suc i) p.nodes ≡ rest
      → (resolve_proof_node x p r (suc i) >>= λ n. verify_at_node x f p n k (suc (suc i))) ≡ ok o
  step f p r k i rest o can ih c g d =
      let (n, c1, c2) =
        bind-ok (proof_child x (stored_bytes x) r)
          (λ n. collect_proof_nodes x f (stored_bytes x) n k) rest c in
      let (m, g1, g2) = bind-ok (resolve_node_ref x r) (λ n. get_at_node x f n k) o g in
      let same_node : n ≡ m = ok-injective (sym c1 ∙ proof_child-resolve x r ∙ g1) in
      let t = collect-Collected x f n k rest c2 in
      rw
        (resolve-same x p r (suc i) n t.first (sym (proof_child-resolve x r) ∙ c1)
          (proof_child-decodes x r n t.first can c1 t.encodes)
          (get_elem?-drop (suc i) p.nodes (d ∙ t.is)))
        (ih n (suc i) rest o c2 (subst (λ z. get_at_node x f z k ≡ ok o) (sym same_node) g2) d)

  drop-next :
      {A : Type 0} (i : ℕ) (xs : List A) (e : A) (rest : List A)
      → drop i xs ≡ e ∷ rest
      → drop (suc i) xs ≡ rest
  drop-next zero [] e rest h = absurd (cc h)
  drop-next zero (y ∷ xs) e rest h = cc h
  drop-next (suc i) [] e rest h = absurd (cc h)
  drop-next (suc i) (y ∷ xs) e rest h = drop-next i xs e rest h

  Verifies-extension :
      (f : ℕ) (p : MerkleProof) (a : Nibbles) (r : NodeRef) (k : List ℕ) (i : ℕ)
      (rest : List (List ℕ)) (o : Value) (b : Bool)
      → Canonical x
      → Verifies f p (drop (matching a.items k) k)
      → (if b
          then (proof_child x (stored_bytes x) r >>= λ n.
              collect_proof_nodes x f (stored_bytes x) n (drop (matching a.items k) k))
          else ok [])
        ≡ ok rest
      → (if b
          then (resolve_node_ref x r >>= λ n. get_at_node x f n (drop (matching a.items k) k))
          else ok none)
        ≡ ok o
      → drop (suc i) p.nodes ≡ rest
      → (if b
          then (resolve_proof_node x p r (suc i) >>= λ n.
              verify_at_node x f p n (drop (matching a.items k) k) (suc (suc i)))
          else ok none)
        ≡ ok o
  Verifies-extension f p a r k i rest o true can ih c g d =
      step f p r (drop (matching a.items k) k) i rest o can ih c g d
  Verifies-extension f p a r k i rest o false can ih c g d = g

  -- What a branch goes on with at a slot.
  abbrev slot_collect : ℕ → List ℕ → Option NodeRef → Result TrieError (List (List ℕ))
  slot_collect f k s = elim s [
    | none ↦ ok []
    | some r ↦
        proof_child x (stored_bytes x) r >>= λ n. collect_proof_nodes x f (stored_bytes x) n k
  ]

  abbrev slot_get : ℕ → List ℕ → Option NodeRef → Result TrieError Value
  slot_get f k s = elim s [
    | none ↦ ok none
    | some r ↦ resolve_node_ref x r >>= λ n. get_at_node x f n k
  ]

  abbrev slot_verify : ℕ → MerkleProof → List ℕ → ℕ → Option NodeRef → Result TrieError Value
  slot_verify f p k i s = elim s [
    | none ↦ ok none
    | some r ↦ resolve_proof_node x p r i >>= λ n. verify_at_node x f p n k (suc i)
  ]

  Verifies-branch :
      (f : ℕ) (p : MerkleProof) (s : Option (Option NodeRef)) (k : List ℕ) (i : ℕ)
      (rest : List (List ℕ)) (o : Value)
      → Canonical x
      → Verifies f p k
      → (or_panic s >>= slot_collect f k) ≡ ok rest
      → (or_panic s >>= slot_get f k) ≡ ok o
      → drop (suc i) p.nodes ≡ rest
      → (or_panic s >>= slot_verify f p k (suc i)) ≡ ok o
  Verifies-branch f p none k i rest o can ih c g d = absurd (cc c)
  Verifies-branch f p (some none) k i rest o can ih c g d = g
  Verifies-branch f p (some (some r)) k i rest o can ih c g d = step f p r k i rest o can ih c g d

  verifies : (f : ℕ) (p : MerkleProof) (k : List ℕ) → Canonical x → Verifies f p k
  unfolding collect_proof_nodes get_at_node verify_at_node
  verifies zero p k can n i ps o c g d = absurd (cc c)
  verifies (suc f) p k can empty i ps o c g d = g
  verifies (suc f) p k can (leaf a v) i ps o c g d = g
  verifies (suc f) p k can (extension a r) i ps o c g d =
      let (e, rest, _, j, l) = begins x (encode_raw x (extension a r)) ps c in
      Verifies-extension f p a r k i rest o (matching a.items k == length a.items) can
        (verifies f p (drop (matching a.items k) k) can) j g (drop-next i p.nodes e rest (d ∙ l))
  verifies (suc f) p [] can (branch cs v) i ps o c g d = g
  verifies (suc f) p (m ∷ k) can (branch cs v) i ps o c g d =
      let (e, rest, _, j, l) = begins x (encode_raw x (branch cs v)) ps c in
      Verifies-branch f p (child cs m) k i rest o can (verifies f p k can) j g
        (drop-next i p.nodes e rest (d ∙ l))

  verify-collected :
      (root : Node) (key : List ℕ) (ps : List (List ℕ)) (o : Value)
      → Canonical x
      → (e : List ℕ) (rest : List (List ℕ)) → ps ≡ e ∷ rest
      → encode_raw x root ≡ ok e
      → decode_raw x e ≡ ok root
      → collect_proof_nodes x (enough (path key)) (stored_bytes x) root (path key) ≡ ok ps
      → get_at_node x (enough (path key)) root (path key) ≡ ok o
      → verify x (record { nodes = ps }) (hash_of x e) key o ≡ ok true
  unfolding verify verify_first
  verify-collected root key ps o can e rest j h dec c g =
      let v =
        verifies (enough (path key)) (record { nodes = ps }) (path key) can root 0 ps o c g refl in
      subst (λ z. verify x (record { nodes = z }) (hash_of x e) key o ≡ ok true) (sym j)
        (rw
          (
            dec,
            h,
            same_refl (hash_of x e),
            subst
                (λ z.
                  verify_at_node x (enough (path key)) (record { nodes = z }) root (path key) 1
                  ≡ ok o)
                j v,
            agrees_refl o,
          )
          refl)

  -- A proof that `generate_proof` makes for the root of a trie, with the database the trie reads, is
  -- accepted by `verify` for the root's hash, the key, and what the trie answers for the key, whether it
  -- has the key or not; if the root's encoding decodes to the root, and the bytes that the database has
  -- for a hash are the encoding of the node that they decode to.
  pub verify-generate_proof :
      (t : PatriciaTrie) (key e : List ℕ) (p : MerkleProof) (o : Value)
      → Canonical x
      → encode_raw x t.root ≡ ok e
      → decode_raw x e ≡ ok t.root
      → generate_proof x t.root key (stored_bytes x) ≡ ok p
      → get x t key ≡ ok o
      → verify x p (hash_of x e) key o ≡ ok true
  unfolding generate_proof get
  verify-generate_proof t key e p o can h dec c g =
      let (ps, c', q) =
        bind-ok (collect_proof_nodes x (enough (path key)) (stored_bytes x) t.root (path key))
          (λ nodes. ok (record { nodes = nodes })) p c in
      let d = collect-Collected x (enough (path key)) t.root (path key) ps c' in
      subst (λ z. verify x z (hash_of x e) key o ≡ ok true) (ok-injective q)
        (verify-collected t.root key ps o can e d.rest
          (d.is ∙ ap (λ z. z ∷ d.rest) (ok-injective (sym d.encodes ∙ h))) h dec c' g)
