-- ===== src/Trie/Proof/Collected.antt =====
-- crates/trie/src/proof.rs: what `generate_proof` collects, and how the verification reads it back.
use ethereum_rust.Base.{
  ℕ, zero, suc, ◌≡◌, refl, sym, ◌∙◌, subst, true, List, [], ◌∷◌, Option, none, some, get_elem?,
}
use ethereum_rust.Base.Result.{Result, ok, err, panic, stuck, ok_or, ◌>>=◌}
use ethereum_rust.Trie.Node.Decoding.{decode_raw}
use ethereum_rust.Trie.Node.{
  Node, empty, leaf, extension, branch, NodeRef, hash, inline, Externals, TrieError, key_not_found,
  encode_raw,
}
use ethereum_rust.Trie.Patricia.{resolve_node_ref, load_node, node_key}
use ethereum_rust.Trie.Patricia.Holds.{same_refl}
use ethereum_rust.Trie.Proof.{
  MerkleProof, agrees, resolve_proof_node, collect_proof_nodes, proof_child,
}

abbrev pub result : {A : Type 0} (E : Type 0) → A → Result E A
result E a = ok a

abbrev pub Value : Type 0
Value = Option (List ℕ)

module _ {E A B : Type 0} where
  -- What a chain of results that ends well went through.
  pub bind-ok :
      (r : Result E A) (f : A → Result E B) (b : B)
      → (r >>= f) ≡ ok b
      → (a : A) × (r ≡ ok a) × (f a ≡ ok b)
  bind-ok (ok a) f b h = (a, refl, h)
  bind-ok (err e) f b h = absurd (cc h)
  bind-ok panic f b h = absurd (cc h)
  bind-ok stuck f b h = absurd (cc h)

  bind_assoc :
      {C : Type 0} (r : Result E A) (f : A → Result E B) (g : B → Result E C)
      → (r >>= f >>= g) ≡ (r >>= λ a. f a >>= g)
  bind_assoc (ok a) f g = refl
  bind_assoc (err e) f g = refl
  bind_assoc panic f g = refl
  bind_assoc stuck f g = refl

pub agrees_refl : (o : Value) → agrees o o ≡ true
unfolding agrees
agrees_refl none = refl
agrees_refl (some v) = same_refl v

pub ok-injective : {E A : Type 0} {a b : A} → result E a ≡ result E b → a ≡ b
ok-injective h = cc h

module _ (x : Externals) where
  -- The database's bytes for a hash, as `load_node` of the trie reads them.
  abbrev pub stored_bytes : List ℕ → Result TrieError (List ℕ)
  stored_bytes h = x.db_get (node_key x h) >>= λ found. ok_or found key_not_found

  pub proof_child-resolve : (r : NodeRef) → proof_child x stored_bytes r ≡ resolve_node_ref x r
  unfolding proof_child resolve_node_ref load_node
  proof_child-resolve (inline n) = refl
  proof_child-resolve (hash h) =
      bind_assoc (x.db_get (node_key x h)) (λ found. ok_or found key_not_found) (decode_raw x)

  -- The bytes that the database has for a hash are the encoding of the node that they decode to.
  abbrev pub Canonical : Type 0
  Canonical =
      (h b : List ℕ) (n : Node)
      → stored_bytes h ≡ ok b
      → decode_raw x b ≡ ok n
      → encode_raw x n ≡ ok b

  -- A collection that went well begins with the encoding of its node.
  pub record Collected (f : ℕ) (n : Node) (k : List ℕ) (ps : List (List ℕ)) : Type 0 where
    pub first : List ℕ
    pub rest : List (List ℕ)
    pub encodes : encode_raw x n ≡ ok first
    pub is : ps ≡ first ∷ rest

  pub begins :
      (r : Result TrieError (List ℕ)) {t : Result TrieError (List (List ℕ))} (ps : List (List ℕ))
      → (r >>= λ e. t >>= λ rest. ok (e ∷ rest)) ≡ ok ps
      → (e : List ℕ) × (rest : List (List ℕ)) × (r ≡ ok e) × (t ≡ ok rest) × (ps ≡ e ∷ rest)
  begins r {t} ps h =
      let (e, i, h') = bind-ok r (λ e. t >>= λ rest. ok (e ∷ rest)) ps h in
      let (rest, j, h2) = bind-ok t (λ rest. ok (e ∷ rest)) ps h' in
      (e, rest, i, j, sym (ok-injective h2))

  begins_last :
      (r : Result TrieError (List ℕ)) (ps : List (List ℕ))
      → (r >>= λ e. ok (e ∷ [])) ≡ ok ps
      → (e : List ℕ) × (rest : List (List ℕ)) × (r ≡ ok e) × (ps ≡ e ∷ rest)
  begins_last r ps h =
      let (e, i, h') = bind-ok r (λ e. ok (e ∷ [])) ps h in (e, [], i, sym (ok-injective h'))

  pub collect-Collected :
      (f : ℕ) (n : Node) (k : List ℕ) (ps : List (List ℕ))
      → collect_proof_nodes x f stored_bytes n k ≡ ok ps
      → Collected f n k ps
  unfolding collect_proof_nodes
  collect-Collected zero n k ps h = absurd (cc h)
  collect-Collected (suc f) empty k ps h =
      let (e, rest, i, j) = begins_last (encode_raw x empty) ps h in
      record { first = e; rest = rest; encodes = i; is = j }
  collect-Collected (suc f) (leaf a v) k ps h =
      let (e, rest, i, j) = begins_last (encode_raw x (leaf a v)) ps h in
      record { first = e; rest = rest; encodes = i; is = j }
  collect-Collected (suc f) (extension a r) k ps h =
      let (e, rest, i, _, j) = begins (encode_raw x (extension a r)) ps h in
      record { first = e; rest = rest; encodes = i; is = j }
  collect-Collected (suc f) (branch cs v) [] ps h =
      let (e, rest, i, j) = begins_last (encode_raw x (branch cs v)) ps h in
      record { first = e; rest = rest; encodes = i; is = j }
  collect-Collected (suc f) (branch cs v) (m ∷ k) ps h =
      let (e, rest, i, _, j) = begins (encode_raw x (branch cs v)) ps h in
      record { first = e; rest = rest; encodes = i; is = j }

  pub resolve-same :
      (p : MerkleProof) (r : NodeRef) (i : ℕ) (n : Node) (e : List ℕ)
      → resolve_node_ref x r ≡ ok n
      → ((h : List ℕ) → r ≡ hash h → decode_raw x e ≡ ok n)
      → get_elem? p.nodes i ≡ some e
      → resolve_proof_node x p r i ≡ ok n
  unfolding resolve_proof_node resolve_node_ref
  resolve-same p (inline m) i n e h f g = h
  resolve-same p (hash k) i n e h f g = rw g (f k refl)

  pub proof_child-decodes :
      (r : NodeRef) (n : Node) (e : List ℕ)
      → Canonical
      → proof_child x stored_bytes r ≡ ok n
      → encode_raw x n ≡ ok e
      → (h : List ℕ) → r ≡ hash h
      → decode_raw x e ≡ ok n
  unfolding proof_child
  proof_child-decodes r n e can c g h q =
      let (bytes, found, d) =
        bind-ok (stored_bytes h) (decode_raw x) n
          (subst (λ z. proof_child x stored_bytes z ≡ ok n) q c) in
      subst (λ z. decode_raw x z ≡ ok n) (ok-injective (sym (can h bytes n found d) ∙ g)) d
