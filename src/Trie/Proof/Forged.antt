-- ===== src/Trie/Proof/Forged.antt =====
-- crates/trie/src/proof.rs: what the verification does not look at.
use ethereum_rust.Base.{
  ℕ, ◌≡◌, ◌≢◌, refl, true, List, [], ◌∷◌, ◌++◌, some, ==_refl, length, drop-append_length,
}
use ethereum_rust.Base.Result.{ok}
use ethereum_rust.Trie.Nibbles.{matching}
use ethereum_rust.Trie.Nibbles
use ethereum_rust.Trie.Nibbles.Split.{matching-append}
use ethereum_rust.Trie.Node.Decoding.{decode_raw}
use ethereum_rust.Trie.Node.{leaf, extension, hash, Externals, encode_raw, hash_of}
use ethereum_rust.Trie.Patricia.{path}
use ethereum_rust.Trie.Patricia.Holds.{same_refl}
use ethereum_rust.Trie.Proof.{agrees, resolve_proof_node, verify_at_node, verify_first, verify}

module _ (x : Externals) where
  -- Below a root that is an extension over a hash, a proof with any leaf for the rest of the key is accepted
  -- for the value of that leaf, whatever the hash is: the hash of the second node is not
  -- compared with the reference.
  pub verify_forged :
      (a k h value first second e key : List ℕ)
      → decode_raw x first ≡ ok (extension (Nibbles.new a) (hash h))
      → encode_raw x (extension (Nibbles.new a) (hash h)) ≡ ok e
      → decode_raw x second ≡ ok (leaf (Nibbles.new k) value)
      → a ≢ []
      → path key ≡ a ++ k
      → verify x (record { nodes = first ∷ second ∷ [] }) (hash_of x e) key (some value) ≡ ok true
  unfolding verify verify_first verify_at_node resolve_proof_node agrees
  verify_forged [] k h value first second e key d f g n p = absurd (n refl)
  verify_forged (m ∷ a) k h value first second e key d f g n p =
      rw
        (
          d,
          f,
          same_refl (hash_of x e),
          p,
          matching-append (m ∷ a) k,
          ==_refl (length (m ∷ a)),
          g,
          drop-append_length (m ∷ a) k,
          same_refl k,
          same_refl value,
        )
        refl
