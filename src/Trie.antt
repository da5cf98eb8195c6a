-- ===== src/Trie.antt =====
-- crates/trie: the paths of the Merkle Patricia trie.
pub mod Nibbles
pub mod Node
pub mod Patricia
pub mod Proof
mod Bits
mod Tests
