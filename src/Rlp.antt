-- ===== src/Rlp.antt =====
-- crates/rlp: the recursive length prefix format. `Encode` is the writer, `Decode` the reader.
pub mod Encode
pub mod Decode
pub mod Item
pub mod Length
pub mod Header
pub mod Reads
pub mod Words
pub mod Lists
pub mod Tests
pub mod Hostile
pub mod ItemRoundTrip
