-- ===== src/Trie/Proof/Sample.antt =====
-- A `decode_list_header` for the runs of the tests: crates/trie/src/node.rs calls it, and
-- crates/rlp/src/decode.rs does not have it.
use ethereum_rust.Base.{ℕ, ◌+◌, not, length}
use ethereum_rust.Base.Outcome.{gets, modify, require, pure, ◌>>=◌, ◌>>◌}
use ethereum_rust.Rlp.Decode.{
  Decode, decode_header, skip, decode_each, decode_bytes, invalid_data, expected_list,
}

-- What `decode_list_header` is meant to do: it moves past the header and counts the items.
unfoldable pub list_header : Decode ℕ
list_header = do
  (offset, len, is_data) ← decode_header
  require (not is_data) (invalid_data expected_list)
  skip offset
  pos ← gets λ d. d.position
  total ← gets λ d. length d.bytes
  items ← decode_each total decode_bytes (pos + len)
  modify λ d. record d { position = pos }
  pure (length items)
