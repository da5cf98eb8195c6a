-- ===== src/Evm/Memory.antt =====
-- crates/evm/src/memory.rs: the byte memory, which grows by zeros. A `usize` has 64 bits, and an
-- allocation does not fail.
use ethereum_rust.Base.{
  ℕ, zero, suc, ◌+◌, ◌-◌, ◌*◌, ◌/◌, ◌^◌, ◌&&◌, List, [], ◌∷◌, ◌++◌, Option, none, some, ltb, leb,
  ◌==◌, if◌then◌else◌, length, take, drop, replicate, min, max,
}
use ethereum_rust.Base.Outcome.{M, ok, err}
use ethereum_rust.Evm.Error.{EvmError, invalid_memory_access}

pub record Memory : Type 0 where
  pub bytes : List ℕ

abbrev pub MemoryM : Type 0 → Type 0
MemoryM = M Memory EvmError

abbrev pub new : Memory
new = record { bytes = [] }

abbrev pub len : Memory → ℕ
len m = length m.bytes

unfoldable pub resize : ℕ → List ℕ → List ℕ
resize new_size bytes =
    if ltb (length bytes) new_size then bytes ++ replicate (new_size - length bytes) 0 else bytes

-- `size` bytes from `offset` on, with zeros past the end.
unfoldable pub get : ℕ → ℕ → Memory → List ℕ
get offset size m =
    let end = min (offset + size) (2 ^ 64 - 1) in
    if size == 0
    then []
    else if leb (length m.bytes) offset
    then replicate size 0
    else if ltb (length m.bytes) end
    then take size (drop offset m.bytes ++ replicate size 0)
    else take (end - offset) (drop offset m.bytes)

-- `self.data[offset..end].copy_from_slice(data)`, where `end` is `offset + data.len()`.
unfoldable pub overwrite : ℕ → List ℕ → List ℕ → List ℕ
overwrite offset content bytes =
    take offset bytes ++ (content ++ drop (offset + length content) bytes)

unfoldable pub set : ℕ → List ℕ → MemoryM (Unit {0})
unfolding resize overwrite
set offset [] m = ok tt m
set offset (b ∷ content) m =
    let end = offset + length (b ∷ content) in
    if ltb end (2 ^ 64)
    then ok tt (record { bytes = overwrite offset (b ∷ content) (resize end m.bytes) })
    else err invalid_memory_access m

unfoldable pub set_byte : ℕ → ℕ → MemoryM (Unit {0})
unfolding resize overwrite
set_byte offset byte m =
    if ltb (offset + 1) (2 ^ 64)
    then ok tt (record { bytes = overwrite offset (byte ∷ []) (resize (offset + 1) m.bytes) })
    else err invalid_memory_access m

unfoldable pub copy_within : ℕ → ℕ → ℕ → MemoryM (Unit {0})
unfolding resize overwrite get
copy_within dst src zero m = ok tt m
copy_within dst src (suc n) m =
    let size = suc n in
    if ltb (src + size) (2 ^ 64) && ltb (dst + size) (2 ^ 64)
    then (let grown : Memory = record { bytes = resize (max (src + size) (dst + size)) m.bytes } in
        ok tt (record { bytes = overwrite dst (get src size grown) grown.bytes }))
    else err invalid_memory_access m

-- The size in whole words that an access needs; `none` is a sum over 256 bits.
unfoldable pub required_size : ℕ → ℕ → Option ℕ
required_size offset size =
    if size == 0
    then some 0
    else if ltb (offset + size) (2 ^ 256)
    then some ((offset + size + 31) / 32 * 32)
    else none
