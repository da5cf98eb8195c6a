-- ===== src/Storage.antt =====
-- crates/storage/src/memory.rs, crates/storage/src/traits.rs: the database in memory. The `BTreeMap` is
-- the list of its entries in the order of the keys. A lock that is poisoned is not modelled.
pub mod Ordered
pub mod Laws
pub mod Client
pub mod Iteration
mod Tests
use ethereum_rust.Base.{
  ℕ, suc, Bool, true, false, not, ◌&&◌, List, [], ◌∷◌, ◌++◌, Option, none, some, ltb, ◌==◌,
  if◌then◌else◌, length, get_elem?,
}
use ethereum_rust.Base.Keys.{same, key_lt}
use ethereum_rust.Base.Result.{Result, ok, err}

abbrev pub Key : Type 0
Key = List ℕ

abbrev pub Entries : Type 0
Entries = List (Key × List ℕ)

-- `BTreeMap::get`, `insert` and `remove`
unfoldable pub find : Key → Entries → Option (List ℕ)
find key [] = none
find key ((k, v) ∷ rest) = let later = find key rest in if same key k then some v else later

unfoldable pub insert : Key → List ℕ → Entries → Entries
insert key value [] = (key, value) ∷ []
insert key value ((k, v) ∷ rest) =
    let later = insert key value rest in
    if same key k
    then (key, value) ∷ rest
    else if key_lt key k
    then (key, value) ∷ (k, v) ∷ rest
    else (k, v) ∷ later

unfoldable pub remove : Key → Entries → Entries
remove key [] = []
remove key ((k, v) ∷ rest) =
    let later = remove key rest in if same key k then rest else (k, v) ∷ later

pub record MemoryDatabase : Type 0 where
  pub entries : Entries

pub data StorageError : Type 0 where
  key_not_found database_error serialization_error invalid_data io_error : StorageError

abbrev pub new : MemoryDatabase
new = record { entries = [] }

abbrev pub len : MemoryDatabase → ℕ
len db = length db.entries

abbrev pub is_empty : MemoryDatabase → Bool
is_empty db = length db.entries == 0

abbrev pub clear : MemoryDatabase → MemoryDatabase
clear db = record { entries = [] }

unfoldable pub get : MemoryDatabase → Key → Option (List ℕ)
get db key = find key db.entries

unfoldable pub put : Key → List ℕ → MemoryDatabase → MemoryDatabase
put key value db = record { entries = insert key value db.entries }

unfoldable pub delete : Key → MemoryDatabase → MemoryDatabase
delete key db = record { entries = remove key db.entries }

abbrev is_some : Option (List ℕ) → Bool
is_some none = false
is_some (some v) = true

unfoldable pub contains : MemoryDatabase → Key → Bool
contains db key = is_some (get db key)

pub data BatchOp : Type 0 where
  put_op : Key → List ℕ → BatchOp
  delete_op : Key → BatchOp

-- A `dyn WriteBatch`: the batch of this database, or another type's.
pub data WriteBatch : Type 0 where
  memory : List BatchOp → WriteBatch
  other : WriteBatch

abbrev pub batch : WriteBatch
batch = memory []

unfoldable pub batch_put : Key → List ℕ → List BatchOp → List BatchOp
batch_put key value operations = operations ++ (put_op key value ∷ [])

unfoldable pub batch_delete : Key → List BatchOp → List BatchOp
batch_delete key operations = operations ++ (delete_op key ∷ [])

abbrev pub batch_clear : List BatchOp → List BatchOp
batch_clear operations = []

abbrev pub batch_len : List BatchOp → ℕ
batch_len operations = length operations

abbrev pub batch_is_empty : List BatchOp → Bool
batch_is_empty operations = batch_len operations == 0

-- The loop of `write_batch`.
unfoldable pub write_all : List BatchOp → Entries → Entries
write_all [] entries = entries
write_all (put_op key value ∷ ops) entries = write_all ops (insert key value entries)
write_all (delete_op key ∷ ops) entries = write_all ops (remove key entries)

unfoldable pub write_batch : WriteBatch → MemoryDatabase → Result StorageError MemoryDatabase
write_batch (memory operations) db = ok (record { entries = write_all operations db.entries })
write_batch other db = err invalid_data

pub record MemoryIterator : Type 0 where
  pub items : Entries
  pub position : ℕ

abbrev pub iterator : Entries → MemoryIterator
iterator entries = record { items = entries; position = 0 }

abbrev pub iter : MemoryDatabase → MemoryIterator
iter db = iterator db.entries

-- `range(start_key..)`
unfoldable pub from_key : Key → Entries → Entries
from_key start [] = []
from_key start ((k, v) ∷ rest) =
    let later = from_key start rest in if key_lt k start then later else (k, v) ∷ rest

abbrev pub iter_from : MemoryDatabase → Key → MemoryIterator
iter_from db start_key = iterator (from_key start_key db.entries)

-- `k.starts_with(prefix)`
unfoldable pub starts_with : Key → Key → Bool
starts_with k [] = true
starts_with [] (p ∷ prefix) = false
starts_with (b ∷ k) (p ∷ prefix) = (b == p) && starts_with k prefix

unfoldable pub with_prefix : Key → Entries → Entries
with_prefix prefix [] = []
with_prefix prefix ((k, v) ∷ rest) =
    let later = with_prefix prefix rest in if starts_with k prefix then (k, v) ∷ later else later

abbrev pub iter_prefix : MemoryDatabase → Key → MemoryIterator
iter_prefix db prefix = iterator (with_prefix prefix db.entries)

-- `next`, where the item is never an error.
unfoldable pub next : MemoryIterator → Option (Key × List ℕ) × MemoryIterator
next it =
    if ltb it.position (length it.items)
    then (get_elem? it.items it.position, record it { position = suc it.position })
    else (none, it)

-- `position(|(k, _)| k >= key).unwrap_or(len)`
unfoldable pub first_from : Key → Entries → ℕ
first_from key [] = 0
first_from key ((k, v) ∷ rest) =
    let later = first_from key rest in if key_lt k key then suc later else 0

unfoldable pub seek : Key → MemoryIterator → Option (Key × List ℕ) × MemoryIterator
seek key it = next (record it { position = first_from key it.items })
