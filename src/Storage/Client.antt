-- ===== src/Storage/Client.antt =====
-- crates/storage/src/memory.rs: any sequence of calls, against the same changes of a function.
use ethereum_rust.Base.{ℕ, ◌≡◌, refl, ◌∙◌, ap, List, [], ◌∷◌, Option, none, some}
use ethereum_rust.Base.Result.{Result, ok, ◌>>=◌}
use ethereum_rust.Storage
use ethereum_rust.Storage.{
  Key, MemoryDatabase, StorageError, new, get, find, BatchOp, put_op, delete_op, write_batch,
  memory,
}
use ethereum_rust.Storage.Laws.{
  update, IsOrdered, put-IsOrdered, delete-IsOrdered, get-put, get-delete, apply_ops,
  write_batch-apply_ops,
}

-- The calls that change the database.
pub data Op : Type 0 where
  put : Key → List ℕ → Op
  delete : Key → Op
  write : List BatchOp → Op
  clear : Op

unfoldable pub call : Op → MemoryDatabase → Result StorageError MemoryDatabase
call (put key v) db = ok (Storage.put key v db)
call (delete key) db = ok (Storage.delete key db)
call (write ops) db = write_batch (memory ops) db
call clear db = ok (Storage.clear db)

unfoldable pub run : List Op → MemoryDatabase → Result StorageError MemoryDatabase
run [] db = ok db
run (op ∷ ops) db = call op db >>= λ db'. run ops db'

abbrev Reads : Type 0
Reads = Key → Option (List ℕ)

abbrev pub batch_spec : List BatchOp → Reads → Reads
batch_spec [] f = f
batch_spec (put_op key v ∷ ops) f = batch_spec ops (update f key (some v))
batch_spec (delete_op key ∷ ops) f = batch_spec ops (update f key none)

abbrev pub call_spec : Op → Reads → Reads
call_spec (put key v) f = update f key (some v)
call_spec (delete key) f = update f key none
call_spec (write ops) f = batch_spec ops f
call_spec clear f = λ _. none

abbrev pub replay : List Op → Reads → Reads
replay [] f = f
replay (op ∷ ops) f = replay ops (call_spec op f)

abbrev Refines : MemoryDatabase → Reads → Type 0
Refines db f = IsOrdered db × (get db ≡ f)

put-Refines :
    (key : Key) (v : List ℕ) (db : MemoryDatabase) (f : Reads)
    → Refines db f
    → Refines (Storage.put key v db) (update f key (some v))
put-Refines key v db f (o, e) =
    (put-IsOrdered key v db o, get-put key v db ∙ ap (λ g. update g key (some v)) e)

delete-Refines :
    (key : Key) (db : MemoryDatabase) (f : Reads)
    → Refines db f
    → Refines (Storage.delete key db) (update f key none)
delete-Refines key db f (o, e) =
    (delete-IsOrdered key db o, get-delete key db o ∙ ap (λ g. update g key none) e)

apply_ops-Refines :
    (ops : List BatchOp) (db : MemoryDatabase) (f : Reads)
    → Refines db f
    → Refines (apply_ops ops db) (batch_spec ops f)
apply_ops-Refines [] db f r = r
apply_ops-Refines (put_op key v ∷ ops) db f r =
    apply_ops-Refines ops (Storage.put key v db) (update f key (some v)) (put-Refines key v db f r)
apply_ops-Refines (delete_op key ∷ ops) db f r =
    apply_ops-Refines ops (Storage.delete key db) (update f key none) (delete-Refines key db f r)

call-Refines :
    (op : Op) (db : MemoryDatabase) (f : Reads)
    → Refines db f
    → (db' : MemoryDatabase) × (call op db ≡ ok db') × Refines db' (call_spec op f)
unfolding call get find
call-Refines (put key v) db f r = (Storage.put key v db, refl, put-Refines key v db f r)
call-Refines (delete key) db f r = (Storage.delete key db, refl, delete-Refines key db f r)
call-Refines (write ops) db f r =
    (apply_ops ops db, write_batch-apply_ops ops db, apply_ops-Refines ops db f r)
call-Refines clear db f r = (Storage.clear db, refl, (tt, refl))

run-Refines :
    (ops : List Op) (db : MemoryDatabase) (f : Reads)
    → Refines db f
    → (db' : MemoryDatabase) × (run ops db ≡ ok db') × Refines db' (replay ops f)
unfolding run
run-Refines [] db f r = (db, refl, r)
run-Refines (op ∷ ops) db f r =
    let (db1, e, r1) = call-Refines op db f r in
    let (db2, e', r2) = run-Refines ops db1 (call_spec op f) r1 in (db2, rw e e', r2)

-- Any sequence of puts, deletes, batches and clears, from a new database, succeeds; the entries are then in
-- the order of their keys, each key once, and reading is the function that the same changes make of the empty
-- one.
pub run-new-replay :
    (ops : List Op)
    → (db : MemoryDatabase) × (run ops new ≡ ok db)
      × IsOrdered db
      × (get db ≡ replay ops (λ _. none))
unfolding get find
run-new-replay ops =
    let (db, e, (o, g)) = run-Refines ops new (λ _. none) (tt, refl) in (db, e, o, g)
