-- ===== src/Storage/Laws.antt =====
-- crates/storage/src/memory.rs: what a write is for the reads after it.
use ethereum_rust.Base.{
  ℕ, ◌≡◌, refl, ◌∙◌, ap, List, [], ◌∷◌, ◌++◌, Option, none, some, inl, inr, if◌then◌else◌,
}
use mathlib.Core.Path.{fun_ext}
use ethereum_rust.Base.Keys.{same, same_refl, same-cases}
use ethereum_rust.Base.Result.{ok}
use ethereum_rust.Storage.{
  Key, MemoryDatabase, get, put, delete, BatchOp, put_op, delete_op, write_all, write_batch, memory,
  batch_put,
}
use ethereum_rust.Storage.Ordered.{
  Ordered, insert-Ordered, remove-Ordered, find-insert_same, find-insert_other, find-remove_same,
  find-remove_other,
}

-- A map as a function, with one key changed.
abbrev pub update : (Key → Option (List ℕ)) → Key → Option (List ℕ) → Key → Option (List ℕ)
update f key v q = if same q key then v else f q

abbrev pub IsOrdered : MemoryDatabase → Type 0
IsOrdered db = Ordered db.entries

pub put-IsOrdered :
    (key : Key) (v : List ℕ) (db : MemoryDatabase) → IsOrdered db → IsOrdered (put key v db)
unfolding put
put-IsOrdered key v db o = insert-Ordered key v db.entries o

pub delete-IsOrdered : (key : Key) (db : MemoryDatabase) → IsOrdered db → IsOrdered (delete key db)
unfolding delete
delete-IsOrdered key db o = remove-Ordered key db.entries o

pub get-put :
    (key : Key) (v : List ℕ) (db : MemoryDatabase)
    → get (put key v db) ≡ update (get db) key (some v)
unfolding get put
get-put key v db = fun_ext λ q. elim (same-cases q key) [
  | inl e ↦ rw (e, same_refl key) (find-insert_same key v db.entries)
  | inr (d, h) ↦ rw h (find-insert_other q key v db.entries d)
]

pub get-delete :
    (key : Key) (db : MemoryDatabase)
    → IsOrdered db
    → get (delete key db) ≡ update (get db) key none
unfolding get delete
get-delete key db o = fun_ext λ q. elim (same-cases q key) [
  | inl e ↦ rw (e, same_refl key) (find-remove_same key db.entries o)
  | inr (d, h) ↦ rw h (find-remove_other q key db.entries d)
]

-- One operation of a batch, on the database.
abbrev pub apply_op : BatchOp → MemoryDatabase → MemoryDatabase
apply_op (put_op key v) db = put key v db
apply_op (delete_op key) db = delete key db

abbrev pub apply_ops : List BatchOp → MemoryDatabase → MemoryDatabase
apply_ops [] db = db
apply_ops (op ∷ ops) db = apply_ops ops (apply_op op db)

write_all-apply_ops :
    (ops : List BatchOp) (db : MemoryDatabase)
    → record { entries = write_all ops db.entries } ≡ apply_ops ops db
unfolding write_all put delete
write_all-apply_ops [] db = refl
write_all-apply_ops (put_op key v ∷ ops) db = write_all-apply_ops ops (put key v db)
write_all-apply_ops (delete_op key ∷ ops) db = write_all-apply_ops ops (delete key db)

-- A batch of this database is written as its operations are carried out one after another, in the order
-- of the list, and cannot fail.
pub write_batch-apply_ops :
    (ops : List BatchOp) (db : MemoryDatabase) → write_batch (memory ops) db ≡ ok (apply_ops ops db)
unfolding write_batch
write_batch-apply_ops ops db = ap ok (write_all-apply_ops ops db)

apply_ops-append :
    (a b : List BatchOp) (db : MemoryDatabase)
    → apply_ops (a ++ b) db ≡ apply_ops b (apply_ops a db)
apply_ops-append [] b db = refl
apply_ops-append (op ∷ a) b db = apply_ops-append a b (apply_op op db)

-- A put that is added to a batch is the last to be carried out: the key then has its value.
pub write_batch-batch_put :
    (key : Key) (v : List ℕ) (ops : List BatchOp) (db : MemoryDatabase)
    → write_batch (memory (batch_put key v ops)) db ≡ ok (put key v (apply_ops ops db))
unfolding batch_put
write_batch-batch_put key v ops db =
    write_batch-apply_ops (ops ++ (put_op key v ∷ [])) db
    ∙ ap ok (apply_ops-append ops (put_op key v ∷ []) db)
