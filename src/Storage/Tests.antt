-- ===== src/Storage/Tests.antt =====
-- The tests of crates/storage/src/memory.rs, and the theorems at concrete inputs.
use ethereum_rust.Base.{suc, ◌≡◌, refl, List, [], ◌∷◌, none, length, if◌then◌else◌}
use ethereum_rust.Base.Keys.{same, key_lt}
use ethereum_rust.Base.Result.{ok}
use ethereum_rust.Storage.{
  Key, Entries, MemoryDatabase, find, get, put, insert, new, iter_from, put_op, delete_op, seek,
}
use ethereum_rust.Storage.Ordered.{Ordered}
use ethereum_rust.Storage.Laws.{IsOrdered}
use ethereum_rust.Storage.Client
use ethereum_rust.Storage.Client.{Op, run, replay, run-new-replay}
use ethereum_rust.Storage.Iteration.{collect, iter_from_lem, seek_lem, head, tail}

abbrev a : Key
a = 97 ∷ []

abbrev b : Key
b = 98 ∷ []

abbrev c : Key
c = 99 ∷ []

-- test_memory_database_basic
abbrev calls : List Op
calls =
    Client.put b (2 ∷ [])
    ∷ Client.put a (1 ∷ [])
    ∷ Client.delete b
    ∷ Client.write (put_op c (3 ∷ []) ∷ delete_op a ∷ [])
    ∷ []

run-new-replay_example :
    (db : MemoryDatabase) × (run calls new ≡ ok db)
    × IsOrdered db
    × (get db ≡ replay calls (λ _. none))
run-new-replay_example = run-new-replay calls

abbrev two : MemoryDatabase
two = record { entries = (a, 1 ∷ []) ∷ (c, 3 ∷ []) ∷ [] }

two-IsOrdered : IsOrdered two
unfolding key_lt
two-IsOrdered = ((refl, tt), (tt, tt))

put_between : put b (2 ∷ []) two ≡ record { entries = (a, 1 ∷ []) ∷ (b, 2 ∷ []) ∷ (c, 3 ∷ []) ∷ [] }
unfolding put insert same key_lt
put_between = refl

iter_from_lem_example :
    (es : Entries) × (collect (suc (length es)) (iter_from two b) ≡ es)
    × Ordered es
    × ((q : Key) → find q es ≡ (if key_lt q b then none else get two q))
iter_from_lem_example = iter_from_lem two b two-IsOrdered

seek_lem_example :
    ((seek b (record { items = two.entries; position = 2 })).0 ≡ head (iter_from two b).items)
    × (collect
          (suc (length (iter_from two b).items))
          (seek b (record { items = two.entries; position = 2 })).1
        ≡ tail (iter_from two b).items)
seek_lem_example = seek_lem two b 2
