-- ===== src/Consensus/ExitQueue/Tests.antt =====
-- The tests of crates/consensus/src/eip7002.rs on the exit queue, and the theorems at concrete inputs.
use ethereum_rust.Base.{ℕ, ◌+◌, ◌≤◌, ◌<◌, ◌≡◌, refl, [], ◌∷◌, ◌++◌, arith, All}
use ethereum_rust.Base.Result.{ok}
use ethereum_rust.Consensus.ExitQueue.{
  ExitQueueManager, validator, execution_layer, exit_of, has_exit, exits_in_epoch, sort_by_epoch,
  add_exit_request, process_epoch, calculate_exit_epoch, search, add_u64, insert_last, sort_into,
}
use ethereum_rust.Consensus.ExitQueue.Search.{Earliest, calculate_exit_epoch-Earliest}
use ethereum_rust.Consensus.ExitQueue.Added.{WellFormed, add_exit_request-WellFormed, count_by}
use ethereum_rust.Consensus.ExitQueue.Processed.{process_epoch-WellFormed}

-- One exit an epoch, and one is scheduled for epoch 14.
abbrev queue : ExitQueueManager
queue = record {
  pending_exits = exit_of 7 [] 14 270 validator ∷ [];
  processed_exits = [];
  max_exits_per_epoch = 1;
}

queue-WellFormed : WellFormed queue
unfolding count_by exits_in_epoch
queue-WellFormed = ((tt, tt), (λ index. ground arith), (λ epoch. ground arith))

-- The next exit is for epoch 15.
second_exit :
    add_exit_request 8 [] 10 execution_layer queue
    ≡ ok (record queue {
      pending_exits = exit_of 7 [] 14 270 validator ∷ exit_of 8 [] 15 271 execution_layer ∷ [];
    })
unfolding add_exit_request has_exit calculate_exit_epoch search add_u64 exits_in_epoch insert_last
    sort_into
second_exit = refl

calculate_exit_epoch-Earliest_example :
    (epoch : ℕ) × (calculate_exit_epoch 10 queue ≡ ok epoch)
    × Earliest 1 queue.pending_exits 14 epoch
    × (epoch < 16)
calculate_exit_epoch-Earliest_example =
    calculate_exit_epoch-Earliest queue 10 (omega arith) (omega arith)

add_exit_request-WellFormed_example :
    (epoch : ℕ) × (q' : ExitQueueManager) × Earliest 1 queue.pending_exits 14 epoch
    × (add_exit_request 8 [] 10 execution_layer queue ≡ ok q')
    × (q'.pending_exits
        ≡ sort_by_epoch
            (queue.pending_exits ++ (exit_of 8 [] epoch (epoch + 256) execution_layer ∷ [])))
    × WellFormed q'
unfolding has_exit
add_exit_request-WellFormed_example =
    add_exit_request-WellFormed queue 8 [] 10 execution_layer queue-WellFormed (omega arith)
      (omega arith) refl

process_epoch-WellFormed_example :
    ((process_epoch 14 queue).0 ++ (process_epoch 14 queue).1.pending_exits ≡ queue.pending_exits)
    × All (λ e. e.exit_epoch ≤ 14) (process_epoch 14 queue).0
    × All (λ e. 14 < e.exit_epoch) (process_epoch 14 queue).1.pending_exits
    × ((process_epoch 14 queue).1.processed_exits
        ≡ queue.processed_exits ++ (process_epoch 14 queue).0)
    × WellFormed (process_epoch 14 queue).1
process_epoch-WellFormed_example = process_epoch-WellFormed queue 14 queue-WellFormed
