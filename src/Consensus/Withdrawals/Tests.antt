-- ===== src/Consensus/Withdrawals/Tests.antt =====
-- The tests of crates/consensus/src/eip7002.rs on requests, and the theorems at concrete inputs.
use ethereum_rust.Base.{
  ℕ, length, ◌≢◌, ◌⊎◌, ◌+◌, ◌-◌, ◌≡◌, refl, List, [], ◌∷◌, arith, replicate, take, drop, min,
}
use ethereum_rust.Base.Result.{ok, err}
use ethereum_rust.Consensus.Withdrawals.{
  WithdrawalRequestQueue, invalid_pubkey, request, decode, execute, dequeue_up_to,
  calculate_withdrawal_request_fee, fake_exponential, exponential_loop, mul_u256, add_u256,
}
use ethereum_rust.Consensus.Withdrawals.Coding.{decode-execute}
use ethereum_rust.Consensus.Withdrawals.Fifo.{Agrees, dequeue_up_to-take}

abbrev input : List ℕ
input = replicate 68 7

decode-execute_example :
    ((length input ≡ 68)
      × ((out : List ℕ) × ((execute input 32 ≡ ok out)
            × (decode out ≡ ok (request (take 20 input) (take 48 (drop 20 input)) 32)))))
    ⊎ ((length input ≢ 68) × (execute input 32 ≡ err invalid_pubkey))
decode-execute_example = decode-execute input 32 (omega arith)

too_short : execute (replicate 67 7) 32 ≡ err invalid_pubkey
unfolding execute
too_short = refl

abbrev queue : WithdrawalRequestQueue
queue = record {
  head = 4;
  tail = 7;
  count = 3;
  excess = 0;
  items = request [] [] 1 ∷ request [] [] 2 ∷ request [] [] 3 ∷ [];
}

dequeue_up_to-take_example :
    (q' : WithdrawalRequestQueue) × (dequeue_up_to 2 queue ≡ ok (take 2 queue.items, q'))
    × (q'.items ≡ drop 2 queue.items)
    × (q'.excess ≡ 0 + min 3 2 - 2)
    × Agrees q'
dequeue_up_to-take_example =
    dequeue_up_to-take 2 queue (refl, refl, omega arith) (omega arith) (omega arith)

-- Twelve requests too many leave the fee at 1.
fee_12 : calculate_withdrawal_request_fee 12 ≡ ok 1
unfolding fake_exponential exponential_loop mul_u256 add_u256
fee_12 = refl
