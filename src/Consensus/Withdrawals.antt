-- ===== src/Consensus/Withdrawals.antt =====
-- crates/consensus/src/eip7002.rs: the requests for a withdrawal, their encoding, the contract that takes them for
-- a fee, and their queue. A sum or a product of `U256` or `u64` that overflows panics.
pub mod Coding
pub mod Fifo
mod Tests
use ethereum_rust.Base.{
  ℕ, zero, suc, ◌+◌, ◌-◌, ◌*◌, ◌/◌, ◌^◌, min, Bool, true, false, List, [], ◌∷◌, ◌++◌, Option, none,
  some, ltb, leb, ◌==◌, if◌then◌else◌, length, take, drop,
}
use ethereum_rust.Base.Bytes.{from_be_bytes, to_be_bytes}
use ethereum_rust.Base.Result.{Result, ok, err, panic, stuck, ◌>>=◌}
use ethereum_rust.Consensus.ExitQueue.{
  Eip7002Error, invalid_pubkey, insufficient_fee, too_many_requests, add_u64,
}

pub record WithdrawalRequest : Type 0 where
  pub source_address : List ℕ
  pub validator_pubkey : List ℕ
  pub amount : ℕ

abbrev pub request : List ℕ → List ℕ → ℕ → WithdrawalRequest
request source_address validator_pubkey amount = record {
  source_address = source_address;
  validator_pubkey = validator_pubkey;
  amount = amount;
}

-- The address has 20 bytes and the key 48, by their types.
unfoldable pub encode : WithdrawalRequest → List ℕ
encode r = r.source_address ++ r.validator_pubkey ++ to_be_bytes 32 r.amount

unfoldable pub decode : List ℕ → Result Eip7002Error WithdrawalRequest
decode bytes =
    if ltb (length bytes) 100
    then err invalid_pubkey
    else ok (
        request (take 20 bytes) (take 48 (drop 20 bytes)) (from_be_bytes (take 32 (drop 68 bytes))))

abbrev pub max_requests : ℕ
max_requests = 16

abbrev pub target_requests : ℕ
target_requests = 2

abbrev pub min_fee : ℕ
min_fee = 1

abbrev pub fee_update_fraction : ℕ
fee_update_fraction = 17

-- `a + b` and `a * b` on `U256`
unfoldable pub add_u256 : {E : Type 0} → ℕ → ℕ → Result E ℕ
add_u256 a b = if ltb (a + b) (2 ^ 256) then ok (a + b) else panic

unfoldable pub mul_u256 : {E : Type 0} → ℕ → ℕ → Result E ℕ
mul_u256 a b = if ltb (a * b) (2 ^ 256) then ok (a * b) else panic

-- The `while` loop; it ends after 256 rounds at the latest, which is the fuel.
unfoldable pub exponential_loop : ℕ → ℕ → ℕ → ℕ → ℕ → ℕ → Result Eip7002Error ℕ
exponential_loop zero numerator denominator output accum i = ok output
exponential_loop (suc rounds) numerator denominator output accum i =
    let round = add_u256 output accum >>= λ output'. mul_u256 accum numerator >>= λ product.
    mul_u256 denominator i >>= λ divisor.
    exponential_loop rounds numerator denominator output' (product / divisor) (i + 1) in
    if ltb 0 accum then round else ok output

unfoldable pub fake_exponential : ℕ → ℕ → ℕ → Result Eip7002Error ℕ
fake_exponential factor numerator denominator = mul_u256 factor denominator >>= λ accum.
    exponential_loop 256 numerator denominator 0 accum 1 >>= λ output. ok (output / denominator)

abbrev pub calculate_withdrawal_request_fee : ℕ → Result Eip7002Error ℕ
calculate_withdrawal_request_fee excess_requests =
    fake_exponential min_fee excess_requests fee_update_fraction

pub record WithdrawalRequestContract : Type 0 where
  pub requests : List WithdrawalRequest
  pub excess_requests : ℕ
  pub current_fee : ℕ

abbrev pub new_contract : WithdrawalRequestContract
new_contract = record { requests = []; excess_requests = 0; current_fee = min_fee }

unfoldable pub add_request :
    WithdrawalRequest
    → ℕ
    → WithdrawalRequestContract
    → Result Eip7002Error WithdrawalRequestContract
add_request r fee_provided c =
    if ltb fee_provided c.current_fee
    then err (insufficient_fee c.current_fee fee_provided)
    else if leb max_requests (length c.requests)
    then err too_many_requests
    else ok (record c { requests = c.requests ++ (r ∷ []) })

unfoldable pub update_excess_requests : ℕ → ℕ → Result Eip7002Error ℕ
update_excess_requests count excess = add_u64 excess count >>= λ total.
    ok (if ltb target_requests total then total - target_requests else 0)

-- The requests are cleared before the excess and the fee are computed, either of which may panic.
unfoldable pub process_requests :
    WithdrawalRequestContract
    → Result Eip7002Error (List WithdrawalRequest × WithdrawalRequestContract)
process_requests c = update_excess_requests (length c.requests) c.excess_requests >>= λ excess.
    calculate_withdrawal_request_fee excess >>= λ fee.
    ok (c.requests, record { requests = []; excess_requests = excess; current_fee = fee })

pub record WithdrawalRequestQueue : Type 0 where
  pub head : ℕ
  pub tail : ℕ
  pub count : ℕ
  pub excess : ℕ
  pub items : List WithdrawalRequest

abbrev pub new_queue : WithdrawalRequestQueue
new_queue = record { head = 0; tail = 0; count = 0; excess = 0; items = [] }

unfoldable pub enqueue :
    WithdrawalRequest → WithdrawalRequestQueue → Result Eip7002Error WithdrawalRequestQueue
enqueue r q =
    if leb max_requests q.count
    then err too_many_requests
    else add_u64 q.tail 1 >>= λ tail.
        ok (record q { items = q.items ++ (r ∷ []); tail = tail; count = q.count + 1 })

-- `requests.remove(0)` panics on no request.
unfoldable pub remove_first :
    List WithdrawalRequest
    → WithdrawalRequestQueue
    → Result Eip7002Error (Option WithdrawalRequest × WithdrawalRequestQueue)
remove_first [] q = panic
remove_first (r ∷ rs) q = add_u64 q.head 1 >>= λ head.
    ok (some r, record q { items = rs; head = head; count = q.count - 1 })

unfoldable pub dequeue :
    WithdrawalRequestQueue → Result Eip7002Error (Option WithdrawalRequest × WithdrawalRequestQueue)
dequeue q = if q.count == 0 then ok (none, q) else remove_first q.items q

abbrev pub cons_some : Option WithdrawalRequest → List WithdrawalRequest → List WithdrawalRequest
cons_some none rs = rs
cons_some (some r) rs = r ∷ rs

-- `for _ in 0..count { if let Some(request) = self.dequeue() { result.push(request) } }`
unfoldable pub dequeue_times :
    ℕ
    → WithdrawalRequestQueue
    → Result Eip7002Error (List WithdrawalRequest × WithdrawalRequestQueue)
dequeue_times zero q = ok ([], q)
dequeue_times (suc n) q =
    dequeue q >>= λ (r, q'). dequeue_times n q' >>= λ (rs, q2). ok (cons_some r rs, q2)

unfoldable pub update_excess : ℕ → ℕ → Result Eip7002Error ℕ
update_excess taken excess =
    if ltb target_requests taken
    then add_u64 excess (taken - target_requests)
    else if ltb 0 excess
    then ok (excess - (target_requests - taken))
    else ok excess

unfoldable pub dequeue_up_to :
    ℕ
    → WithdrawalRequestQueue
    → Result Eip7002Error (List WithdrawalRequest × WithdrawalRequestQueue)
dequeue_up_to max_count q = dequeue_times (min q.count max_count) q >>= λ (rs, q').
    update_excess (length rs) q'.excess >>= λ excess. ok (rs, record q' { excess = excess })

unfoldable pub execute : List ℕ → ℕ → Result Eip7002Error (List ℕ)
execute input value =
    if length input == 68
    then ok (encode (request (take 20 input) (take 48 (drop 20 input)) value))
    else err invalid_pubkey

abbrev pub required_gas : List ℕ → ℕ
required_gas input = 10000 + length input * 10

abbrev pub get_fee : WithdrawalRequestQueue → Result Eip7002Error ℕ
get_fee q = calculate_withdrawal_request_fee q.excess

abbrev pub size : WithdrawalRequestQueue → ℕ
size q = q.count
