-- ===== src/Evm/Interpreter/Level.antt =====
-- The steps that keep the height of the stack, and the rules for those that change it.
use ethereum_rust.Base.{ℕ, List, Option}
use ethereum_rust.Base.Outcome.{fail, ◌>>=◌, ◌>>◌, gets}
use ethereum_rust.Evm.Library.{Library}
use ethereum_rust.Evm.Error
use ethereum_rust.Evm.Error.{EvmError}
use ethereum_rust.Evm.Memory
use ethereum_rust.Evm.Memory.{Memory, MemoryM}
use ethereum_rust.Evm.Machine.{
  Interpreter, Evm, ExecutionResult, on_memory, consume, pop, push, unwrap, next, finish,
}
use ethereum_rust.Evm.Instructions.{
  jump, binary, nullary, copy_to_memory, stop_with, pop_topics, refuse_static, skip_immediate,
  write, append_log,
}
use ethereum_rust.Evm.Interpreter.Height.{
  Height, floor, word, above, words, Goes, Goes-then, Goes-if, pop-Goes, push-Goes, consume-Goes,
  set-Goes, set_byte-Goes, next-Goes, finish-Goes, skip_immediate-Goes, write-Goes, append_log-Goes,
  refuse_static-Goes, jump-Goes, pop_topics-Goes, Goes-bind, Goes-pure, Goes-gets, Goes-fail,
  Goes-unwrap,
}

pub level_after : {A : Type 0} {h h' : Height} {m : Evm A} → Goes h h' m → Goes h h' (m >> next)
level_after g = Goes-then g next-Goes

-- A step that leaves the height as it is, whatever the height.
pub record Level {A : Type 0} (m : Evm A) : Type 0 where
  pub at : (h : Height) → Goes h h m

module _ {A B : Type 0} where
  pub level_bind :
      {h h' : Height} {m : Evm A} {f : A → Evm B}
      → Level m
      → ((a : A) → Goes h h' (f a))
      → Goes h h' (m >>= f)
  level_bind {h = h} l k = Goes-bind (l.at h) k

module _ {A B : Type 0} where
  pub level_then :
      {h h' : Height} {m : Evm A} {n : Evm B} → Level m → Goes h h' n → Goes h h' (m >> n)
  level_then l k = level_bind l (λ _. k)

module _ {B : Type 0} where
  pub pop_bind :
      {h h' : Height} {f : ℕ → Evm B} → ((a : ℕ) → Goes h h' (f a)) → Goes (word h) h' (pop >>= f)
  pop_bind k = Goes-bind pop-Goes k

  pub push_then : {h h' : Height} (v : ℕ) {n : Evm B} → Goes (word h) h' n → Goes h h' (push v >> n)
  push_then v k = Goes-then (push-Goes v) k

  pub topics_bind :
      {h h' : Height} (n : ℕ) {f : List ℕ → Evm B}
      → ((a : List ℕ) → Goes h h' (f a))
      → Goes (words n h) h' (pop_topics n >>= f)
  topics_bind n k = Goes-bind (pop_topics-Goes n) k

pub level_end : {A : Type 0} {h : Height} {m : Evm A} → Level m → Goes h h m
level_end {h = h} l = l.at h

module _ {A : Type 0} where
  pub Level-gets : (f : Interpreter → A) → Level (gets f)
  Level-gets f = record { at = λ h. Goes-gets f }

  pub Level-unwrap : (o : Option A) → Level (unwrap o)
  Level-unwrap o = record { at = λ h. Goes-unwrap o }

pub Level-consume : (amount : ℕ) → Level (consume amount)
Level-consume amount = record { at = λ h. consume-Goes amount }

pub Level-set : (i : ℕ) (content : List ℕ) → Level (on_memory (Memory.set i content))
Level-set i content = record { at = λ h. set-Goes i content }

pub Level-set_byte : (i b : ℕ) → Level (on_memory (Memory.set_byte i b))
Level-set_byte i b = record { at = λ h. set_byte-Goes i b }

pub Level-next : Level next
Level-next = record { at = λ h. next-Goes }

pub Level-finish : (r : ExecutionResult) → Level (finish r)
Level-finish r = record { at = λ h. finish-Goes r }

pub Level-skip_immediate : (n : ℕ) → Level (skip_immediate n)
Level-skip_immediate n = record { at = λ h. skip_immediate-Goes n }

pub Level-write : (key value : ℕ) → Level (write key value)
Level-write key value = record { at = λ h. write-Goes key value }

pub Level-append_log : (topics content : List ℕ) → Level (append_log topics content)
Level-append_log topics content = record { at = λ h. append_log-Goes topics content }

pub Level-refuse_static : Level refuse_static
Level-refuse_static = record { at = λ h. refuse_static-Goes }

pub Level-jump : (dest : ℕ) → Level (jump dest)
Level-jump dest = record { at = λ h. jump-Goes dest }

pub Level-out_of_bounds : Level (fail {A = Unit {0}} Error.return_data_out_of_bounds)
Level-out_of_bounds = record { at = λ h. Goes-fail Error.return_data_out_of_bounds (λ q. cc) }

pub ruleset height_rules = (
  level_bind, level_then, pop_bind, push_then, Goes-if, level_end, Level-gets, Level-unwrap,
  Level-consume, Level-set, Level-set_byte, Level-next, Level-finish, Level-skip_immediate,
  Level-write, Level-append_log, Level-refuse_static, Level-jump, Level-out_of_bounds,
)

pub binary-Goes : (cost : ℕ) (f : ℕ → ℕ → ℕ) → Goes (word (word floor)) (word floor) (binary cost f)
unfolding binary
binary-Goes cost f = search (height_rules) depth 12

pub nullary-Goes : (cost : ℕ) (f : Interpreter → ℕ) → Goes floor (word floor) (nullary cost f)
unfolding nullary
nullary-Goes cost f = search (height_rules) depth 12

pub copy_to_memory-Level :
    (lib : Library) (mem_offset : ℕ) (slice : Option (List ℕ))
    → Level (copy_to_memory lib mem_offset slice)
unfolding copy_to_memory
copy_to_memory-Level lib mem_offset slice = record { at = λ h. search (height_rules) depth 12 }

pub stop_with-Goes :
    (lib : Library) (result : List ℕ → ℕ → ExecutionResult)
    → Goes (word (word floor)) floor (stop_with lib result)
unfolding stop_with
stop_with-Goes lib result = search (height_rules) depth 16
