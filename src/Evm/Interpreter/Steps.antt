-- ===== src/Evm/Interpreter/Steps.antt =====
-- The frame of each step that an instruction is made of.
use ethereum_rust.Base.{
  ℕ, zero, suc, ◌-◌, ◌≤◌, ◌<◌, ◌^◌, ◌≡◌, refl, List, [], ◌∷◌, some, arith, length, length-set, inl,
  inr, Option-cases,
}
use ethereum_rust.Base.Outcome.{Outcome, ok, err, panic, stuck}
use ethereum_rust.Evm.Error.{EvmError}
use ethereum_rust.Evm.Stack
use ethereum_rust.Evm.Stack.{Stack, StackM, stack_limit}
use ethereum_rust.Evm.Gas
use ethereum_rust.Evm.Gas.{Gas}
use ethereum_rust.Evm.Memory
use ethereum_rust.Evm.Memory.{Memory, MemoryM}
use ethereum_rust.Evm.Machine.{
  Interpreter, with_stack, with_memory, with_gas, on_stack, on_memory, consume, pop, push,
}
use ethereum_rust.Evm.Instructions.{pop_topics}
use ethereum_rust.Evm.Interpreter.Frame.{
  Frame, Frame-refl, Frame-trans, Still, Moved, Progress, Leaves, returns, raises, panics, Steady,
  Roams, Advances, Steady-bind, Steady-then, Steady-pure, Steady-gets, Steady-unwrap, bind_rule,
  weaken,
}

stack_frame :
    (s : Interpreter) (t : Stack)
    → (length s.stack.items ≤ stack_limit → length t.items ≤ stack_limit)
    → Frame s (record s { stack = t })
stack_frame s t h = record {
  context = refl;
  limit = refl;
  metered = λ b k. (omega arith, b);
  fits = h;
  static_state = λ b. refl;
  static_logs = λ b. refl;
}

memory_frame : (s : Interpreter) (m : Memory) → Frame s (record s { memory = m })
memory_frame s m = record {
  context = refl;
  limit = refl;
  metered = λ b k. (omega arith, b);
  fits = λ b. b;
  static_state = λ b. refl;
  static_logs = λ b. refl;
}

-- The meter after a charge.
abbrev pub Charged : Gas → Gas → Type 0
Charged g u =
    (u.limit ≡ g.limit)
    × (g.used ≤ g.limit → g.limit < 2 ^ 64 - 1 → (g.used ≤ u.used) × (u.used ≤ u.limit))

pub gas_frame : (s : Interpreter) (u : Gas) → Charged s.gas u → Frame s (record s { gas = u })
gas_frame s u h = record {
  context = refl;
  limit = h.0;
  metered = h.1;
  fits = λ b. b;
  static_state = λ b. refl;
  static_logs = λ b. refl;
}

pub pc_frame : (s : Interpreter) (n : ℕ) → Frame s (record s { pc = n })
pc_frame s n = record {
  context = refl;
  limit = refl;
  metered = λ b k. (omega arith, b);
  fits = λ b. b;
  static_state = λ b. refl;
  static_logs = λ b. refl;
}

-- What a component's method may do to the component.
abbrev pub Outcomes : {C A : Type 0} → (C → Type 0) → Outcome C EvmError A → Type 0
Outcomes P (ok a t) = P t
Outcomes P (err e t) = P t
Outcomes P panic = Unit {0}
Outcomes P stuck = ⊥

abbrev Fits : Stack → Stack → Type 0
Fits s t = length s.items ≤ stack_limit → length t.items ≤ stack_limit

module _ {A : Type 0} where
  with_stack-Leaves :
      (s : Interpreter) (r : Outcome Stack EvmError A)
      → Outcomes (Fits s.stack) r
      → Leaves (Still s) (Frame s) (with_stack s r)
  unfolding with_stack
  with_stack-Leaves s (ok a t) h =
      returns (record { frame = stack_frame s t h; pc = refl; result = refl })
  with_stack-Leaves s (err e t) h = raises (stack_frame s t h)
  with_stack-Leaves s panic h = panics
  with_stack-Leaves s stuck h = absurd h

  pub on_stack-Steady :
      (m : StackM A) → ((t : Stack) → Outcomes (Fits t) (m t)) → Steady (on_stack m)
  unfolding on_stack
  on_stack-Steady m h = record { run = λ s. with_stack-Leaves s (m s.stack) (h s.stack) }

  with_memory-Leaves :
      (s : Interpreter) (r : Outcome Memory EvmError A)
      → Outcomes (λ t. Unit {0}) r
      → Leaves (Still s) (Frame s) (with_memory s r)
  unfolding with_memory
  with_memory-Leaves s (ok a t) h =
      returns (record { frame = memory_frame s t; pc = refl; result = refl })
  with_memory-Leaves s (err e t) h = raises (memory_frame s t)
  with_memory-Leaves s panic h = panics
  with_memory-Leaves s stuck h = absurd h

  pub on_memory-Steady :
      (m : MemoryM A) → ((t : Memory) → Outcomes (λ u. Unit {0}) (m t)) → Steady (on_memory m)
  unfolding on_memory
  on_memory-Steady m h = record { run = λ s. with_memory-Leaves s (m s.memory) (h s.memory) }

with_gas-Leaves :
    (s : Interpreter) (r : Outcome Gas EvmError (Unit {0}))
    → Outcomes (Charged s.gas) r
    → Leaves (Still s) (Frame s) (with_gas s r)
unfolding with_gas
with_gas-Leaves s (ok a t) h =
    returns (record { frame = gas_frame s t h; pc = refl; result = refl })
with_gas-Leaves s (err e t) h = raises (gas_frame s t h)
with_gas-Leaves s panic h = panics
with_gas-Leaves s stuck h = absurd h

consume-Charged : (amount : ℕ) (g : Gas) → Outcomes (Charged g) (Gas.consume amount g)
unfolding Gas.consume
consume-Charged amount g = ground arith

pub consume-Steady : (amount : ℕ) → Steady (consume amount)
unfolding consume
consume-Steady amount = record {
  run = λ s. with_gas-Leaves s (Gas.consume amount s.gas) (consume-Charged amount s.gas);
}

pop-Fits : (t : Stack) → Outcomes (Fits t) (Stack.pop t)
unfolding Stack.pop
pop-Fits t = ground arith

push-Fits : (v : ℕ) (t : Stack) → Outcomes (Fits t) (Stack.push v t)
unfolding Stack.push
push-Fits v t = ground arith

pub dup-Fits : (n : ℕ) (t : Stack) → Outcomes (Fits t) (Stack.dup n t)
unfolding Stack.dup
dup-Fits n t = ground arith

pub length-exchange :
    (n : ℕ) (items items' : List ℕ)
    → Stack.exchange n items ≡ some items'
    → length items' ≡ length items
unfolding Stack.exchange
length-exchange n [] items' e = cc
length-exchange zero (x ∷ items) items' e = ground arith
length-exchange (suc n) (x ∷ items) items' e = ground (arith, length-set items n x)

swap-Fits : (n : ℕ) (t : Stack) → Outcomes (Fits t) (Stack.swap n t)
unfolding Stack.swap
swap-Fits n t = elim (Option-cases (Stack.exchange n t.items)) [
  | inl e ↦ ground (arith, e)
  | inr (items, e) ↦ ground (arith, e, length-exchange n t.items items e)
]

require-Fits : (n : ℕ) (t : Stack) → Outcomes (Fits t) (Stack.require n t)
unfolding Stack.require
require-Fits n t = ground arith

limit_check-Fits : (n : ℕ) (t : Stack) → Outcomes (Fits t) (Stack.limit_check n t)
unfolding Stack.limit_check
limit_check-Fits n t = ground arith

module _ (n : ℕ) where
  pub dup-Steady : Steady (on_stack (Stack.dup n))
  dup-Steady = on_stack-Steady (Stack.dup n) (dup-Fits n)

  pub swap-Steady : Steady (on_stack (Stack.swap n))
  swap-Steady = on_stack-Steady (Stack.swap n) (swap-Fits n)

  pub require-Steady : Steady (on_stack (Stack.require n))
  require-Steady = on_stack-Steady (Stack.require n) (require-Fits n)

  pub limit_check-Steady : Steady (on_stack (Stack.limit_check n))
  limit_check-Steady = on_stack-Steady (Stack.limit_check n) (limit_check-Fits n)

  pub push-Steady : Steady (push n)
  unfolding push
  push-Steady = on_stack-Steady (Stack.push n) (push-Fits n)

pub pop-Steady : Steady pop
unfolding pop
pop-Steady = on_stack-Steady Stack.pop pop-Fits

set_settles :
    (i : ℕ) (content : List ℕ) (t : Memory) → Outcomes (λ u. Unit {0}) (Memory.set i content t)
unfolding Memory.set
set_settles i [] t = tt
set_settles i (b ∷ content) t = ground arith

set_byte_settles : (i b : ℕ) (t : Memory) → Outcomes (λ u. Unit {0}) (Memory.set_byte i b t)
unfolding Memory.set_byte
set_byte_settles i b t = ground arith

pub set-Steady : (i : ℕ) (content : List ℕ) → Steady (on_memory (Memory.set i content))
set-Steady i content = on_memory-Steady (Memory.set i content) (set_settles i content)

pub set_byte-Steady : (i b : ℕ) → Steady (on_memory (Memory.set_byte i b))
set_byte-Steady i b = on_memory-Steady (Memory.set_byte i b) (set_byte_settles i b)

pub pop_topics-Steady : (n : ℕ) → Steady (pop_topics n)
unfolding pop_topics
pop_topics-Steady zero = Steady-pure []
pop_topics-Steady (suc n) =
    Steady-bind pop-Steady λ t. Steady-bind (pop_topics-Steady n) λ r. Steady-pure (t ∷ r)

pub ruleset steady_rules = (
  Steady-bind, Steady-then, Steady-pure, Steady-gets, Steady-unwrap, consume-Steady, pop-Steady,
  push-Steady, dup-Steady, swap-Steady, require-Steady, limit_check-Steady, set-Steady,
  set_byte-Steady, pop_topics-Steady,
)
