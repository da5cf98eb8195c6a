-- ===== src/Evm/Machine.antt =====
-- crates/evm/src/execution.rs and interpreter.rs: the context of a run, its result, and the state of
-- the interpreter.
use ethereum_rust.Base.{ℕ, suc, Bool, List, [], Option, none, some}
use ethereum_rust.Base.Outcome.{M, Outcome, ok, err, panic, stuck}
use ethereum_rust.Evm.Error.{EvmError}
use ethereum_rust.Evm.Stack
use ethereum_rust.Evm.Stack.{Stack}
use ethereum_rust.Evm.Memory
use ethereum_rust.Evm.Memory.{Memory}
use ethereum_rust.Evm.Gas
use ethereum_rust.Evm.Gas.{Gas}
use ethereum_rust.Evm.State.{State}

pub record BlockContext : Type 0 where
  pub coinbase : ℕ
  pub number : ℕ
  pub timestamp : ℕ
  pub difficulty : ℕ
  pub gas_limit : ℕ
  pub base_fee : Option ℕ
  pub chain_id : ℕ
  pub block_hashes : List ℕ

pub record ExecutionContext : Type 0 where
  pub caller : ℕ
  pub address : ℕ
  pub origin : ℕ
  pub value : ℕ
  pub code : List ℕ
  pub input : List ℕ
  pub gas_price : ℕ
  pub gas_limit : ℕ
  pub block : BlockContext
  pub is_static : Bool
  pub depth : ℕ

pub record Log : Type 0 where
  pub address : ℕ
  pub topics : List ℕ
  pub content : List ℕ

pub data HaltReason : Type 0 where
  out_of_gas : HaltReason
  invalid_opcode : ℕ → HaltReason
  stack_underflow stack_overflow invalid_jump call_depth_exceeded create_collision : HaltReason
  create_contract_too_large precompile_failed state_modification_in_static : HaltReason
  invalid_code : HaltReason

pub data ExecutionStatus : Type 0 where
  success revert : ExecutionStatus
  halt : HaltReason → ExecutionStatus

-- The fields that the constructors below set; the others keep their empty defaults.
pub record ExecutionResult : Type 0 where
  pub status : ExecutionStatus
  pub gas_used : ℕ
  pub return_data : List ℕ

abbrev pub success_result : List ℕ → ℕ → ExecutionResult
success_result return_data gas_used = record {
  status = success;
  gas_used = gas_used;
  return_data = return_data;
}

abbrev pub revert_result : List ℕ → ℕ → ExecutionResult
revert_result return_data gas_used = record {
  status = revert;
  gas_used = gas_used;
  return_data = return_data;
}

abbrev pub halt_result : HaltReason → ℕ → ExecutionResult
halt_result reason gas_used = record { status = halt reason; gas_used = gas_used; return_data = [] }

pub record Interpreter : Type 0 where
  pub context : ExecutionContext
  pub state : State
  pub stack : Stack
  pub memory : Memory
  pub gas : Gas
  pub pc : ℕ
  pub return_data : List ℕ
  pub logs : List Log
  pub result : Option ExecutionResult

abbrev pub new : ExecutionContext → State → Interpreter
new context state = record {
  context = context;
  state = state;
  stack = Stack.new;
  memory = Memory.new;
  gas = Gas.new context.gas_limit;
  pc = 0;
  return_data = [];
  logs = [];
  result = none;
}

abbrev pub Evm : Type 0 → Type 0
Evm = M Interpreter EvmError

-- A method of the stack, of the memory or of the meter, called on the interpreter's.
unfoldable pub with_stack :
    {A : Type 0} → Interpreter → Outcome Stack EvmError A → Outcome Interpreter EvmError A
with_stack s (ok a t) = ok a (record s { stack = t })
with_stack s (err e t) = err e (record s { stack = t })
with_stack s panic = panic
with_stack s stuck = stuck

unfoldable pub on_stack : {A : Type 0} → M Stack EvmError A → Evm A
unfolding with_stack
on_stack m s = with_stack s (m s.stack)

unfoldable pub with_memory :
    {A : Type 0} → Interpreter → Outcome Memory EvmError A → Outcome Interpreter EvmError A
with_memory s (ok a t) = ok a (record s { memory = t })
with_memory s (err e t) = err e (record s { memory = t })
with_memory s panic = panic
with_memory s stuck = stuck

unfoldable pub on_memory : {A : Type 0} → M Memory EvmError A → Evm A
unfolding with_memory
on_memory m s = with_memory s (m s.memory)

unfoldable pub with_gas :
    {A : Type 0} → Interpreter → Outcome Gas EvmError A → Outcome Interpreter EvmError A
with_gas s (ok a g) = ok a (record s { gas = g })
with_gas s (err e g) = err e (record s { gas = g })
with_gas s panic = panic
with_gas s stuck = stuck

unfoldable pub consume : ℕ → Evm (Unit {0})
unfolding with_gas
consume amount s = with_gas s (Gas.consume amount s.gas)

unfoldable pub pop : Evm ℕ
pop = on_stack Stack.pop

unfoldable pub push : ℕ → Evm (Unit {0})
push value = on_stack (Stack.push value)

-- A value that may panic.
unfoldable pub unwrap : {A : Type 0} → Option A → Evm A
unwrap none s = panic
unwrap (some a) s = ok a s

-- `self.pc += 1`
unfoldable pub next : Evm (Unit {0})
next s = ok tt (record s { pc = suc s.pc })

unfoldable pub finish : ExecutionResult → Evm (Unit {0})
finish r s = ok tt (record s { result = some r })
