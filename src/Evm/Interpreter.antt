-- ===== src/Evm/Interpreter.antt =====
-- crates/evm/src/interpreter.rs: one instruction, and the loop of `run`.
pub mod Frame
pub mod Steps
pub mod Ends
pub mod Progress
pub mod Run
pub mod Height
pub mod Level
pub mod Balance
use ethereum_rust.Base.{
  ℕ, zero, suc, ◌+◌, ◌-◌, ◌*◌, ◌/◌, ◌%◌, ◌^◌, Bool, true, false, ◌&&◌, ◌||◌, not, List, [], ◌∷◌,
  ◌++◌, Option, none, some, ltb, leb, ◌==◌, if◌then◌else◌, length, get_elem?, take, drop, replicate,
  min,
}
use ethereum_rust.Base.Outcome.{
  Outcome, ok, err, panic, stuck, pure, fail, abort, ◌>>=◌, ◌>>◌, gets, modify,
}
use ethereum_rust.Evm.Library.{Library}
use ethereum_rust.Evm.Error.{EvmError}
use ethereum_rust.Evm.Error
use ethereum_rust.Evm.Stack
use ethereum_rust.Evm.Memory
use ethereum_rust.Evm.Gas
use ethereum_rust.Evm.GasCost
use ethereum_rust.Evm.State
use ethereum_rust.Evm.State.{or_zero, get_account, get_storage, set_storage, Account}
use ethereum_rust.Evm.Opcode.{Opcode, from_u8}
use ethereum_rust.Evm.Arity.{stack_inputs, stack_outputs}
use ethereum_rust.Evm.Machine.{
  Interpreter, Evm, HaltReason, ExecutionResult, Log, success_result, revert_result, halt_result,
  on_stack, on_memory, consume, pop, push, unwrap, next, finish,
}
use ethereum_rust.Evm.Arithmetic.{
  of_bool, address_from_u256, same, is_negative, signed_div, signed_mod, sign_extend,
  arithmetic_shr, addmod, mulmod, get_slice,
}
use ethereum_rust.Evm.Instructions.Compute.{compute}
use ethereum_rust.Evm.Instructions.Compare.{compare}
use ethereum_rust.Evm.Instructions.Environment.{environment}
use ethereum_rust.Evm.Instructions.Surroundings.{surroundings}
use ethereum_rust.Evm.Instructions.Flow.{flow}
use ethereum_rust.Evm.Instructions.Operands.{operands}

module _ (lib : Library) where
  -- The `match opcode`, group by group.
  unfoldable pub dispatch : Opcode → Evm (Unit {0})
  dispatch op = compute lib op (
      compare lib op
        (environment lib op (surroundings lib op (flow lib op (operands lib op next)))))

  unfoldable pub execute_opcode : Opcode → Evm (Unit {0})
  execute_opcode opcode = do
    on_stack (Stack.require (stack_inputs opcode))
    on_stack (Stack.limit_check (stack_outputs opcode - stack_inputs opcode))
    dispatch opcode

  unfoldable pub handle_error : EvmError → Interpreter → ExecutionResult
  handle_error EvmError.out_of_gas s = halt_result HaltReason.out_of_gas s.gas.limit
  handle_error EvmError.stack_overflow s = halt_result HaltReason.stack_overflow s.gas.used
  handle_error EvmError.stack_underflow s = halt_result HaltReason.stack_underflow s.gas.used
  handle_error (EvmError.invalid_jump d) s = halt_result HaltReason.invalid_jump s.gas.used
  handle_error (EvmError.invalid_opcode op) s =
      halt_result (HaltReason.invalid_opcode op) s.gas.used
  handle_error EvmError.static_call_state_modification s =
      halt_result HaltReason.state_modification_in_static s.gas.used
  handle_error _ s = halt_result HaltReason.invalid_code s.gas.used

  -- The end of an iteration of the loop: the run has a result, or it goes on.
  unfoldable pub resume :
      (Interpreter → Outcome Interpreter EvmError ExecutionResult)
      → Option ExecutionResult
      → Interpreter
      → Outcome Interpreter EvmError ExecutionResult
  resume again none t = again t
  resume again (some r) t = ok r t

  -- `match self.execute_opcode(opcode)`
  unfoldable pub settle :
      (Interpreter → Outcome Interpreter EvmError ExecutionResult)
      → Outcome Interpreter EvmError (Unit {0})
      → Outcome Interpreter EvmError ExecutionResult
  unfolding resume
  settle again (ok _ t) = resume again t.result t
  settle again (err e t) = ok (handle_error e t) t
  settle again panic = panic
  settle again stuck = stuck

  -- `match Opcode::from_u8(opcode_byte)`
  unfoldable pub decode :
      (Interpreter → Outcome Interpreter EvmError ExecutionResult)
      → ℕ
      → Option Opcode
      → Interpreter
      → Outcome Interpreter EvmError ExecutionResult
  decode again opcode_byte none s =
      ok (halt_result (HaltReason.invalid_opcode opcode_byte) s.gas.used) s
  decode again opcode_byte (some opcode) s = settle again (execute_opcode opcode s)

  -- The byte at `pc` is there as long as `pc` is below the length of the code.
  unfoldable pub fetch :
      (Interpreter → Outcome Interpreter EvmError ExecutionResult)
      → Option ℕ
      → Interpreter
      → Outcome Interpreter EvmError ExecutionResult
  fetch again none s = ok (success_result [] s.gas.used) s
  fetch again (some opcode_byte) s = decode again opcode_byte (from_u8 opcode_byte) s

  -- The loop of `run`, on fuel.
  unfoldable pub run : ℕ → Interpreter → Outcome Interpreter EvmError ExecutionResult
  unfolding fetch
  run zero s = stuck
  run (suc fuel) s = fetch (run fuel) (get_elem? s.context.code s.pc) s
