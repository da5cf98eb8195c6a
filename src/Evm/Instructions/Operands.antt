-- ===== src/Evm/Instructions/Operands.antt =====
-- crates/evm/src/interpreter.rs: the arms of `execute_opcode` for the operands on the stack, the logs, and the end of a run.
use ethereum_rust.Base.{◌-◌, ◌++◌, length, replicate}
use ethereum_rust.Base.Outcome.{◌>>=◌, ◌>>◌, gets}
use ethereum_rust.Evm.Library.{Library}
use ethereum_rust.Evm.Stack
use ethereum_rust.Evm.Memory
use ethereum_rust.Evm.GasCost
use ethereum_rust.Evm.Opcode.{Opcode}
use ethereum_rust.Evm.Machine.{
  Evm, success_result, revert_result, on_stack, consume, pop, push, unwrap, next,
}
use ethereum_rust.Evm.Instructions.{
  stop_with, pop_topics, refuse_static, immediate, skip_immediate, append_log,
}

module _ (lib : Library) where
  unfoldable pub operands : Opcode → Evm (Unit {0}) → Evm (Unit {0})
  operands Opcode.push0 otherwise = do consume GasCost.base; push 0; next
  operands (Opcode.push n) otherwise = do
    consume GasCost.verylow
    content ← gets (immediate n)
    push (lib.from_big_endian (replicate (32 - length content) 0 ++ content))
    skip_immediate n
  operands (Opcode.dup n) otherwise = do consume GasCost.verylow; on_stack (Stack.dup (n - 1)); next
  operands (Opcode.swap n) otherwise = do consume GasCost.verylow; on_stack (Stack.swap n); next
  operands (Opcode.log topic_count) otherwise = do
    refuse_static
    offset ← pop
    size ← pop
    topics ← pop_topics topic_count
    cost ← unwrap (GasCost.log_gas_cost lib topic_count size)
    consume cost
    i ← unwrap (lib.as_usize offset)
    n ← unwrap (lib.as_usize size)
    content ← gets λ s. Memory.get i n s.memory
    append_log topics content
    next
  operands Opcode.return otherwise = stop_with lib success_result
  operands Opcode.revert otherwise = stop_with lib revert_result
  operands _ otherwise = otherwise
