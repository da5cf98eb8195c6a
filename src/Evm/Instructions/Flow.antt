-- ===== src/Evm/Instructions/Flow.antt =====
-- crates/evm/src/interpreter.rs: the arms of `execute_opcode` for memory, storage and jumps.
use ethereum_rust.Base.{◌==◌, if◌then◌else◌}
use ethereum_rust.Base.Outcome.{◌>>=◌, ◌>>◌, gets}
use ethereum_rust.Evm.Library.{Library}
use ethereum_rust.Evm.Memory
use ethereum_rust.Evm.Gas
use ethereum_rust.Evm.GasCost
use ethereum_rust.Evm.State.{get_storage}
use ethereum_rust.Evm.Opcode.{Opcode}
use ethereum_rust.Evm.Machine.{Evm, on_memory, consume, pop, push, unwrap, next}
use ethereum_rust.Evm.Instructions.{jump, nullary, refuse_static, write}

module _ (lib : Library) where
  unfoldable pub flow : Opcode → Evm (Unit {0}) → Evm (Unit {0})
  flow Opcode.pop otherwise = do consume GasCost.base; _ ← pop; next
  flow Opcode.mload otherwise = do
    consume GasCost.verylow
    offset ← pop
    i ← unwrap (lib.as_usize offset)
    content ← gets λ s. Memory.get i 32 s.memory
    push (lib.from_big_endian content)
    next
  flow Opcode.mstore otherwise = do
    consume GasCost.verylow
    offset ← pop
    value ← pop
    i ← unwrap (lib.as_usize offset)
    on_memory (Memory.set i (lib.to_big_endian value))
    next
  flow Opcode.mstore8 otherwise = do
    consume GasCost.verylow
    offset ← pop
    value ← pop
    i ← unwrap (lib.as_usize offset)
    on_memory (Memory.set_byte i (lib.byte value 31))
    next
  flow Opcode.sload otherwise = do
    key ← pop
    consume GasCost.sload
    v ← gets λ s. get_storage s.state s.context.address key
    push v
    next
  flow Opcode.sstore otherwise = do
    refuse_static
    key ← pop
    value ← pop
    consume GasCost.sset
    write key value
    next
  flow Opcode.jump otherwise = do
    consume GasCost.mid
    dest ← pop
    i ← unwrap (lib.as_usize dest)
    jump i
  flow Opcode.jumpi otherwise = do
    consume GasCost.high
    dest ← pop
    cond ← pop
    if cond == 0 then next else (do i ← unwrap (lib.as_usize dest); jump i)
  flow Opcode.pc otherwise = nullary GasCost.base λ s. s.pc
  flow Opcode.msize otherwise = nullary GasCost.base λ s. Memory.len s.memory
  flow Opcode.gas otherwise = nullary GasCost.base λ s. Gas.remaining s.gas
  flow Opcode.jumpdest otherwise = do consume GasCost.jumpdest; next
  flow _ otherwise = otherwise
