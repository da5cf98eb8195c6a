-- ===== src/Evm/Instructions/Environment.antt =====
-- crates/evm/src/interpreter.rs: the arms of `execute_opcode` for the hash, and the account, the call and its data.
use ethereum_rust.Base.{none, some, length, replicate}
use ethereum_rust.Base.Outcome.{◌>>=◌, ◌>>◌, gets}
use ethereum_rust.Evm.Library.{Library}
use ethereum_rust.Evm.Memory
use ethereum_rust.Evm.GasCost
use ethereum_rust.Evm.State.{get_account}
use ethereum_rust.Evm.Opcode.{Opcode}
use ethereum_rust.Evm.Machine.{Evm, consume, pop, push, unwrap, next}
use ethereum_rust.Evm.Arithmetic.{address_from_u256, get_slice}
use ethereum_rust.Evm.Instructions.{nullary, copy_to_memory, account_or}

module _ (lib : Library) where
  unfoldable pub environment : Opcode → Evm (Unit {0}) → Evm (Unit {0})
  environment Opcode.keccak256 otherwise = do
    offset ← pop
    size ← pop
    cost ← unwrap (GasCost.keccak256_gas_cost lib size)
    consume cost
    i ← unwrap (lib.as_usize offset)
    n ← unwrap (lib.as_usize size)
    content ← gets λ s. Memory.get i n s.memory
    push (lib.keccak256 content)
    next
  environment Opcode.address otherwise = nullary GasCost.base λ s. s.context.address
  environment Opcode.balance otherwise = do
    address ← pop
    consume GasCost.balance
    v ← gets λ s. account_or (get_account s.state (address_from_u256 address)) 0 (λ a. a.balance)
    push v
    next
  environment Opcode.origin otherwise = nullary GasCost.base λ s. s.context.origin
  environment Opcode.caller otherwise = nullary GasCost.base λ s. s.context.caller
  environment Opcode.callvalue otherwise = nullary GasCost.base λ s. s.context.value
  environment Opcode.calldataload otherwise = do
    consume GasCost.verylow
    offset ← pop
    slice ← gets λ s. get_slice lib s.context.input offset 32
    content ← unwrap slice
    push (lib.from_big_endian content)
    next
  environment Opcode.calldatasize otherwise = nullary GasCost.base λ s. length s.context.input
  environment Opcode.calldatacopy otherwise = do
    mem_offset ← pop
    data_offset ← pop
    size ← pop
    cost ← unwrap (GasCost.copy_gas_cost lib size)
    consume cost
    slice ← gets λ s. get_slice lib s.context.input data_offset size
    copy_to_memory lib mem_offset slice
  environment Opcode.codesize otherwise = nullary GasCost.base λ s. length s.context.code
  environment Opcode.codecopy otherwise = do
    mem_offset ← pop
    code_offset ← pop
    size ← pop
    cost ← unwrap (GasCost.copy_gas_cost lib size)
    consume cost
    slice ← gets λ s. get_slice lib s.context.code code_offset size
    copy_to_memory lib mem_offset slice
  environment Opcode.gasprice otherwise = nullary GasCost.base λ s. s.context.gas_price
  environment Opcode.extcodesize otherwise = do
    address ← pop
    consume GasCost.extcodesize
    v ←
        gets
          λ s. account_or (get_account s.state (address_from_u256 address)) 0 (λ a. length a.code)
    push v
    next
  environment Opcode.extcodecopy otherwise = do
    address ← pop
    mem_offset ← pop
    code_offset ← pop
    size ← pop
    consume GasCost.extcodecopy
    cost ← unwrap (GasCost.copy_gas_cost lib size)
    consume cost
    slice ← gets λ s.
        account_or (get_account s.state (address_from_u256 address))
          (elim (lib.as_usize size) [ none ↦ none | some n ↦ some (replicate n 0) ])
          (λ a. get_slice lib a.code code_offset size)
    copy_to_memory lib mem_offset slice
  environment _ otherwise = otherwise
