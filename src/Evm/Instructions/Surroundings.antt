-- ===== src/Evm/Instructions/Surroundings.antt =====
-- crates/evm/src/interpreter.rs: the arms of `execute_opcode` for the return data, and the block.
use ethereum_rust.Base.{ltb, ◌==◌, if◌then◌else◌, length}
use ethereum_rust.Base.Outcome.{fail, ◌>>=◌, ◌>>◌, gets}
use ethereum_rust.Evm.Library.{Library}
use ethereum_rust.Evm.Error.{EvmError}
use ethereum_rust.Evm.GasCost
use ethereum_rust.Evm.State.{or_zero, get_account}
use ethereum_rust.Evm.Opcode.{Opcode}
use ethereum_rust.Evm.Machine.{Evm, consume, pop, push, unwrap, next}
use ethereum_rust.Evm.Arithmetic.{address_from_u256, get_slice}
use ethereum_rust.Evm.Instructions.{nullary, copy_to_memory, account_or, block_hash}

module _ (lib : Library) where
  unfoldable pub surroundings : Opcode → Evm (Unit {0}) → Evm (Unit {0})
  surroundings Opcode.returndatasize otherwise = nullary GasCost.base λ s. length s.return_data
  surroundings Opcode.returndatacopy otherwise = do
    mem_offset ← pop
    data_offset ← pop
    size ← pop
    cost ← unwrap (GasCost.copy_gas_cost lib size)
    consume cost
    return_data ← gets λ s. s.return_data
    if ltb (length return_data) (lib.saturating_add data_offset size)
        then fail EvmError.return_data_out_of_bounds
        else copy_to_memory lib mem_offset (get_slice lib return_data data_offset size)
  surroundings Opcode.extcodehash otherwise = do
    address ← pop
    consume GasCost.extcodehash
    v ← gets λ s.
        account_or (get_account s.state (address_from_u256 address)) 0
          (λ a. if length a.code == 0 then 0 else lib.keccak256 a.code)
    push v
    next
  surroundings Opcode.blockhash otherwise = do
    block_number ← pop
    consume GasCost.blockhash
    hash ← gets (block_hash lib block_number)
    v ← unwrap hash
    push v
    next
  surroundings Opcode.coinbase otherwise = nullary GasCost.base λ s. s.context.block.coinbase
  surroundings Opcode.timestamp otherwise = nullary GasCost.base λ s. s.context.block.timestamp
  surroundings Opcode.number otherwise = nullary GasCost.base λ s. s.context.block.number
  surroundings Opcode.difficulty otherwise = nullary GasCost.base λ s. s.context.block.difficulty
  surroundings Opcode.gaslimit otherwise = nullary GasCost.base λ s. s.context.block.gas_limit
  surroundings Opcode.chainid otherwise = nullary GasCost.chainid λ s. s.context.block.chain_id
  surroundings Opcode.selfbalance otherwise =
      nullary GasCost.selfbalance
        λ s. account_or (get_account s.state s.context.address) 0 (λ a. a.balance)
  surroundings Opcode.basefee otherwise =
      nullary GasCost.basefee λ s. or_zero s.context.block.base_fee
  surroundings _ otherwise = otherwise
