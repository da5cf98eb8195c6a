-- ===== src/Evm/Arity.antt =====
-- crates/evm/src/opcodes.rs: how many words an opcode takes from the stack, and how many it leaves.
use ethereum_rust.Base.{ℕ, ◌+◌}
use ethereum_rust.Evm.Opcode.{Opcode}

unfoldable pub stack_inputs : Opcode → ℕ
stack_inputs Opcode.stop = 0
stack_inputs Opcode.add = 2
stack_inputs Opcode.mul = 2
stack_inputs Opcode.sub = 2
stack_inputs Opcode.div = 2
stack_inputs Opcode.sdiv = 2
stack_inputs Opcode.modulo = 2
stack_inputs Opcode.smod = 2
stack_inputs Opcode.addmod = 3
stack_inputs Opcode.mulmod = 3
stack_inputs Opcode.exp = 2
stack_inputs Opcode.signextend = 2
stack_inputs Opcode.lt = 2
stack_inputs Opcode.gt = 2
stack_inputs Opcode.slt = 2
stack_inputs Opcode.sgt = 2
stack_inputs Opcode.eq = 2
stack_inputs Opcode.iszero = 1
stack_inputs Opcode.and = 2
stack_inputs Opcode.or = 2
stack_inputs Opcode.xor = 2
stack_inputs Opcode.not = 1
stack_inputs Opcode.byte = 2
stack_inputs Opcode.shl = 2
stack_inputs Opcode.shr = 2
stack_inputs Opcode.sar = 2
stack_inputs Opcode.keccak256 = 2
stack_inputs Opcode.address = 0
stack_inputs Opcode.balance = 1
stack_inputs Opcode.origin = 0
stack_inputs Opcode.caller = 0
stack_inputs Opcode.callvalue = 0
stack_inputs Opcode.calldataload = 1
stack_inputs Opcode.calldatasize = 0
stack_inputs Opcode.calldatacopy = 3
stack_inputs Opcode.codesize = 0
stack_inputs Opcode.codecopy = 3
stack_inputs Opcode.gasprice = 0
stack_inputs Opcode.extcodesize = 1
stack_inputs Opcode.extcodecopy = 4
stack_inputs Opcode.returndatasize = 0
stack_inputs Opcode.returndatacopy = 3
stack_inputs Opcode.extcodehash = 1
stack_inputs Opcode.blockhash = 1
stack_inputs Opcode.coinbase = 0
stack_inputs Opcode.timestamp = 0
stack_inputs Opcode.number = 0
stack_inputs Opcode.difficulty = 0
stack_inputs Opcode.gaslimit = 0
stack_inputs Opcode.chainid = 0
stack_inputs Opcode.selfbalance = 0
stack_inputs Opcode.basefee = 0
stack_inputs Opcode.blobhash = 1
stack_inputs Opcode.blobbasefee = 0
stack_inputs Opcode.pop = 1
stack_inputs Opcode.mload = 1
stack_inputs Opcode.mstore = 2
stack_inputs Opcode.mstore8 = 2
stack_inputs Opcode.sload = 1
stack_inputs Opcode.sstore = 2
stack_inputs Opcode.jump = 1
stack_inputs Opcode.jumpi = 2
stack_inputs Opcode.pc = 0
stack_inputs Opcode.msize = 0
stack_inputs Opcode.gas = 0
stack_inputs Opcode.jumpdest = 0
stack_inputs Opcode.tload = 1
stack_inputs Opcode.tstore = 2
stack_inputs Opcode.mcopy = 3
stack_inputs Opcode.push0 = 0
stack_inputs Opcode.create = 3
stack_inputs Opcode.call = 7
stack_inputs Opcode.callcode = 7
stack_inputs Opcode.return = 2
stack_inputs Opcode.delegatecall = 6
stack_inputs Opcode.create2 = 4
stack_inputs Opcode.staticcall = 6
stack_inputs Opcode.revert = 2
stack_inputs Opcode.invalid = 0
stack_inputs Opcode.selfdestruct = 1
stack_inputs (Opcode.push n) = 0
stack_inputs (Opcode.dup n) = n
stack_inputs (Opcode.swap n) = n + 1
stack_inputs (Opcode.log n) = n + 2

unfoldable pub stack_outputs : Opcode → ℕ
stack_outputs Opcode.stop = 0
stack_outputs Opcode.add = 1
stack_outputs Opcode.mul = 1
stack_outputs Opcode.sub = 1
stack_outputs Opcode.div = 1
stack_outputs Opcode.sdiv = 1
stack_outputs Opcode.modulo = 1
stack_outputs Opcode.smod = 1
stack_outputs Opcode.addmod = 1
stack_outputs Opcode.mulmod = 1
stack_outputs Opcode.exp = 1
stack_outputs Opcode.signextend = 1
stack_outputs Opcode.lt = 1
stack_outputs Opcode.gt = 1
stack_outputs Opcode.slt = 1
stack_outputs Opcode.sgt = 1
stack_outputs Opcode.eq = 1
stack_outputs Opcode.iszero = 1
stack_outputs Opcode.and = 1
stack_outputs Opcode.or = 1
stack_outputs Opcode.xor = 1
stack_outputs Opcode.not = 1
stack_outputs Opcode.byte = 1
stack_outputs Opcode.shl = 1
stack_outputs Opcode.shr = 1
stack_outputs Opcode.sar = 1
stack_outputs Opcode.keccak256 = 1
stack_outputs Opcode.address = 1
stack_outputs Opcode.balance = 1
stack_outputs Opcode.origin = 1
stack_outputs Opcode.caller = 1
stack_outputs Opcode.callvalue = 1
stack_outputs Opcode.calldataload = 1
stack_outputs Opcode.calldatasize = 1
stack_outputs Opcode.calldatacopy = 0
stack_outputs Opcode.codesize = 1
stack_outputs Opcode.codecopy = 0
stack_outputs Opcode.gasprice = 1
stack_outputs Opcode.extcodesize = 1
stack_outputs Opcode.extcodecopy = 0
stack_outputs Opcode.returndatasize = 1
stack_outputs Opcode.returndatacopy = 0
stack_outputs Opcode.extcodehash = 1
stack_outputs Opcode.blockhash = 1
stack_outputs Opcode.coinbase = 1
stack_outputs Opcode.timestamp = 1
stack_outputs Opcode.number = 1
stack_outputs Opcode.difficulty = 1
stack_outputs Opcode.gaslimit = 1
stack_outputs Opcode.chainid = 1
stack_outputs Opcode.selfbalance = 1
stack_outputs Opcode.basefee = 1
stack_outputs Opcode.blobhash = 1
stack_outputs Opcode.blobbasefee = 1
stack_outputs Opcode.pop = 0
stack_outputs Opcode.mload = 1
stack_outputs Opcode.mstore = 0
stack_outputs Opcode.mstore8 = 0
stack_outputs Opcode.sload = 1
stack_outputs Opcode.sstore = 0
stack_outputs Opcode.jump = 0
stack_outputs Opcode.jumpi = 0
stack_outputs Opcode.pc = 1
stack_outputs Opcode.msize = 1
stack_outputs Opcode.gas = 1
stack_outputs Opcode.jumpdest = 0
stack_outputs Opcode.tload = 1
stack_outputs Opcode.tstore = 0
stack_outputs Opcode.mcopy = 0
stack_outputs Opcode.push0 = 1
stack_outputs Opcode.create = 1
stack_outputs Opcode.call = 1
stack_outputs Opcode.callcode = 1
stack_outputs Opcode.return = 0
stack_outputs Opcode.delegatecall = 1
stack_outputs Opcode.create2 = 1
stack_outputs Opcode.staticcall = 1
stack_outputs Opcode.revert = 0
stack_outputs Opcode.invalid = 0
stack_outputs Opcode.selfdestruct = 0
stack_outputs (Opcode.push n) = 1
stack_outputs (Opcode.dup n) = n + 1
stack_outputs (Opcode.swap n) = n + 1
stack_outputs (Opcode.log n) = 0
