-- ===== src/Evm/Opcode.antt =====
-- crates/evm/src/opcodes.rs. `push n` stands for PUSHn with n from 1 to 32, `dup n` and `swap n` for
-- DUPn and SWAPn with n from 1 to 16, `log n` for LOGn with n up to 4.
use ethereum_rust.Base.{
  ℕ, ◌+◌, ◌-◌, Bool, ◌&&◌, List, [], ◌∷◌, Option, none, some, leb, ◌==◌, if◌then◌else◌,
}

pub data Opcode : Type 0 where
  stop add mul sub div sdiv modulo smod addmod mulmod exp signextend : Opcode
  lt gt slt sgt eq iszero and or xor not byte shl shr sar keccak256 : Opcode
  address balance origin caller callvalue calldataload calldatasize calldatacopy : Opcode
  codesize codecopy gasprice extcodesize extcodecopy returndatasize returndatacopy : Opcode
  extcodehash blockhash coinbase timestamp number difficulty gaslimit chainid : Opcode
  selfbalance basefee blobhash blobbasefee : Opcode
  pop mload mstore mstore8 sload sstore jump jumpi pc msize gas jumpdest : Opcode
  tload tstore mcopy push0 : Opcode
  push dup swap log : ℕ → Opcode
  create call callcode return delegatecall create2 staticcall revert invalid : Opcode
  selfdestruct : Opcode

-- `self as u8`
unfoldable pub to_u8 : Opcode → ℕ
to_u8 Opcode.stop = 0x00
to_u8 Opcode.add = 0x01
to_u8 Opcode.mul = 0x02
to_u8 Opcode.sub = 0x03
to_u8 Opcode.div = 0x04
to_u8 Opcode.sdiv = 0x05
to_u8 Opcode.modulo = 0x06
to_u8 Opcode.smod = 0x07
to_u8 Opcode.addmod = 0x08
to_u8 Opcode.mulmod = 0x09
to_u8 Opcode.exp = 0x0a
to_u8 Opcode.signextend = 0x0b
to_u8 Opcode.lt = 0x10
to_u8 Opcode.gt = 0x11
to_u8 Opcode.slt = 0x12
to_u8 Opcode.sgt = 0x13
to_u8 Opcode.eq = 0x14
to_u8 Opcode.iszero = 0x15
to_u8 Opcode.and = 0x16
to_u8 Opcode.or = 0x17
to_u8 Opcode.xor = 0x18
to_u8 Opcode.not = 0x19
to_u8 Opcode.byte = 0x1a
to_u8 Opcode.shl = 0x1b
to_u8 Opcode.shr = 0x1c
to_u8 Opcode.sar = 0x1d
to_u8 Opcode.keccak256 = 0x20
to_u8 Opcode.address = 0x30
to_u8 Opcode.balance = 0x31
to_u8 Opcode.origin = 0x32
to_u8 Opcode.caller = 0x33
to_u8 Opcode.callvalue = 0x34
to_u8 Opcode.calldataload = 0x35
to_u8 Opcode.calldatasize = 0x36
to_u8 Opcode.calldatacopy = 0x37
to_u8 Opcode.codesize = 0x38
to_u8 Opcode.codecopy = 0x39
to_u8 Opcode.gasprice = 0x3a
to_u8 Opcode.extcodesize = 0x3b
to_u8 Opcode.extcodecopy = 0x3c
to_u8 Opcode.returndatasize = 0x3d
to_u8 Opcode.returndatacopy = 0x3e
to_u8 Opcode.extcodehash = 0x3f
to_u8 Opcode.blockhash = 0x40
to_u8 Opcode.coinbase = 0x41
to_u8 Opcode.timestamp = 0x42
to_u8 Opcode.number = 0x43
to_u8 Opcode.difficulty = 0x44
to_u8 Opcode.gaslimit = 0x45
to_u8 Opcode.chainid = 0x46
to_u8 Opcode.selfbalance = 0x47
to_u8 Opcode.basefee = 0x48
to_u8 Opcode.blobhash = 0x49
to_u8 Opcode.blobbasefee = 0x4a
to_u8 Opcode.pop = 0x50
to_u8 Opcode.mload = 0x51
to_u8 Opcode.mstore = 0x52
to_u8 Opcode.mstore8 = 0x53
to_u8 Opcode.sload = 0x54
to_u8 Opcode.sstore = 0x55
to_u8 Opcode.jump = 0x56
to_u8 Opcode.jumpi = 0x57
to_u8 Opcode.pc = 0x58
to_u8 Opcode.msize = 0x59
to_u8 Opcode.gas = 0x5a
to_u8 Opcode.jumpdest = 0x5b
to_u8 Opcode.tload = 0x5c
to_u8 Opcode.tstore = 0x5d
to_u8 Opcode.mcopy = 0x5e
to_u8 Opcode.push0 = 0x5f
to_u8 Opcode.create = 0xf0
to_u8 Opcode.call = 0xf1
to_u8 Opcode.callcode = 0xf2
to_u8 Opcode.return = 0xf3
to_u8 Opcode.delegatecall = 0xf4
to_u8 Opcode.create2 = 0xf5
to_u8 Opcode.staticcall = 0xfa
to_u8 Opcode.revert = 0xfd
to_u8 Opcode.invalid = 0xfe
to_u8 Opcode.selfdestruct = 0xff
to_u8 (Opcode.push n) = 0x5f + n
to_u8 (Opcode.dup n) = 0x7f + n
to_u8 (Opcode.swap n) = 0x8f + n
to_u8 (Opcode.log n) = 0xa0 + n

-- The bytes of the opcodes that stand alone.
abbrev pub singles : List (ℕ × Opcode)
singles =
    (0x00, Opcode.stop)
    ∷ (0x01, Opcode.add)
    ∷ (0x02, Opcode.mul)
    ∷ (0x03, Opcode.sub)
    ∷ (0x04, Opcode.div)
    ∷ (0x05, Opcode.sdiv)
    ∷ (0x06, Opcode.modulo)
    ∷ (0x07, Opcode.smod)
    ∷ (0x08, Opcode.addmod)
    ∷ (0x09, Opcode.mulmod)
    ∷ (0x0a, Opcode.exp)
    ∷ (0x0b, Opcode.signextend)
    ∷ (0x10, Opcode.lt)
    ∷ (0x11, Opcode.gt)
    ∷ (0x12, Opcode.slt)
    ∷ (0x13, Opcode.sgt)
    ∷ (0x14, Opcode.eq)
    ∷ (0x15, Opcode.iszero)
    ∷ (0x16, Opcode.and)
    ∷ (0x17, Opcode.or)
    ∷ (0x18, Opcode.xor)
    ∷ (0x19, Opcode.not)
    ∷ (0x1a, Opcode.byte)
    ∷ (0x1b, Opcode.shl)
    ∷ (0x1c, Opcode.shr)
    ∷ (0x1d, Opcode.sar)
    ∷ (0x20, Opcode.keccak256)
    ∷ (0x30, Opcode.address)
    ∷ (0x31, Opcode.balance)
    ∷ (0x32, Opcode.origin)
    ∷ (0x33, Opcode.caller)
    ∷ (0x34, Opcode.callvalue)
    ∷ (0x35, Opcode.calldataload)
    ∷ (0x36, Opcode.calldatasize)
    ∷ (0x37, Opcode.calldatacopy)
    ∷ (0x38, Opcode.codesize)
    ∷ (0x39, Opcode.codecopy)
    ∷ (0x3a, Opcode.gasprice)
    ∷ (0x3b, Opcode.extcodesize)
    ∷ (0x3c, Opcode.extcodecopy)
    ∷ (0x3d, Opcode.returndatasize)
    ∷ (0x3e, Opcode.returndatacopy)
    ∷ (0x3f, Opcode.extcodehash)
    ∷ (0x40, Opcode.blockhash)
    ∷ (0x41, Opcode.coinbase)
    ∷ (0x42, Opcode.timestamp)
    ∷ (0x43, Opcode.number)
    ∷ (0x44, Opcode.difficulty)
    ∷ (0x45, Opcode.gaslimit)
    ∷ (0x46, Opcode.chainid)
    ∷ (0x47, Opcode.selfbalance)
    ∷ (0x48, Opcode.basefee)
    ∷ (0x49, Opcode.blobhash)
    ∷ (0x4a, Opcode.blobbasefee)
    ∷ (0x50, Opcode.pop)
    ∷ (0x51, Opcode.mload)
    ∷ (0x52, Opcode.mstore)
    ∷ (0x53, Opcode.mstore8)
    ∷ (0x54, Opcode.sload)
    ∷ (0x55, Opcode.sstore)
    ∷ (0x56, Opcode.jump)
    ∷ (0x57, Opcode.jumpi)
    ∷ (0x58, Opcode.pc)
    ∷ (0x59, Opcode.msize)
    ∷ (0x5a, Opcode.gas)
    ∷ (0x5b, Opcode.jumpdest)
    ∷ (0x5c, Opcode.tload)
    ∷ (0x5d, Opcode.tstore)
    ∷ (0x5e, Opcode.mcopy)
    ∷ (0x5f, Opcode.push0)
    ∷ (0xf0, Opcode.create)
    ∷ (0xf1, Opcode.call)
    ∷ (0xf2, Opcode.callcode)
    ∷ (0xf3, Opcode.return)
    ∷ (0xf4, Opcode.delegatecall)
    ∷ (0xf5, Opcode.create2)
    ∷ (0xfa, Opcode.staticcall)
    ∷ (0xfd, Opcode.revert)
    ∷ (0xfe, Opcode.invalid)
    ∷ (0xff, Opcode.selfdestruct)
    ∷ []

unfoldable pub find : ℕ → List (ℕ × Opcode) → Option Opcode
find code [] = none
find code ((b, op) ∷ rest) = if code == b then some op else find code rest

abbrev pub between : ℕ → ℕ → ℕ → Bool
between lo hi b = leb lo b && leb b hi

unfoldable pub from_u8 : ℕ → Option Opcode
unfolding find
from_u8 code =
    if between 0x60 0x7f code
    then some (Opcode.push (code - 0x5f))
    else if between 0x80 0x8f code
    then some (Opcode.dup (code - 0x7f))
    else if between 0x90 0x9f code
    then some (Opcode.swap (code - 0x8f))
    else if between 0xa0 0xa4 code
    then some (Opcode.log (code - 0xa0))
    else find code singles
