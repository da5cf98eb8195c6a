-- ===== src/Evm/Interpreter/Progress.antt =====
-- Every instruction of `execute_opcode` makes progress: it ends the run, moves the program counter
-- forward, or charges gas; and it keeps the frame.
use ethereum_rust.Base.{ℕ, List, Option, arith}
use ethereum_rust.Evm.Library.{Library}
use ethereum_rust.Evm.GasCost
use ethereum_rust.Evm.Opcode.{Opcode}
use ethereum_rust.Evm.Machine.{Interpreter, Evm, ExecutionResult}
use ethereum_rust.Evm.Instructions.{binary, nullary, copy_to_memory, stop_with}
use ethereum_rust.Evm.Instructions.Compute.{compute}
use ethereum_rust.Evm.Instructions.Compare.{compare}
use ethereum_rust.Evm.Instructions.Environment.{environment}
use ethereum_rust.Evm.Instructions.Surroundings.{surroundings}
use ethereum_rust.Evm.Instructions.Flow.{flow}
use ethereum_rust.Evm.Instructions.Operands.{operands}
use ethereum_rust.Evm.Interpreter.{dispatch, execute_opcode}
use ethereum_rust.Evm.Interpreter.Frame.{
  Advances, Advances-bind, Advances-then, Advances-if, Advances-fail, Roams-bind, Roams-then,
  Roams-if, Steady-Roams,
}
use ethereum_rust.Evm.Interpreter.Steps.{steady_rules}
use ethereum_rust.Evm.Interpreter.Ends.{
  next-Advances, finish-Advances, next-Roams, jump-Roams, charge-Advances, Changes-bind,
  Changes-then, write-Changes, append_log-Changes, refuse_static-Advances, skip_immediate-Advances,
}

ruleset advance_rules = (
  Advances-bind, Advances-then, Advances-if, Advances-fail, next-Advances, finish-Advances,
  skip_immediate-Advances, steady_rules,
)

binary-Advances : (cost : ℕ) (f : ℕ → ℕ → ℕ) → Advances (binary cost f)
unfolding binary
binary-Advances cost f = search (advance_rules) depth 12

nullary-Advances : (cost : ℕ) (f : Interpreter → ℕ) → Advances (nullary cost f)
unfolding nullary
nullary-Advances cost f = search (advance_rules) depth 12

copy_to_memory-Advances :
    (lib : Library) (mem_offset : ℕ) (slice : Option (List ℕ))
    → Advances (copy_to_memory lib mem_offset slice)
unfolding copy_to_memory
copy_to_memory-Advances lib mem_offset slice = search (advance_rules) depth 12

stop_with-Advances :
    (lib : Library) (result : List ℕ → ℕ → ExecutionResult) → Advances (stop_with lib result)
unfolding stop_with
stop_with-Advances lib result = search (advance_rules) depth 16

ruleset dispatch_rules =
    (binary-Advances, nullary-Advances, copy_to_memory-Advances, stop_with-Advances, advance_rules)

ruleset roam_rules =
    (Roams-bind, Roams-then, Roams-if, Steady-Roams, next-Roams, jump-Roams, steady_rules)

ruleset change_rules = (Changes-bind, Changes-then, write-Changes, append_log-Changes, steady_rules)

module _ (lib : Library) where
  compute-Advances : (op : Opcode) {m : Evm (Unit {0})} → Advances m → Advances (compute lib op m)
  unfolding compute
  compute-Advances Opcode.stop h = search (dispatch_rules) depth 24
  compute-Advances Opcode.add h = binary-Advances _ _
  compute-Advances Opcode.mul h = binary-Advances _ _
  compute-Advances Opcode.sub h = binary-Advances _ _
  compute-Advances Opcode.div h = binary-Advances _ _
  compute-Advances Opcode.sdiv h = binary-Advances _ _
  compute-Advances Opcode.modulo h = binary-Advances _ _
  compute-Advances Opcode.smod h = binary-Advances _ _
  compute-Advances Opcode.addmod h = search (dispatch_rules) depth 24
  compute-Advances Opcode.mulmod h = search (dispatch_rules) depth 24
  compute-Advances Opcode.exp h = search (dispatch_rules) depth 24
  compute-Advances Opcode.signextend h = search (dispatch_rules) depth 24
  compute-Advances _ h = h

  compare-Advances : (op : Opcode) {m : Evm (Unit {0})} → Advances m → Advances (compare lib op m)
  unfolding compare
  compare-Advances Opcode.lt h = binary-Advances _ _
  compare-Advances Opcode.gt h = binary-Advances _ _
  compare-Advances Opcode.slt h = binary-Advances _ _
  compare-Advances Opcode.sgt h = binary-Advances _ _
  compare-Advances Opcode.eq h = binary-Advances _ _
  compare-Advances Opcode.iszero h = search (dispatch_rules) depth 24
  compare-Advances Opcode.and h = binary-Advances _ _
  compare-Advances Opcode.or h = binary-Advances _ _
  compare-Advances Opcode.xor h = binary-Advances _ _
  compare-Advances Opcode.not h = search (dispatch_rules) depth 24
  compare-Advances Opcode.byte h = search (dispatch_rules) depth 24
  compare-Advances Opcode.shl h = search (dispatch_rules) depth 24
  compare-Advances Opcode.shr h = search (dispatch_rules) depth 24
  compare-Advances Opcode.sar h = search (dispatch_rules) depth 24
  compare-Advances _ h = h

  environment-Advances :
      (op : Opcode) {m : Evm (Unit {0})} → Advances m → Advances (environment lib op m)
  unfolding environment
  environment-Advances Opcode.keccak256 h = search (dispatch_rules) depth 24
  environment-Advances Opcode.address h = nullary-Advances _ _
  environment-Advances Opcode.balance h = search (dispatch_rules) depth 24
  environment-Advances Opcode.origin h = nullary-Advances _ _
  environment-Advances Opcode.caller h = nullary-Advances _ _
  environment-Advances Opcode.callvalue h = nullary-Advances _ _
  environment-Advances Opcode.calldataload h = search (dispatch_rules) depth 24
  environment-Advances Opcode.calldatasize h = nullary-Advances _ _
  environment-Advances Opcode.calldatacopy h = search (dispatch_rules) depth 24
  environment-Advances Opcode.codesize h = nullary-Advances _ _
  environment-Advances Opcode.codecopy h = search (dispatch_rules) depth 24
  environment-Advances Opcode.gasprice h = nullary-Advances _ _
  environment-Advances Opcode.extcodesize h = search (dispatch_rules) depth 24
  environment-Advances Opcode.extcodecopy h = search (dispatch_rules) depth 24
  environment-Advances _ h = h

  surroundings-Advances :
      (op : Opcode) {m : Evm (Unit {0})} → Advances m → Advances (surroundings lib op m)
  unfolding surroundings
  surroundings-Advances Opcode.returndatasize h = nullary-Advances _ _
  surroundings-Advances Opcode.returndatacopy h = search (dispatch_rules) depth 24
  surroundings-Advances Opcode.extcodehash h = search (dispatch_rules) depth 24
  surroundings-Advances Opcode.blockhash h = search (dispatch_rules) depth 24
  surroundings-Advances Opcode.coinbase h = nullary-Advances _ _
  surroundings-Advances Opcode.timestamp h = nullary-Advances _ _
  surroundings-Advances Opcode.number h = nullary-Advances _ _
  surroundings-Advances Opcode.difficulty h = nullary-Advances _ _
  surroundings-Advances Opcode.gaslimit h = nullary-Advances _ _
  surroundings-Advances Opcode.chainid h = nullary-Advances _ _
  surroundings-Advances Opcode.selfbalance h = nullary-Advances _ _
  surroundings-Advances Opcode.basefee h = nullary-Advances _ _
  surroundings-Advances _ h = h

  flow-Advances : (op : Opcode) {m : Evm (Unit {0})} → Advances m → Advances (flow lib op m)
  unfolding flow
  flow-Advances Opcode.pop h = search (dispatch_rules) depth 24
  flow-Advances Opcode.mload h = search (dispatch_rules) depth 24
  flow-Advances Opcode.mstore h = search (dispatch_rules) depth 24
  flow-Advances Opcode.mstore8 h = search (dispatch_rules) depth 24
  flow-Advances Opcode.sload h = search (dispatch_rules) depth 24
  flow-Advances Opcode.sstore h = refuse_static-Advances (search (change_rules) depth 24)
  flow-Advances Opcode.jump h =
      charge-Advances GasCost.mid (omega arith) (search (roam_rules) depth 16)
  flow-Advances Opcode.jumpi h =
      charge-Advances GasCost.high (omega arith) (search (roam_rules) depth 16)
  flow-Advances Opcode.pc h = nullary-Advances _ _
  flow-Advances Opcode.msize h = nullary-Advances _ _
  flow-Advances Opcode.gas h = nullary-Advances _ _
  flow-Advances Opcode.jumpdest h = search (dispatch_rules) depth 24
  flow-Advances _ h = h

  operands-Advances : (op : Opcode) {m : Evm (Unit {0})} → Advances m → Advances (operands lib op m)
  unfolding operands
  operands-Advances Opcode.push0 h = search (dispatch_rules) depth 24
  operands-Advances (Opcode.push n) h = search (dispatch_rules) depth 24
  operands-Advances (Opcode.dup n) h = search (dispatch_rules) depth 24
  operands-Advances (Opcode.swap n) h = search (dispatch_rules) depth 24
  operands-Advances (Opcode.log topic_count) h =
      refuse_static-Advances (search (change_rules) depth 24)
  operands-Advances Opcode.return h = stop_with-Advances lib _
  operands-Advances Opcode.revert h = stop_with-Advances lib _
  operands-Advances _ h = h

  pub dispatch-Advances : (op : Opcode) → Advances (dispatch lib op)
  unfolding dispatch
  dispatch-Advances op = compute-Advances op (
      compare-Advances op (
        environment-Advances op
          (surroundings-Advances op (flow-Advances op (operands-Advances op next-Advances)))))

  pub execute_opcode-Advances : (op : Opcode) → Advances (execute_opcode lib op)
  unfolding execute_opcode
  execute_opcode-Advances op = search (dispatch-Advances op, advance_rules) depth 12
