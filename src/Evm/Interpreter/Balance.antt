-- ===== src/Evm/Interpreter/Balance.antt =====
-- The tables of crates/evm/src/opcodes.rs against the instructions of crates/evm/src/interpreter.rs.
use ethereum_rust.Base.{
  ℕ, zero, suc, ◌+◌, ◌-◌, ◌≤◌, ◌<◌, ◌≡◌, ◌≢◌, ◌⊎◌, refl, ap, subst, Bool, true, false, some, arith,
  length, inl, inr,
}
use ethereum_rust.Base.Outcome.{Outcome, ok, err, ◌>>◌}
use ethereum_rust.Evm.Library.{Library}
use ethereum_rust.Evm.Error
use ethereum_rust.Evm.Error.{EvmError}
use ethereum_rust.Evm.Stack
use ethereum_rust.Evm.Stack.{Stack, StackM}
use ethereum_rust.Evm.Opcode.{Opcode, to_u8, from_u8}
use ethereum_rust.Evm.Arity.{stack_inputs, stack_outputs}
use ethereum_rust.Evm.Machine.{Interpreter, with_stack, on_stack, next}
use ethereum_rust.Evm.Instructions.Compute.{compute}
use ethereum_rust.Evm.Instructions.Compare.{compare}
use ethereum_rust.Evm.Instructions.Environment.{environment}
use ethereum_rust.Evm.Instructions.Surroundings.{surroundings}
use ethereum_rust.Evm.Instructions.Flow.{flow}
use ethereum_rust.Evm.Instructions.Operands.{operands}
use ethereum_rust.Evm.Interpreter.{dispatch, execute_opcode}
use ethereum_rust.Evm.Interpreter.Height.{
  Height, floor, word, above, words, above-words, Lands, returns, raises, panics, Goes, Goes-then,
  on_stack-Goes, dup_lands, swap_lands, StackLands,
}
use ethereum_rust.Evm.Interpreter.Level.{
  level_then, topics_bind, binary-Goes, nullary-Goes, copy_to_memory-Level, stop_with-Goes,
  Level-consume, level_after, height_rules,
}

-- The opcodes without an arm of their own in the `match opcode`: `_ => { self.pc += 1; Ok(()) }`.
unfoldable pub falls_through : Opcode → Bool
falls_through Opcode.blobhash = true
falls_through Opcode.blobbasefee = true
falls_through Opcode.tload = true
falls_through Opcode.tstore = true
falls_through Opcode.mcopy = true
falls_through Opcode.create = true
falls_through Opcode.call = true
falls_through Opcode.callcode = true
falls_through Opcode.delegatecall = true
falls_through Opcode.create2 = true
falls_through Opcode.staticcall = true
falls_through Opcode.invalid = true
falls_through Opcode.selfdestruct = true
falls_through _ = false

-- The opcodes that a byte stands for: no DUP0, no SWAP0.
abbrev pub IsEncoded : Opcode → Type 0
IsEncoded op = from_u8 (to_u8 op) ≡ some op

dup-pos : (n : ℕ) → IsEncoded (Opcode.dup n) → 0 < n
unfolding from_u8 to_u8
dup-pos zero h = cc
dup-pos (suc n) h = omega arith

abbrev Balanced : Library → Opcode → Type 0
Balanced lib op =
    Goes (words (stack_inputs op) floor) (words (stack_outputs op) floor) (dispatch lib op)

dup_balances :
    (n base : ℕ) (t : Stack)
    → 0 < n
    → length t.items ≡ above (words n floor) base
    → StackLands (above (words (n + 1) floor) base) (Stack.dup (n - 1) t)
unfolding above
dup_balances n base t h e =
    subst (λ k. StackLands k (Stack.dup (n - 1) t))
      (omega (arith, above-words n floor base, above-words (n + 1) floor base))
      (dup_lands (n - 1) (words n floor) base t (omega (arith, above-words n floor base)) e)

swap_balances :
    (n base : ℕ) (t : Stack)
    → length t.items ≡ above (words (n + 1) floor) base
    → StackLands (above (words (n + 1) floor) base) (Stack.swap n t)
swap_balances n base t e =
    swap_lands n (words (n + 1) floor) base t (omega (arith, above-words (n + 1) floor base)) e

dup-Goes :
    (n : ℕ)
    → 0 < n
    → Goes (words n floor) (words (n + 1) floor) (on_stack (Stack.dup (n - 1)) >> next)
dup-Goes n h = level_after (on_stack-Goes (Stack.dup (n - 1)) λ base t e. dup_balances n base t h e)

swap-Goes :
    (n : ℕ) → Goes (words (n + 1) floor) (words (n + 1) floor) (on_stack (Stack.swap n) >> next)
swap-Goes n = level_after (on_stack-Goes (Stack.swap n) λ base t e. swap_balances n base t e)

two_words : (n : ℕ) → word (word (words n floor)) ≡ words (n + 2) floor
unfolding words
two_words n = ap (λ k. words k floor) {x = suc (suc n)} (omega arith)

ruleset instruction_rules = (copy_to_memory-Level, height_rules)

module _ (lib : Library) where
  -- An instruction goes from the words that it takes to the words that it leaves.
  pub dispatch-Balanced : (op : Opcode) → falls_through op ≡ false → IsEncoded op → Balanced lib op
  unfolding dispatch compute compare environment surroundings flow operands stack_inputs
      stack_outputs falls_through words
  dispatch-Balanced Opcode.stop h e = search (instruction_rules) depth 24
  dispatch-Balanced Opcode.add h e = binary-Goes _ _
  dispatch-Balanced Opcode.mul h e = binary-Goes _ _
  dispatch-Balanced Opcode.sub h e = binary-Goes _ _
  dispatch-Balanced Opcode.div h e = binary-Goes _ _
  dispatch-Balanced Opcode.sdiv h e = binary-Goes _ _
  dispatch-Balanced Opcode.modulo h e = binary-Goes _ _
  dispatch-Balanced Opcode.smod h e = binary-Goes _ _
  dispatch-Balanced Opcode.addmod h e = search (instruction_rules) depth 24
  dispatch-Balanced Opcode.mulmod h e = search (instruction_rules) depth 24
  dispatch-Balanced Opcode.exp h e = search (instruction_rules) depth 24
  dispatch-Balanced Opcode.signextend h e = search (instruction_rules) depth 24
  dispatch-Balanced Opcode.lt h e = binary-Goes _ _
  dispatch-Balanced Opcode.gt h e = binary-Goes _ _
  dispatch-Balanced Opcode.slt h e = binary-Goes _ _
  dispatch-Balanced Opcode.sgt h e = binary-Goes _ _
  dispatch-Balanced Opcode.eq h e = binary-Goes _ _
  dispatch-Balanced Opcode.iszero h e = search (instruction_rules) depth 24
  dispatch-Balanced Opcode.and h e = binary-Goes _ _
  dispatch-Balanced Opcode.or h e = binary-Goes _ _
  dispatch-Balanced Opcode.xor h e = binary-Goes _ _
  dispatch-Balanced Opcode.not h e = search (instruction_rules) depth 24
  dispatch-Balanced Opcode.byte h e = search (instruction_rules) depth 24
  dispatch-Balanced Opcode.shl h e = search (instruction_rules) depth 24
  dispatch-Balanced Opcode.shr h e = search (instruction_rules) depth 24
  dispatch-Balanced Opcode.sar h e = search (instruction_rules) depth 24
  dispatch-Balanced Opcode.keccak256 h e = search (instruction_rules) depth 24
  dispatch-Balanced Opcode.address h e = nullary-Goes _ _
  dispatch-Balanced Opcode.balance h e = search (instruction_rules) depth 24
  dispatch-Balanced Opcode.origin h e = nullary-Goes _ _
  dispatch-Balanced Opcode.caller h e = nullary-Goes _ _
  dispatch-Balanced Opcode.callvalue h e = nullary-Goes _ _
  dispatch-Balanced Opcode.calldataload h e = search (instruction_rules) depth 24
  dispatch-Balanced Opcode.calldatasize h e = nullary-Goes _ _
  dispatch-Balanced Opcode.calldatacopy h e = search (instruction_rules) depth 24
  dispatch-Balanced Opcode.codesize h e = nullary-Goes _ _
  dispatch-Balanced Opcode.codecopy h e = search (instruction_rules) depth 24
  dispatch-Balanced Opcode.gasprice h e = nullary-Goes _ _
  dispatch-Balanced Opcode.extcodesize h e = search (instruction_rules) depth 24
  dispatch-Balanced Opcode.extcodecopy h e = search (instruction_rules) depth 24
  dispatch-Balanced Opcode.returndatasize h e = nullary-Goes _ _
  dispatch-Balanced Opcode.returndatacopy h e = search (instruction_rules) depth 24
  dispatch-Balanced Opcode.extcodehash h e = search (instruction_rules) depth 24
  dispatch-Balanced Opcode.blockhash h e = search (instruction_rules) depth 24
  dispatch-Balanced Opcode.coinbase h e = nullary-Goes _ _
  dispatch-Balanced Opcode.timestamp h e = nullary-Goes _ _
  dispatch-Balanced Opcode.number h e = nullary-Goes _ _
  dispatch-Balanced Opcode.difficulty h e = nullary-Goes _ _
  dispatch-Balanced Opcode.gaslimit h e = nullary-Goes _ _
  dispatch-Balanced Opcode.chainid h e = nullary-Goes _ _
  dispatch-Balanced Opcode.selfbalance h e = nullary-Goes _ _
  dispatch-Balanced Opcode.basefee h e = nullary-Goes _ _
  dispatch-Balanced Opcode.pop h e = search (instruction_rules) depth 24
  dispatch-Balanced Opcode.mload h e = search (instruction_rules) depth 24
  dispatch-Balanced Opcode.mstore h e = search (instruction_rules) depth 24
  dispatch-Balanced Opcode.mstore8 h e = search (instruction_rules) depth 24
  dispatch-Balanced Opcode.sload h e = search (instruction_rules) depth 24
  dispatch-Balanced Opcode.sstore h e = search (instruction_rules) depth 24
  dispatch-Balanced Opcode.jump h e = search (instruction_rules) depth 24
  dispatch-Balanced Opcode.jumpi h e = search (instruction_rules) depth 24
  dispatch-Balanced Opcode.pc h e = nullary-Goes _ _
  dispatch-Balanced Opcode.msize h e = nullary-Goes _ _
  dispatch-Balanced Opcode.gas h e = nullary-Goes _ _
  dispatch-Balanced Opcode.jumpdest h e = search (instruction_rules) depth 24
  dispatch-Balanced Opcode.push0 h e = search (instruction_rules) depth 24
  dispatch-Balanced (Opcode.push n) h e = search (instruction_rules) depth 24
  dispatch-Balanced (Opcode.dup n) h e = level_then (Level-consume _) (dup-Goes n (dup-pos n e))
  dispatch-Balanced (Opcode.swap n) h e = level_then (Level-consume _) (swap-Goes n)
  dispatch-Balanced (Opcode.log n) h e =
      subst (λ k. Goes k floor (operands lib (Opcode.log n) next)) (two_words n)
        (search (topics_bind, height_rules) depth 24)
  dispatch-Balanced Opcode.return h e = stop_with-Goes lib _
  dispatch-Balanced Opcode.revert h e = stop_with-Goes lib _
  dispatch-Balanced Opcode.blobhash h e = cc
  dispatch-Balanced Opcode.blobbasefee h e = cc
  dispatch-Balanced Opcode.tload h e = cc
  dispatch-Balanced Opcode.tstore h e = cc
  dispatch-Balanced Opcode.mcopy h e = cc
  dispatch-Balanced Opcode.create h e = cc
  dispatch-Balanced Opcode.call h e = cc
  dispatch-Balanced Opcode.callcode h e = cc
  dispatch-Balanced Opcode.delegatecall h e = cc
  dispatch-Balanced Opcode.create2 h e = cc
  dispatch-Balanced Opcode.staticcall h e = cc
  dispatch-Balanced Opcode.invalid h e = cc
  dispatch-Balanced Opcode.selfdestruct h e = cc

require_balances :
    (n base : ℕ) (t : Stack)
    → length t.items ≡ above (words n floor) base
    → StackLands (above (words n floor) base) (Stack.require n t)
unfolding Stack.require
require_balances n base t e = ground (arith, e, above-words n floor base)

limit_check_balances :
    (h : Height) (n base : ℕ) (t : Stack)
    → length t.items ≡ above h base
    → StackLands (above h base) (Stack.limit_check n t)
unfolding Stack.limit_check
limit_check_balances h n base t e = ground (arith, e)

execute_opcode-Goes :
    (lib : Library) (op : Opcode)
    → falls_through op ≡ false
    → IsEncoded op
    → Goes (words (stack_inputs op) floor) (words (stack_outputs op) floor) (execute_opcode lib op)
unfolding execute_opcode
execute_opcode-Goes lib op h e =
    Goes-then (on_stack-Goes (Stack.require (stack_inputs op)) (require_balances (stack_inputs op)))
      (Goes-then
        (on_stack-Goes (Stack.limit_check (stack_outputs op - stack_inputs op)) (
          limit_check_balances (words (stack_inputs op) floor)
            (stack_outputs op - stack_inputs op)))
        (dispatch-Balanced lib op h e))

require_too_few :
    (n : ℕ) (t : Stack) → length t.items < n → Stack.require n t ≡ err Error.stack_underflow t
unfolding Stack.require
require_too_few n t h = ground (arith, h)

too_few :
    (lib : Library) (op : Opcode) (s : Interpreter)
    → length s.stack.items < stack_inputs op
    → execute_opcode lib op s ≡ err Error.stack_underflow s
unfolding execute_opcode on_stack with_stack
too_few lib op s h =
    ap
      (λ r.
        ((λ (x : Interpreter). with_stack {A = Unit {0}} s r)
            >> (on_stack (Stack.limit_check (stack_outputs op - stack_inputs op))
                >> dispatch lib op))
          s)
      (require_too_few (stack_inputs op) s.stack h)

above_floor : (base : ℕ) → above floor base ≡ base
unfolding above
above_floor base = refl

lt_or_le : (a b : ℕ) → (a < b) ⊎ (b ≤ a)
lt_or_le a b = ground arith

height_of :
    {h : ℕ} {t : Interpreter} {o : Outcome Interpreter EvmError (Unit {0})}
    → Lands h o
    → o ≡ ok tt t
    → length t.stack.items ≡ h
height_of (returns e) q = ground (arith, e, q)
height_of (raises e) q = cc
height_of panics q = cc

no_underflow :
    {h : ℕ} {t : Interpreter} {o : Outcome Interpreter EvmError (Unit {0})}
    → Lands h o
    → o ≢ err Error.stack_underflow t
no_underflow (returns e) q = cc
no_underflow (raises k) q = k (ground (arith, q))
no_underflow panics q = cc

module _ (lib : Library) (op : Opcode) (s t : Interpreter) where
  -- An instruction that has an arm of its own and that a byte stands for, and that returns, has changed
  -- the height of the stack by what the tables of the opcodes say: it has taken `stack_inputs` words and
  -- left `stack_outputs`.
  pub execute_opcode_balances :
      falls_through op ≡ false
      → IsEncoded op
      → execute_opcode lib op s ≡ ok tt t
      → length t.stack.items + stack_inputs op ≡ length s.stack.items + stack_outputs op
  execute_opcode_balances h e q = elim (lt_or_le (length s.stack.items) (stack_inputs op)) [
    | inl few ↦ absurd (ground (arith, too_few lib op s few, q))
    | inr enough ↦
        let base = length s.stack.items - stack_inputs op in
        let l =
          (execute_opcode-Goes lib op h e).run base s
            (omega (arith, above-words (stack_inputs op) floor base, above_floor base)) in
        omega (arith, height_of l q, above-words (stack_outputs op) floor base, above_floor base)
  ]

  -- Such an instruction underflows the stack only if the stack has fewer words than `stack_inputs`, and
  -- then it has changed nothing.
  pub execute_opcode_underflows :
      falls_through op ≡ false
      → IsEncoded op
      → execute_opcode lib op s ≡ err Error.stack_underflow t
      → (length s.stack.items < stack_inputs op) × (t ≡ s)
  execute_opcode_underflows h e q = elim (lt_or_le (length s.stack.items) (stack_inputs op)) [
    | inl few ↦ (few, ground (arith, too_few lib op s few, q))
    | inr enough ↦
        let base = length s.stack.items - stack_inputs op in
        let l =
          (execute_opcode-Goes lib op h e).run base s
            (omega (arith, above-words (stack_inputs op) floor base, above_floor base)) in
        absurd (no_underflow l q)
  ]
