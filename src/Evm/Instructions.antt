-- ===== src/Evm/Instructions.antt =====
-- crates/evm/src/interpreter.rs: what the arms of the `match opcode` share. `pop` takes the operands in
-- the order of the source, the top of the stack first.
pub mod Compute
pub mod Compare
pub mod Environment
pub mod Surroundings
pub mod Flow
pub mod Operands
use ethereum_rust.Base.{
  ℕ, zero, suc, ◌+◌, ◌-◌, ◌*◌, ◌/◌, ◌%◌, ◌^◌, Bool, true, false, ◌&&◌, ◌||◌, not, List, [], ◌∷◌,
  ◌++◌, Option, none, some, ltb, leb, ◌==◌, if◌then◌else◌, length, get_elem?, take, drop, replicate,
  min,
}
use ethereum_rust.Base.Outcome.{
  Outcome, ok, err, panic, stuck, pure, fail, abort, ◌>>=◌, ◌>>◌, gets, modify,
}
use ethereum_rust.Evm.Library.{Library}
use ethereum_rust.Evm.Error.{EvmError}
use ethereum_rust.Evm.Error
use ethereum_rust.Evm.Stack
use ethereum_rust.Evm.Memory
use ethereum_rust.Evm.Gas
use ethereum_rust.Evm.GasCost
use ethereum_rust.Evm.State
use ethereum_rust.Evm.State.{or_zero, get_account, get_storage, set_storage, Account}
use ethereum_rust.Evm.Opcode.{Opcode, from_u8}
use ethereum_rust.Evm.Arity.{stack_inputs, stack_outputs}
use ethereum_rust.Evm.Machine.{
  Interpreter, Evm, HaltReason, ExecutionResult, Log, success_result, revert_result, halt_result,
  on_stack, on_memory, consume, pop, push, unwrap, next, finish,
}
use ethereum_rust.Evm.Arithmetic.{
  of_bool, address_from_u256, same, is_negative, signed_div, signed_mod, sign_extend,
  arithmetic_shr, addmod, mulmod, get_slice,
}

-- What stands at the destination decides.
unfoldable pub land : ℕ → Option ℕ → Evm (Unit {0})
land dest none s = err (EvmError.invalid_jump dest) s
land dest (some b) s =
    if b == 0x5b then ok tt (record s { pc = dest }) else err (EvmError.invalid_jump dest) s

-- `self.jump(dest)`
unfoldable pub jump : ℕ → Evm (Unit {0})
unfolding land
jump dest s = land dest (get_elem? s.context.code dest) s

-- An instruction that charges, pops two words and pushes one.
unfoldable pub binary : ℕ → (ℕ → ℕ → ℕ) → Evm (Unit {0})
binary cost f = do consume cost; b ← pop; a ← pop; push (f a b); next

-- An instruction that charges and pushes what it finds in the state.
unfoldable pub nullary : ℕ → (Interpreter → ℕ) → Evm (Unit {0})
nullary cost f = do consume cost; v ← gets f; push v; next

-- A slice that is copied to the memory.
unfoldable pub copy_to_memory : Library → ℕ → Option (List ℕ) → Evm (Unit {0})
copy_to_memory lib mem_offset slice = do
  content ← unwrap slice
  offset ← unwrap (lib.as_usize mem_offset)
  on_memory (Memory.set offset content)
  next

-- A return of the memory from `offset` on: `RETURN` and `REVERT`.
unfoldable pub stop_with : Library → (List ℕ → ℕ → ExecutionResult) → Evm (Unit {0})
stop_with lib result = do
  offset ← pop
  size ← pop
  i ← unwrap (lib.as_usize offset)
  n ← unwrap (lib.as_usize size)
  content ← gets λ s. Memory.get i n s.memory
  used ← gets λ s. s.gas.used
  finish (result content used)

unfoldable pub pop_topics : ℕ → Evm (List ℕ)
pop_topics zero = pure []
pop_topics (suc n) = do topic ← pop; rest ← pop_topics n; pure (topic ∷ rest)

unfoldable pub account_or : {A : Type 0} → Option Account → A → (Account → A) → A
account_or none d f = d
account_or (some a) d f = f a

unfoldable pub guard_static : Bool → Evm (Unit {0})
guard_static true s = err EvmError.static_call_state_modification s
guard_static false s = ok tt s

-- Static calls change no state.
unfoldable pub refuse_static : Evm (Unit {0})
unfolding guard_static
refuse_static s = guard_static s.context.is_static s

-- The end of the immediate bytes of a PUSHn: `min(start + n, self.context.code.len())`.
abbrev pub immediate_end : ℕ → Interpreter → ℕ
immediate_end n s = min (suc s.pc + n) (length s.context.code)

unfoldable pub immediate : ℕ → Interpreter → List ℕ
immediate n s = take (immediate_end n s - suc s.pc) (drop (suc s.pc) s.context.code)

-- `self.pc = end`
unfoldable pub skip_immediate : ℕ → Evm (Unit {0})
skip_immediate n s = ok tt (record s { pc = immediate_end n s })

unfoldable pub write : ℕ → ℕ → Evm (Unit {0})
write key value s = ok tt (record s { state = set_storage s.state s.context.address key value })

unfoldable pub append_log : List ℕ → List ℕ → Evm (Unit {0})
append_log topics content s = ok tt (record s {
  logs =
      s.logs ++ (record { address = s.context.address; topics = topics; content = content } ∷ []);
})

unfoldable pub block_hash : Library → ℕ → Interpreter → Option ℕ
block_hash lib block_number s =
    if leb s.context.block.number block_number || ltb 256 (s.context.block.number - block_number)
    then some 0
    else elim (lib.as_usize block_number) [
      | none ↦ none
      | some i ↦ some (or_zero (get_elem? s.context.block.block_hashes i))
    ]
