-- ===== src/Evm/Instructions/Compare.antt =====
-- crates/evm/src/interpreter.rs: the arms of `execute_opcode` for comparison and bitwise logic.
use ethereum_rust.Base.{◌-◌, ltb, leb, ◌==◌, if◌then◌else◌}
use ethereum_rust.Base.Outcome.{◌>>=◌, ◌>>◌}
use ethereum_rust.Evm.Library.{Library}
use ethereum_rust.Evm.GasCost
use ethereum_rust.Evm.Opcode.{Opcode}
use ethereum_rust.Evm.Machine.{Evm, consume, pop, push, next}
use ethereum_rust.Evm.Arithmetic.{of_bool, same, is_negative, arithmetic_shr}
use ethereum_rust.Evm.Instructions.{binary}

module _ (lib : Library) where
  unfoldable pub compare : Opcode → Evm (Unit {0}) → Evm (Unit {0})
  compare Opcode.lt otherwise = binary GasCost.verylow λ a b. of_bool (ltb a b)
  compare Opcode.gt otherwise = binary GasCost.verylow λ a b. of_bool (ltb b a)
  compare Opcode.slt otherwise = binary GasCost.verylow λ a b.
      if same (is_negative lib a) (is_negative lib b)
      then of_bool (ltb a b)
      else of_bool (is_negative lib a)
  compare Opcode.sgt otherwise = binary GasCost.verylow λ a b.
      if same (is_negative lib a) (is_negative lib b)
      then of_bool (ltb b a)
      else of_bool (is_negative lib b)
  compare Opcode.eq otherwise = binary GasCost.verylow λ a b. of_bool (a == b)
  compare Opcode.iszero otherwise = do
    consume GasCost.verylow
    a ← pop
    push (of_bool (a == 0))
    next
  compare Opcode.and otherwise = binary GasCost.verylow lib.bitand
  compare Opcode.or otherwise = binary GasCost.verylow lib.bitor
  compare Opcode.xor otherwise = binary GasCost.verylow lib.bitxor
  compare Opcode.not otherwise = do consume GasCost.verylow; a ← pop; push (lib.complement a); next
  compare Opcode.byte otherwise = do
    consume GasCost.verylow
    i ← pop
    x ← pop
    push (if ltb i 32 then lib.byte x (31 - i) else 0)
    next
  compare Opcode.shl otherwise = do
    consume GasCost.verylow
    shift ← pop
    value ← pop
    push (if leb 256 shift then 0 else lib.shift_left value shift)
    next
  compare Opcode.shr otherwise = do
    consume GasCost.verylow
    shift ← pop
    value ← pop
    push (if leb 256 shift then 0 else lib.shift_right value shift)
    next
  compare Opcode.sar otherwise = do
    consume GasCost.verylow
    shift ← pop
    value ← pop
    push (arithmetic_shr lib value shift)
    next
  compare _ otherwise = otherwise
