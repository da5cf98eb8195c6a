-- ===== src/Evm/Instructions/Compute.antt =====
-- crates/evm/src/interpreter.rs: the arms of `execute_opcode` for the arithmetic of words.
use ethereum_rust.Base.{[], ◌==◌, if◌then◌else◌}
use ethereum_rust.Base.Outcome.{◌>>=◌, ◌>>◌, gets}
use ethereum_rust.Evm.Library.{Library}
use ethereum_rust.Evm.GasCost
use ethereum_rust.Evm.Opcode.{Opcode}
use ethereum_rust.Evm.Machine.{Evm, success_result, consume, pop, push, unwrap, next, finish}
use ethereum_rust.Evm.Arithmetic.{signed_div, signed_mod, sign_extend, addmod, mulmod}
use ethereum_rust.Evm.Instructions.{binary}

module _ (lib : Library) where
  unfoldable pub compute : Opcode → Evm (Unit {0}) → Evm (Unit {0})
  compute Opcode.stop otherwise = do used ← gets λ s. s.gas.used; finish (success_result [] used)
  compute Opcode.add otherwise = binary GasCost.verylow lib.overflowing_add
  compute Opcode.mul otherwise = binary GasCost.low lib.overflowing_mul
  compute Opcode.sub otherwise = binary GasCost.verylow lib.overflowing_sub
  compute Opcode.div otherwise = binary GasCost.low λ a b. if b == 0 then 0 else lib.quotient a b
  compute Opcode.sdiv otherwise = binary GasCost.low (signed_div lib)
  compute Opcode.modulo otherwise =
      binary GasCost.low λ a b. if b == 0 then 0 else lib.remainder a b
  compute Opcode.smod otherwise = binary GasCost.low (signed_mod lib)
  compute Opcode.addmod otherwise = do
    consume GasCost.mid
    n ← pop
    b ← pop
    a ← pop
    push (addmod lib a b n)
    next
  compute Opcode.mulmod otherwise = do
    consume GasCost.mid
    n ← pop
    b ← pop
    a ← pop
    push (mulmod lib a b n)
    next
  compute Opcode.exp otherwise = do
    exponent ← pop
    consume (GasCost.exp_gas_cost lib exponent)
    base ← pop
    push (lib.overflowing_pow base exponent)
    next
  compute Opcode.signextend otherwise = do
    consume GasCost.low
    ext ← pop
    x ← pop
    v ← unwrap (sign_extend lib ext x)
    push v
    next
  compute _ otherwise = otherwise
