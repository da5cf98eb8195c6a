-- ===== src/Evm/Execute.antt =====
-- crates/evm/src/lib.rs: `Evm::execute`, a run from the start of the code on an empty stack.
use ethereum_rust.Base.{ℕ, suc, ◌+◌, ◌-◌, ◌*◌, ◌^◌, ◌<◌, ◌≡◌, ◌≢◌, ap, arith, length}
use ethereum_rust.Base.Outcome.{Outcome, stuck}
use ethereum_rust.Evm.Library.{Library}
use ethereum_rust.Evm.Error.{EvmError}
use ethereum_rust.Evm.State.{State}
use ethereum_rust.Evm.Machine
use ethereum_rust.Evm.Machine.{Interpreter, ExecutionContext, ExecutionResult}
use ethereum_rust.Evm.Interpreter.{run}
use ethereum_rust.Evm.Interpreter.Run.{fuel_needed, run_terminates}

unfoldable pub execute :
    Library → ℕ → ExecutionContext → State → Outcome Interpreter EvmError ExecutionResult
execute lib fuel context state = run lib fuel (Machine.new context state)

-- A pass over the code for every unit of gas.
abbrev pub enough_fuel : ExecutionContext → ℕ
enough_fuel context = suc (context.gas_limit * suc (length context.code) + length context.code)

fuel_needed-new :
    (context : ExecutionContext) (state : State)
    → fuel_needed (Machine.new context state)
      ≡ context.gas_limit * suc (length context.code) + (length context.code - 0)
unfolding fuel_needed
fuel_needed-new context state =
    ap (λ g. g * suc (length context.code) + (length context.code - 0)) {x = context.gas_limit - 0}
      (omega arith)

-- With a gas limit below the largest `u64`, `execute` does not run for ever: the fuel for one pass over
-- the code for every unit of gas is enough, on any state.
pub execute_terminates :
    (lib : Library) (context : ExecutionContext) (state : State)
    → context.gas_limit < 2 ^ 64 - 1
    → execute lib (enough_fuel context) context state ≢ stuck
unfolding execute
execute_terminates lib context state h =
    run_terminates lib (enough_fuel context) (Machine.new context state) (omega arith) h
      (omega (arith, fuel_needed-new context state))
