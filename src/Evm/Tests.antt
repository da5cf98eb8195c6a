-- ===== src/Evm/Tests.antt =====
-- Runs of crates/evm/src/tests.rs, and the theorems of the interpreter at a concrete input.
use Prim.Native.Nat.{max}
use ethereum_rust.Base.{
  ℕ, ◌+◌, ◌≤◌, ◌<◌, ◌≡◌, ◌≢◌, refl, Bool, true, false, List, [], ◌∷◌, ◌++◌, Option, none, some,
  arith, length, replicate,
}
use ethereum_rust.Base.Bytes.{to_be_bytes, from_be_bytes}
use ethereum_rust.Base.Outcome.{Outcome, ok, stuck}
use ethereum_rust.Evm.Error.{EvmError}
use ethereum_rust.Evm.Sample.{word_library}
use ethereum_rust.Evm.Stored.{get-set}
use ethereum_rust.Evm.Stack
use ethereum_rust.Evm.Stack.{stack_limit}
use ethereum_rust.Evm.Memory
use ethereum_rust.Evm.Gas
use ethereum_rust.Evm.State.{State, set_storage}
use ethereum_rust.Evm.Opcode.{Opcode, from_u8, to_u8}
use ethereum_rust.Evm.Arity.{stack_inputs, stack_outputs}
use ethereum_rust.Evm.Machine
use ethereum_rust.Evm.Machine.{
  Interpreter, ExecutionContext, ExecutionResult, HaltReason, BlockContext, success_result,
  halt_result, with_stack, with_memory, with_gas, on_stack, on_memory, consume, pop, push, unwrap,
  next, finish,
}
use ethereum_rust.Evm.Instructions.{
  binary, stop_with, skip_immediate, immediate, guard_static, refuse_static, write,
}
use ethereum_rust.Evm.Instructions.Compute.{compute}
use ethereum_rust.Evm.Instructions.Compare.{compare}
use ethereum_rust.Evm.Instructions.Environment.{environment}
use ethereum_rust.Evm.Instructions.Surroundings.{surroundings}
use ethereum_rust.Evm.Instructions.Flow.{flow}
use ethereum_rust.Evm.Instructions.Operands.{operands}
use ethereum_rust.Evm.Interpreter.{
  dispatch, execute_opcode, run, fetch, decode, settle, resume, handle_error,
}
use ethereum_rust.Evm.Execute.{execute, enough_fuel, execute_terminates}
use ethereum_rust.Evm.Interpreter.Balance.{
  falls_through, execute_opcode_balances, execute_opcode_underflows,
}
use ethereum_rust.Evm.Interpreter.Run.{run_meters, run-static_call, run_fits}

abbrev block : BlockContext
block = record {
  coinbase = 0;
  number = 1;
  timestamp = 1000;
  difficulty = 1000000;
  gas_limit = 10000000;
  base_fee = some 1000;
  chain_id = 1;
  block_hashes = [];
}

abbrev context_of : Bool → List ℕ → ExecutionContext
context_of is_static code = record {
  caller = 1;
  address = 2;
  origin = 1;
  value = 0;
  code = code;
  input = [];
  gas_price = 0;
  gas_limit = 100000;
  block = block;
  is_static = is_static;
  depth = 0;
}

abbrev empty_state : State
empty_state address = none

-- PUSH1 2, PUSH1 3, ADD, PUSH1 0, MSTORE, PUSH1 32, PUSH1 0, RETURN
abbrev addition : List ℕ
addition = 0x60 ∷ 2 ∷ 0x60 ∷ 3 ∷ 0x01 ∷ 0x60 ∷ 0 ∷ 0x52 ∷ 0x60 ∷ 32 ∷ 0x60 ∷ 0 ∷ 0xf3 ∷ []

abbrev returned : Outcome Interpreter EvmError ExecutionResult → Option ExecutionResult
returned (ok r t) = some r
returned _ = none

addition_runs :
    returned (run word_library 20 (Machine.new (context_of false addition) empty_state))
    ≡ some (success_result (replicate 31 0 ++ (5 ∷ [])) 21)
unfolding run fetch decode settle resume execute_opcode dispatch compute compare environment
    surroundings flow operands from_u8 stack_inputs stack_outputs Stack.require Stack.limit_check
    on_stack with_stack consume with_gas Gas.consume pop push Stack.pop Stack.push next finish
    immediate skip_immediate unwrap Memory.set on_memory with_memory Memory.resize Memory.overwrite
    Memory.get binary stop_with to_be_bytes from_be_bytes
addition_runs = refl

abbrev start : Interpreter
start = Machine.new (context_of false addition) empty_state

abbrev five : ExecutionResult
five = success_result (replicate 31 0 ++ (5 ∷ [])) 21

abbrev finished : Interpreter
finished = record start {
  memory = record { bytes = replicate 31 0 ++ (5 ∷ []) };
  gas = record { limit = 100000; used = 21 };
  pc = 12;
  result = some five;
}

addition_finishes : run word_library 20 start ≡ ok five finished
unfolding run fetch decode settle resume execute_opcode dispatch compute compare environment
    surroundings flow operands from_u8 stack_inputs stack_outputs Stack.require Stack.limit_check
    on_stack with_stack consume with_gas Gas.consume pop push Stack.pop Stack.push next finish
    immediate skip_immediate unwrap Memory.set on_memory with_memory Memory.resize Memory.overwrite
    Memory.get binary stop_with to_be_bytes from_be_bytes
addition_finishes = refl

run_meters_example : (finished.gas.limit ≡ start.gas.limit) × (0 ≤ 21) × (21 ≤ 100000)
run_meters_example =
    run_meters word_library 20 start five finished (omega arith) (omega arith) addition_finishes

run_fits_example : (0 ≤ stack_limit) × (context_of false addition ≡ context_of false addition)
run_fits_example = run_fits word_library 20 start five finished (omega arith) addition_finishes

-- PUSH1 66, PUSH1 1, SSTORE, in a static call.
abbrev storing : Interpreter
storing =
    Machine.new (context_of true (0x60 ∷ 66 ∷ 0x60 ∷ 1 ∷ 0x55 ∷ [])) (set_storage empty_state 2 1 7)

abbrev refused : ExecutionResult
refused = halt_result HaltReason.state_modification_in_static 6

abbrev stopped : Interpreter
stopped = record storing {
  stack = record { items = 1 ∷ 66 ∷ [] };
  gas = record { limit = 100000; used = 6 };
  pc = 4;
}

storing_stops : run word_library 20 storing ≡ ok refused stopped
unfolding run fetch decode settle resume execute_opcode dispatch compute compare environment
    surroundings flow operands from_u8 stack_inputs stack_outputs Stack.require Stack.limit_check
    on_stack with_stack consume with_gas Gas.consume pop push Stack.pop Stack.push next finish
    immediate skip_immediate unwrap Memory.set on_memory with_memory Memory.resize Memory.overwrite
    Memory.get binary stop_with to_be_bytes from_be_bytes refuse_static guard_static write
    handle_error
storing_stops = refl

run-static_call_example : (stopped.state ≡ storing.state) × (stopped.logs ≡ storing.logs)
run-static_call_example = run-static_call word_library 20 storing refused stopped refl storing_stops

execute_terminates_example :
    execute word_library
      (enough_fuel (context_of false addition))
      (context_of false addition)
      empty_state
    ≢ stuck
execute_terminates_example =
    execute_terminates word_library (context_of false addition) empty_state (omega arith)

-- ADD on a stack of one word, and on a stack of two.
abbrev one_word : Interpreter
one_word = record start { stack = record { items = 7 ∷ [] } }

abbrev two_words : Interpreter
two_words = record start { stack = record { items = 8 ∷ 7 ∷ [] } }

abbrev added : Interpreter
added = record start {
  stack = record { items = 15 ∷ [] };
  gas = record { limit = 100000; used = 3 };
  pc = 1;
}

execute_opcode_balances_example :
    length added.stack.items + stack_inputs Opcode.add
    ≡ length two_words.stack.items + stack_outputs Opcode.add
unfolding execute_opcode dispatch compute stack_inputs stack_outputs Stack.require Stack.limit_check
    on_stack with_stack consume with_gas Gas.consume pop push Stack.pop Stack.push next binary
    falls_through from_u8 to_u8
execute_opcode_balances_example =
    execute_opcode_balances word_library Opcode.add two_words added refl refl refl

execute_opcode_underflows_example :
    (length one_word.stack.items < stack_inputs Opcode.add) × (one_word ≡ one_word)
unfolding execute_opcode dispatch compute stack_inputs stack_outputs Stack.require on_stack
    with_stack falls_through from_u8 to_u8
execute_opcode_underflows_example =
    execute_opcode_underflows word_library Opcode.add one_word one_word refl refl refl

abbrev short_memory : Memory.Memory
short_memory = record { bytes = 9 ∷ 9 ∷ [] }

abbrev grown : Memory.Memory
grown = record { bytes = 9 ∷ 9 ∷ 0 ∷ 7 ∷ 8 ∷ [] }

get-set_example :
    (Memory.get 3 2 grown ≡ 7 ∷ 8 ∷ []) × (length grown.bytes ≡ max 5 (length short_memory.bytes))
unfolding Memory.set Memory.overwrite Memory.resize
get-set_example = get-set 3 (7 ∷ 8 ∷ []) short_memory grown (omega arith) refl
