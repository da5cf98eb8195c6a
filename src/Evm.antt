-- ===== src/Evm.antt =====
-- crates/evm: the virtual machine. `Interpreter` runs bytecode over a `Stack`, a `Memory` and a `Gas`
-- meter, against the accounts of `State`.
pub mod Library
pub mod Error
pub mod Stack
pub mod Gas
pub mod GasCost
pub mod Memory
pub mod State
pub mod Opcode
pub mod Arity
pub mod Machine
pub mod Arithmetic
pub mod Sample
mod Tests
pub mod Instructions
pub mod Interpreter
pub mod Execute
pub mod Tables
pub mod Stored
pub mod Signed
