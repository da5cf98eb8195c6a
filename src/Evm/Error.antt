-- ===== src/Evm/Error.antt =====
-- crates/evm/src/error.rs
use ethereum_rust.Base.{ℕ}

pub data EvmError : Type 0 where
  stack_overflow stack_underflow : EvmError
  invalid_jump invalid_opcode : ℕ → EvmError
  out_of_gas insufficient_balance contract_creation_failed call_depth_exceeded : EvmError
  invalid_memory_access write_protection return_data_out_of_bounds : EvmError
  static_call_state_modification precompile_failed invalid_signature code_size_exceeded : EvmError
  invalid_init_code nonce_overflow invalid_input : EvmError
