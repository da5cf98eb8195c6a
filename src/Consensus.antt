-- ===== src/Consensus.antt =====
-- crates/consensus/src/eip7002.rs, crates/consensus/src/eip7251.rs: exits and withdrawals from the execution layer,
-- and the balances of the validators.
pub mod ExitQueue
pub mod Withdrawals
pub mod Validators
pub mod ForkChoice
