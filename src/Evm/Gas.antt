-- ===== src/Evm/Gas.antt =====
-- crates/evm/src/gas.rs: the meter and the costs. `u64` arithmetic saturates or panics.
use ethereum_rust.Base.{ℕ, ◌+◌, ◌-◌, ◌*◌, ◌^◌, ltb, if◌then◌else◌, min}
use ethereum_rust.Base.Outcome.{M, ok, err}
use ethereum_rust.Evm.Error.{EvmError, out_of_gas}

pub record Gas : Type 0 where
  pub limit : ℕ
  pub used : ℕ

abbrev pub u64_max : ℕ
u64_max = 2 ^ 64 - 1

abbrev pub saturating_add : ℕ → ℕ → ℕ
saturating_add a b = min (a + b) u64_max

abbrev pub saturating_mul : ℕ → ℕ → ℕ
saturating_mul a b = min (a * b) u64_max

abbrev pub new : ℕ → Gas
new limit = record { limit = limit; used = 0 }

unfoldable pub consume : ℕ → M Gas EvmError (Unit {0})
consume amount g =
    let new_used = saturating_add g.used amount in
    if ltb g.limit new_used then err out_of_gas g else ok tt (record g { used = new_used })

abbrev pub remaining : Gas → ℕ
remaining g = g.limit - g.used

unfoldable pub refund : ℕ → Gas → Gas
refund amount g = record g { used = g.used - amount }
