-- ===== src/Evm/State.antt =====
-- crates/evm/src/state.rs and lib.rs: the accounts. A `HashMap` is a function into `Option`.
use ethereum_rust.Base.{
  ℕ, Bool, true, false, ◌&&◌, List, [], Option, none, some, ◌==◌, if◌then◌else◌, length,
}

pub record Account : Type 0 where
  pub balance : ℕ
  pub nonce : ℕ
  pub code : List ℕ
  pub storage : ℕ → Option ℕ

abbrev pub default : Account
default = record { balance = 0; nonce = 0; code = []; storage = λ k. none }

abbrev pub State : Type 0
State = ℕ → Option Account

-- `HashMap::insert`
abbrev pub insert {ℓ} : {V : Type ℓ} → (ℕ → Option V) → ℕ → V → ℕ → Option V
insert m key value k = if k == key then some value else m k

abbrev pub get_account : State → ℕ → Option Account
get_account st address = st address

unfoldable pub set_account : State → ℕ → Account → State
set_account st address account = insert st address account

-- `unwrap_or_default`
abbrev pub or_zero : Option ℕ → ℕ
or_zero none = 0
or_zero (some v) = v

unfoldable pub get_storage : State → ℕ → ℕ → ℕ
get_storage st address key = elim (st address) [ none ↦ 0 | some a ↦ or_zero (a.storage key) ]

-- `self.entry(address).or_insert_with(Account::default)`
abbrev pub or_default : Option Account → Account
or_default none = default
or_default (some a) = a

unfoldable pub set_storage : State → ℕ → ℕ → ℕ → State
set_storage st address key value =
    let account = or_default (st address) in
    insert st address (record account { storage = insert account.storage key value })

unfoldable pub exists : State → ℕ → Bool
exists st address = elim (st address) [ none ↦ false | some a ↦ true ]

unfoldable pub is_empty : State → ℕ → Bool
is_empty st address = elim (st address) [
  | none ↦ true
  | some a ↦ a.balance == 0 && (a.nonce == 0 && length a.code == 0)
]

unfoldable pub remove_account : State → ℕ → State
remove_account st address k = if k == address then none else st k
