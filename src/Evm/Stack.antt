-- ===== src/Evm/Stack.antt =====
-- crates/evm/src/stack.rs: the operand stack. The head of the list is the top, the end of the vector.
use ethereum_rust.Base.{
  ℕ, zero, suc, ◌+◌, List, [], ◌∷◌, Option, none, some, ltb, leb, if◌then◌else◌, length, get_elem?,
  set,
}
use ethereum_rust.Base.Outcome.{M, ok, err, panic}
use ethereum_rust.Evm.Error.{EvmError, stack_overflow, stack_underflow}

abbrev pub stack_limit : ℕ
stack_limit = 1024

pub record Stack : Type 0 where
  pub items : List ℕ

abbrev pub StackM : Type 0 → Type 0
StackM = M Stack EvmError

abbrev pub new : Stack
new = record { items = [] }

abbrev pub len : Stack → ℕ
len s = length s.items

unfoldable pub push : ℕ → StackM (Unit {0})
push value s =
    if leb stack_limit (length s.items)
    then err stack_overflow s
    else ok tt (record { items = value ∷ s.items })

pop_from : List ℕ → StackM ℕ
pop_from [] s = err stack_underflow s
pop_from (v ∷ rest) s = ok v (record { items = rest })

unfoldable pub pop : StackM ℕ
unfolding pop_from
pop s = pop_from s.items s

-- `&self.data[i]` for an index from the top; out of range it panics.
unfoldable pub item : ℕ → StackM ℕ
item i s = elim (get_elem? s.items i) [ none ↦ panic | some v ↦ ok v s ]

unfoldable pub peek : ℕ → StackM ℕ
unfolding item
peek index s = if leb (length s.items) index then err stack_underflow s else item index s

-- `self.data.swap(len - 1, len - 1 - n)`
unfoldable pub exchange : ℕ → List ℕ → Option (List ℕ)
exchange n [] = none
exchange zero (top ∷ rest) = some (top ∷ rest)
exchange (suc n) (top ∷ rest) = elim (get_elem? rest n) [
  | none ↦ none
  | some v ↦ some (v ∷ set rest n top)
]

unfoldable pub swap : ℕ → StackM (Unit {0})
unfolding exchange
swap n s =
    if leb (length s.items) n
    then err stack_underflow s
    else elim (exchange n s.items) [ none ↦ panic | some items ↦ ok tt (record { items = items }) ]

unfoldable pub dup : ℕ → StackM (Unit {0})
unfolding item
dup n s =
    if leb (length s.items) n
    then err stack_underflow s
    else if leb stack_limit (length s.items)
    then err stack_overflow s
    else elim (get_elem? s.items n) [
      | none ↦ panic
      | some v ↦ ok tt (record { items = v ∷ s.items })
    ]

unfoldable pub require : ℕ → StackM (Unit {0})
require n s = if ltb (length s.items) n then err stack_underflow s else ok tt s

unfoldable pub limit_check : ℕ → StackM (Unit {0})
limit_check n s = if ltb stack_limit (length s.items + n) then err stack_overflow s else ok tt s
