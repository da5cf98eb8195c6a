-- ===== src/Base/Result.antt =====
-- What a function that changes no state returns: a value, an error, or a panic. `stuck` is no Rust
-- value: a recursion of the model ran out of fuel.
use mathlib.Core.Option.{Option, none, some}

pub data Result (E A : Type 0) : Type 0 where
  ok : A → Result E A
  err : E → Result E A
  panic stuck : Result E A

module _ {E : Type 0} where
  infixl 5 ◌>>=◌
  abbrev pub ◌>>=◌ : {A B : Type 0} → Result E A → (A → Result E B) → Result E B
  ok a >>= f = f a
  err e >>= f = err e
  panic >>= f = panic
  stuck >>= f = stuck

  -- `unwrap`, and an index that may be out of range
  abbrev pub or_panic : {A : Type 0} → Option A → Result E A
  or_panic none = panic
  or_panic (some a) = ok a

  -- `ok_or(e)`
  abbrev pub ok_or : {A : Type 0} → Option A → E → Result E A
  ok_or none e = err e
  ok_or (some a) e = ok a
