-- ===== src/Base/Outcome.antt =====
-- A `&mut self` method that returns a `Result`, as a function of the state. An error keeps the state
-- that the method left; `panic` is a Rust panic (an overflow check, an index, an `unwrap`). `stuck` is no Rust value:
-- a loop of the model ran out of fuel.
use mathlib.Core.Bool.{Bool, true, false}

pub data Outcome (S E A : Type 0) : Type 0 where
  ok : A → S → Outcome S E A
  err : E → S → Outcome S E A
  panic stuck : Outcome S E A

abbrev pub M : Type 0 → Type 0 → Type 0 → Type 0
M S E A = S → Outcome S E A

module _ {S E : Type 0} where
  abbrev pub pure : {A : Type 0} → A → M S E A
  pure a s = ok a s

  abbrev pub fail : {A : Type 0} → E → M S E A
  fail e s = err e s

  abbrev pub abort : {A : Type 0} → M S E A
  abort s = panic

  infixl 5 ◌>>=◌ ◌>>◌
  abbrev pub ◌>>=◌ : {A B : Type 0} → M S E A → (A → M S E B) → M S E B
  ◌>>=◌ m f s = elim (m s) [ ok a t ↦ f a t | err e t ↦ err e t | panic ↦ panic | stuck ↦ stuck ]

  abbrev pub ◌>>◌ : {A B : Type 0} → M S E A → M S E B → M S E B
  m >> k = m >>= λ _. k

  abbrev pub gets : {A : Type 0} → (S → A) → M S E A
  gets f s = ok (f s) s

  abbrev pub modify : (S → S) → M S E (Unit {0})
  modify f s = ok tt (f s)

  -- Go on if the test holds, and return the error if it does not.
  abbrev pub require : Bool → E → M S E (Unit {0})
  require true e s = ok tt s
  require false e s = err e s

  -- Go on if the test holds, and panic if it does not.
  abbrev pub check : Bool → M S E (Unit {0})
  check true s = ok tt s
  check false s = panic
