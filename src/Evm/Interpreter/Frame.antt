-- ===== src/Evm/Interpreter/Frame.antt =====
-- What every instruction keeps, whatever it does: the context, the gas limit, a meter that only grows
-- and stays within its limit, a stack within its limit, and in a static call the state and the logs.
use ethereum_rust.Base.{
  ◌≢◌, ◌⊎◌, ◌-◌, ◌≤◌, ◌<◌, ◌^◌, ◌≡◌, refl, ap, Bool, true, false, ◌∙◌, Option, none, some, arith,
  if◌then◌else◌, length,
}
use ethereum_rust.Base.Outcome.{Outcome, ok, err, panic, pure, fail, ◌>>=◌, ◌>>◌, gets}
use ethereum_rust.Evm.Error.{EvmError}
use ethereum_rust.Evm.Stack.{stack_limit}
use ethereum_rust.Evm.Machine.{Interpreter, Evm, ExecutionContext, unwrap}

pub record Frame (s t : Interpreter) : Type 0 where
  pub context : t.context ≡ s.context
  pub limit : t.gas.limit ≡ s.gas.limit
  pub metered :
      s.gas.used ≤ s.gas.limit
      → s.gas.limit < 2 ^ 64 - 1
      → (s.gas.used ≤ t.gas.used) × (t.gas.used ≤ t.gas.limit)
  pub fits : length s.stack.items ≤ stack_limit → length t.stack.items ≤ stack_limit
  pub static_state : s.context.is_static ≡ true → t.state ≡ s.state
  pub static_logs : s.context.is_static ≡ true → t.logs ≡ s.logs

pub Frame-refl : (s : Interpreter) → Frame s s
Frame-refl s = record {
  context = refl;
  limit = refl;
  metered = λ h k. (omega arith, h);
  fits = λ h. h;
  static_state = λ h. refl;
  static_logs = λ h. refl;
}

pub Frame-trans : {s t u : Interpreter} → Frame s t → Frame t u → Frame s u
Frame-trans f g = record {
  context = g.context ∙ f.context;
  limit = g.limit ∙ f.limit;
  metered = λ h k.
      let (up, within) = f.metered h k in
      let (up', within') = g.metered within (omega (arith, f.limit)) in
      (omega (arith, up, up'), within');
  fits = λ h. g.fits (f.fits h);
  static_state = λ h. g.static_state (cc f.context) ∙ f.static_state h;
  static_logs = λ h. g.static_logs (cc f.context) ∙ f.static_logs h;
}

-- A step inside an instruction moves neither the program counter nor the result.
pub record Still (s t : Interpreter) : Type 0 where
  pub frame : Frame s t
  pub pc : t.pc ≡ s.pc
  pub result : t.result ≡ s.result

-- An instruction stops the run, or goes on in the code, or has charged gas.
abbrev pub Progress : Interpreter → Interpreter → Type 0
Progress s t = (t.result ≢ none) ⊎ (s.pc < t.pc) ⊎ (s.gas.used < t.gas.used)

pub record Moved (s t : Interpreter) : Type 0 where
  pub frame : Frame s t
  pub progress :
      s.pc < length s.context.code
      → s.gas.used ≤ s.gas.limit
      → s.gas.limit < 2 ^ 64 - 1
      → Progress s t

-- The outcome is no lack of fuel; its state is in `P` if it is a value, and in `Q` if an error.
pub data Leaves {A : Type 0} (P Q : Interpreter → Type 0)
    : Outcome Interpreter EvmError A → Type 0 where
  returns : {a : A} {t : Interpreter} → P t → Leaves P Q (ok a t)
  raises : {e : EvmError} {t : Interpreter} → Q t → Leaves P Q (err e t)
  panics : Leaves P Q panic

pub record Steady {A : Type 0} (m : Evm A) : Type 0 where
  pub run : (s : Interpreter) → Leaves (Still s) (Frame s) (m s)

pub record Roams {A : Type 0} (m : Evm A) : Type 0 where
  pub run : (s : Interpreter) → Leaves (Frame s) (Frame s) (m s)

pub record Advances {A : Type 0} (m : Evm A) : Type 0 where
  pub run : (s : Interpreter) → Leaves (Moved s) (Frame s) (m s)

pub Still-refl : (s : Interpreter) → Still s s
Still-refl s = record { frame = Frame-refl s; pc = refl; result = refl }

Still-trans : {s t u : Interpreter} → Still s t → Still t u → Still s u
Still-trans f g = record {
  frame = Frame-trans f.frame g.frame;
  pc = g.pc ∙ f.pc;
  result = g.result ∙ f.result;
}

pub Still-Moved : {s t u : Interpreter} → Still s t → Moved t u → Moved s u
Still-Moved f g = record {
  frame = Frame-trans f.frame g.frame;
  progress = λ inside h k.
      let (up, within) = f.frame.metered h k in
      let n = ap (λ (c : ExecutionContext). length c.code) f.frame.context in
      let p = g.progress (omega (arith, n, f.pc, inside)) within (omega (arith, f.frame.limit)) in
      ground (arith, f.pc, up, p);
}

pub weaken :
    {B : Type 0} {P Q P' Q' : Interpreter → Type 0} {r : Outcome Interpreter EvmError B}
    → Leaves P Q r
    → ((t : Interpreter) → P t → P' t)
    → ((t : Interpreter) → Q t → Q' t)
    → Leaves P' Q' r
weaken (returns h) p q = returns (p _ h)
weaken (raises h) p q = raises (q _ h)
weaken panics p q = panics

module _ {A B : Type 0} where
  -- The rule for `>>=`, for states that compose.
  pub bind_rule :
      {P Q R : Interpreter → Type 0} (s : Interpreter) {r : Outcome Interpreter EvmError A}
      (f : A → Evm B)
      → Leaves P R r
      → ((a : A) (t : Interpreter) → P t → Leaves Q R (f a t))
      → Leaves Q R (((λ (x : Interpreter). r) >>= f) s)
  bind_rule s f (returns {a = a} {t = t} h) k = k a t h
  bind_rule s f (raises h) k = raises h
  bind_rule s f panics k = panics

  pub Steady-bind :
      {m : Evm A} {f : A → Evm B} → Steady m → ((a : A) → Steady (f a)) → Steady (m >>= f)
  Steady-bind {m} {f} h k = record {
    run = λ s.
        bind_rule s f (h.run s)
          λ a t st. weaken ((k a).run t) (λ u g. Still-trans st g) (λ u g. Frame-trans st.frame g);
  }

  pub Advances-bind :
      {m : Evm A} {f : A → Evm B} → Steady m → ((a : A) → Advances (f a)) → Advances (m >>= f)
  Advances-bind {m} {f} h k = record {
    run = λ s.
        bind_rule s f (h.run s)
          λ a t st. weaken ((k a).run t) (λ u g. Still-Moved st g) (λ u g. Frame-trans st.frame g);
  }

  pub Roams-bind : {m : Evm A} {f : A → Evm B} → Roams m → ((a : A) → Roams (f a)) → Roams (m >>= f)
  Roams-bind {m} {f} h k = record {
    run = λ s.
        bind_rule s f (h.run s)
          λ a t st. weaken ((k a).run t) (λ u g. Frame-trans st g) (λ u g. Frame-trans st g);
  }

module _ {A B : Type 0} where
  pub Steady-then : {m : Evm A} {n : Evm B} → Steady m → Steady n → Steady (m >> n)
  Steady-then h k = Steady-bind h (λ _. k)

  pub Advances-then : {m : Evm A} {n : Evm B} → Steady m → Advances n → Advances (m >> n)
  Advances-then h k = Advances-bind h (λ _. k)

  pub Roams-then : {m : Evm A} {n : Evm B} → Roams m → Roams n → Roams (m >> n)
  Roams-then h k = Roams-bind h (λ _. k)

module _ {A : Type 0} where
  pub Steady-Roams : {m : Evm A} → Steady m → Roams m
  Steady-Roams h = record { run = λ s. weaken (h.run s) (λ u g. g.frame) (λ u g. g) }

  pub Steady-pure : (a : A) → Steady (pure a)
  Steady-pure a = record { run = λ s. returns (Still-refl s) }

  pub Steady-gets : (f : Interpreter → A) → Steady (gets f)
  Steady-gets f = record { run = λ s. returns (Still-refl s) }

  pub Advances-fail : (e : EvmError) → Advances (fail {A = A} e)
  Advances-fail e = record { run = λ s. raises (Frame-refl s) }

  pub Steady-unwrap : (o : Option A) → Steady (unwrap o)
  unfolding unwrap
  Steady-unwrap none = record { run = λ s. panics }
  Steady-unwrap (some a) = record { run = λ s. returns (Still-refl s) }

  pub Advances-if :
      (b : Bool) {m n : Evm A} → Advances m → Advances n → Advances (if b then m else n)
  Advances-if true h k = h
  Advances-if false h k = k

  pub Roams-if : (b : Bool) {m n : Evm A} → Roams m → Roams n → Roams (if b then m else n)
  Roams-if true h k = h
  Roams-if false h k = k
