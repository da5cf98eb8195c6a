-- ===== src/Evm/Interpreter/Ends.antt =====
-- The ends of an instruction: on to the next one, a jump, a write, or the end of the run.
use ethereum_rust.Base.{
  ℕ, suc, ◌-◌, ◌≤◌, ◌<◌, ◌^◌, ◌≡◌, refl, ap, Bool, true, false, ◌∙◌, List, Option, none, some,
  arith, if◌then◌else◌, get_elem?, inl, inr, ◌==◌,
}
use ethereum_rust.Base.Outcome.{Outcome, ok, err, panic, stuck, ◌>>=◌, ◌>>◌}
use ethereum_rust.Evm.Error.{EvmError}
use ethereum_rust.Evm.Gas
use ethereum_rust.Evm.Gas.{Gas}
use ethereum_rust.Evm.Machine.{
  Interpreter, Evm, ExecutionContext, ExecutionResult, with_gas, consume, next, finish,
}
use ethereum_rust.Evm.Instructions.{
  land, jump, refuse_static, skip_immediate, immediate_end, guard_static, write, append_log,
}
use ethereum_rust.Evm.Interpreter.Frame.{
  Frame, Frame-refl, Frame-trans, Still-Moved, Moved, Leaves, returns, raises, panics, Steady,
  Roams, Advances, bind_rule, weaken,
}
use ethereum_rust.Evm.Interpreter.Steps.{gas_frame, pc_frame, Charged}

-- The ends of an instruction.
pub next-Advances : Advances next
unfolding next
next-Advances = record {
  run = λ s.
      returns
        (record { frame = pc_frame s (suc s.pc); progress = λ i h k. inr (inl (omega arith)) });
}

pub finish-Advances : (r : ExecutionResult) → Advances (finish r)
unfolding finish
finish-Advances r = record {
  run = λ s. returns (record {
    frame = record {
      context = refl;
      limit = refl;
      metered = λ b k. (omega arith, b);
      fits = λ b. b;
      static_state = λ b. refl;
      static_logs = λ b. refl;
    };
    progress = λ i h k. inl (λ e. cc);
  });
}

Leaves-if :
    {A : Type 0} {P Q : Interpreter → Type 0} (b : Bool) {x y : Outcome Interpreter EvmError A}
    → Leaves P Q x
    → Leaves P Q y
    → Leaves P Q (if b then x else y)
Leaves-if true h k = h
Leaves-if false h k = k

land-Leaves :
    (dest : ℕ) (o : Option ℕ) (s : Interpreter) → Leaves (Frame s) (Frame s) (land dest o s)
unfolding land
land-Leaves dest none s = raises (Frame-refl s)
land-Leaves dest (some b) s =
    Leaves-if (b == 0x5b) (returns (pc_frame s dest)) (raises (Frame-refl s))

pub jump-Roams : (dest : ℕ) → Roams (jump dest)
unfolding jump
jump-Roams dest = record { run = λ s. land-Leaves dest (get_elem? s.context.code dest) s }

pub next-Roams : Roams next
unfolding next
next-Roams = record { run = λ s. returns (pc_frame s (suc s.pc)) }

-- A charge of at least one is progress, whatever follows.
abbrev Spent : {A : Type 0} → Gas → Outcome Gas EvmError A → Type 0
Spent g (ok a u) =
    (u.limit ≡ g.limit)
    × (g.used ≤ g.limit → g.limit < 2 ^ 64 - 1 → (g.used < u.used) × (u.used ≤ u.limit))
Spent g (err e u) = Charged g u
Spent g panic = Unit {0}
Spent g stuck = ⊥

consume-Spent : (amount : ℕ) (g : Gas) → 0 < amount → Spent g (Gas.consume amount g)
unfolding Gas.consume
consume-Spent amount g h = ground arith

abbrev Paid : Interpreter → Interpreter → Type 0
Paid s t =
    Frame s t
    × (s.gas.used ≤ s.gas.limit
        → s.gas.limit < 2 ^ 64 - 1
        → (s.gas.used < t.gas.used) × (t.gas.used ≤ t.gas.limit))

with_gas-Paid :
    (s : Interpreter) (r : Outcome Gas EvmError (Unit {0}))
    → Spent s.gas r
    → Leaves (Paid s) (Frame s) (with_gas s r)
unfolding with_gas
with_gas-Paid s (ok a t) h =
    returns (gas_frame s t (h.0, λ b k. (omega (arith, (h.1 b k).0), (h.1 b k).1)), h.1)
with_gas-Paid s (err e t) h = raises (gas_frame s t h)
with_gas-Paid s panic h = panics
with_gas-Paid s stuck h = absurd h

pub charge-Advances :
    (amount : ℕ) {m : Evm (Unit {0})} → 0 < amount → Roams m → Advances (consume amount >> m)
unfolding consume
charge-Advances amount {m} h k = record {
  run = λ s.
      bind_rule s (λ _. m) (with_gas-Paid s _ (consume-Spent amount s.gas h))
        λ a t (f, more).
          weaken (k.run t)
            (λ u g. record {
              frame = Frame-trans f g;
              progress = λ i b l.
                  let (spent, within) = more b l in
                  let (up, _) = g.metered within (omega (arith, f.limit)) in
                  inr (inr (omega (arith, spent, up)));
            })
            (λ u g. Frame-trans f g);
}

-- An instruction that is run in no static call.
pub record Changes {A : Type 0} (m : Evm A) : Type 0 where
  pub run : (s : Interpreter) → s.context.is_static ≡ false → Leaves (Moved s) (Frame s) (m s)

pub Changes-bind :
    {A B : Type 0} {m : Evm A} {f : A → Evm B}
    → Steady m
    → ((a : A) → Changes (f a))
    → Changes (m >>= f)
Changes-bind {m = m} {f = f} h k = record {
  run = λ s e. bind_rule s f (h.run s) λ a t st.
      weaken ((k a).run t (ap (λ (c : ExecutionContext). c.is_static) st.frame.context ∙ e))
        (λ u g. Still-Moved st g) (λ u g. Frame-trans st.frame g);
}

pub Changes-then : {A B : Type 0} {m : Evm A} {n : Evm B} → Steady m → Changes n → Changes (m >> n)
Changes-then h k = Changes-bind h (λ _. k)

changed :
    (s : Interpreter) (t : Interpreter)
    → t.context ≡ s.context
    → t.gas ≡ s.gas
    → t.stack ≡ s.stack
    → s.context.is_static ≡ false
    → s.pc < t.pc
    → Moved s t
changed s t c g k e p = record {
  frame = record {
    context = c;
    limit = ap (λ (u : Gas). u.limit) g;
    metered = λ b l. ground (arith, g);
    fits = λ b. ground (arith, k);
    static_state = λ b. cc;
    static_logs = λ b. cc;
  };
  progress = λ i b l. inr (inl p);
}

pub write-Changes : (key value : ℕ) → Changes (write key value >> next)
unfolding write next
write-Changes key value = record {
  run = λ s e. returns (changed s _ refl refl refl e (omega arith));
}

pub append_log-Changes : (topics content : List ℕ) → Changes (append_log topics content >> next)
unfolding append_log next
append_log-Changes topics content = record {
  run = λ s e. returns (changed s _ refl refl refl e (omega arith));
}

guarded :
    {m : Evm (Unit {0})} (s : Interpreter) (b : Bool)
    → s.context.is_static ≡ b
    → Changes m
    → Leaves (Moved s) (Frame s) (((λ (x : Interpreter). guard_static b s) >>= λ _. m) s)
unfolding guard_static
guarded s true e h = raises (Frame-refl s)
guarded s false e h = h.run s e

pub refuse_static-Advances : {m : Evm (Unit {0})} → Changes m → Advances (refuse_static >> m)
unfolding refuse_static
refuse_static-Advances {m} h = record { run = λ s. guarded s s.context.is_static refl h }

pub skip_immediate-Advances : (n : ℕ) → Advances (skip_immediate n)
unfolding skip_immediate
skip_immediate-Advances n = record {
  run = λ s. returns (record {
    frame = pc_frame s (immediate_end n s);
    progress = λ inside b l. inr (inl (omega arith));
  });
}
