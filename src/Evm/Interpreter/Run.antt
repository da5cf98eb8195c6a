-- ===== src/Evm/Interpreter/Run.antt =====
-- The loop of `run`: it ends, and what it keeps.
use ethereum_rust.Base.{
  ℕ, zero, suc, ◌+◌, ◌-◌, ◌*◌, ◌≤◌, ◌<◌, ◌^◌, ◌≡◌, ◌≢◌, ◌⊎◌, inl, inr, refl, sym, subst, true, List,
  [], ◌∷◌, Option, none, some, arith, length, get_elem?,
}
use native.Mathlib.Nat.{mul-le-mul_right}
use ethereum_rust.Base.Outcome.{Outcome, ok, err, panic, stuck}
use ethereum_rust.Evm.Library.{Library}
use ethereum_rust.Evm.Error.{EvmError}
use ethereum_rust.Evm.Stack.{stack_limit}
use ethereum_rust.Evm.Machine.{Interpreter, ExecutionContext, ExecutionResult}
use ethereum_rust.Evm.Opcode.{Opcode, from_u8}
use ethereum_rust.Evm.Interpreter.{run, fetch, decode, settle, resume}
use ethereum_rust.Evm.Interpreter.Frame.{
  Frame, Frame-refl, Frame-trans, Moved, Leaves, returns, raises, panics,
}
use ethereum_rust.Evm.Interpreter.Progress.{execute_opcode-Advances}

-- What an outcome of the loop says: a result is reached in the frame of the start, there is no error,
-- and `Stuck` says whether the fuel may have run out.
abbrev Ends : Type 0 → Interpreter → Outcome Interpreter EvmError ExecutionResult → Type 0
Ends Stuck s (ok r t) = Frame s t
Ends Stuck s (err e t) = ⊥
Ends Stuck s panic = Unit {0}
Ends Stuck s stuck = Stuck

Ends-trans :
    (Stuck : Type 0) {s t : Interpreter} (o : Outcome Interpreter EvmError ExecutionResult)
    → Frame s t
    → Ends Stuck t o
    → Ends Stuck s o
Ends-trans Stuck (ok r u) f h = Frame-trans f h
Ends-trans Stuck (err e u) f h = h
Ends-trans Stuck panic f h = h
Ends-trans Stuck stuck f h = h

length-get_elem? : (xs : List ℕ) (i : ℕ) {b : ℕ} → get_elem? xs i ≡ some b → i < length xs
length-get_elem? [] i h = cc
length-get_elem? (x ∷ xs) zero h = omega arith
length-get_elem? (x ∷ xs) (suc i) h = omega (arith, length-get_elem? xs i h)

-- The fuel that a state needs: a pass over the code for each unit of gas that is left.
unfoldable pub fuel_needed : Interpreter → ℕ
fuel_needed s =
    (s.gas.limit - s.gas.used) * suc (length s.context.code) + (length s.context.code - s.pc)

abbrev Metered : Interpreter → Type 0
Metered s = (s.gas.used ≤ s.gas.limit) × (s.gas.limit < 2 ^ 64 - 1)

suc_mul : (a c : ℕ) → suc a * suc c ≡ suc c + a * suc c
suc_mul a c = omega arith

progress_pays :
    (g g' c p p' : ℕ)
    → g' ≤ g
    → p < c
    → (p < p') ⊎ (g' < g)
    → g' * suc c + (c - p') < g * suc c + (c - p)
progress_pays g g' c p p' h k (inl e) = omega (arith, mul-le-mul_right (suc c) h)
progress_pays g g' c p p' h k (inr e) = omega (arith, mul-le-mul_right (suc c) e, suc_mul g' c)

-- The same of a whole state.
progress_falls :
    (s t : Interpreter)
    → Metered s
    → Frame s t
    → s.pc < length s.context.code
    → (s.pc < t.pc) ⊎ (s.gas.used < t.gas.used)
    → fuel_needed t < fuel_needed s
unfolding fuel_needed
progress_falls s t (h, k) f i e =
    let (up, within) = f.metered h k in
    subst
      (λ (c : ExecutionContext).
        (t.gas.limit - t.gas.used) * suc (length c.code) + (length c.code - t.pc) < fuel_needed s)
      (sym f.context)
      (progress_pays (s.gas.limit - s.gas.used) (t.gas.limit - t.gas.used) (length s.context.code)
        s.pc t.pc (omega (arith, up, f.limit)) i
        (elim e [ inl p ↦ inl p | inr u ↦ inr (omega (arith, u, within, f.limit)) ]))

fuel_needed-falls :
    (s t : Interpreter)
    → s.pc < length s.context.code
    → Metered s
    → Moved s t
    → t.result ≡ none
    → fuel_needed t < fuel_needed s
fuel_needed-falls s t i h m e = elim (m.progress i h.0 h.1) [
  | inl r ↦ absurd (r e)
  | inr p ↦ progress_falls s t h m.frame i p
]

module _ (lib : Library) where
  resume-Ends :
      (Stuck : Type 0) (again : Interpreter → Outcome Interpreter EvmError ExecutionResult)
      (o : Option ExecutionResult) {s : Interpreter} (t : Interpreter)
      → Frame s t
      → (o ≡ none → Ends Stuck t (again t))
      → Ends Stuck s (resume lib again o t)
  unfolding resume
  resume-Ends Stuck again none t f h = Ends-trans Stuck (again t) f (h refl)
  resume-Ends Stuck again (some r) t f h = f

  settle-Ends :
      (Stuck : Type 0) (again : Interpreter → Outcome Interpreter EvmError ExecutionResult)
      {s : Interpreter} {o : Outcome Interpreter EvmError (Unit {0})}
      → Leaves (Moved s) (Frame s) o
      → ((t : Interpreter) → Moved s t → t.result ≡ none → Ends Stuck t (again t))
      → Ends Stuck s (settle lib again o)
  unfolding settle
  settle-Ends Stuck again (returns {t = t} m) h = resume-Ends Stuck again t.result t m.frame (h t m)
  settle-Ends Stuck again (raises f) h = f
  settle-Ends Stuck again panics h = tt

  decode-Ends :
      (Stuck : Type 0) (again : Interpreter → Outcome Interpreter EvmError ExecutionResult)
      (byte : ℕ) (o : Option Opcode) (s : Interpreter)
      → ((t : Interpreter) → Moved s t → t.result ≡ none → Ends Stuck t (again t))
      → Ends Stuck s (decode lib again byte o s)
  unfolding decode
  decode-Ends Stuck again b none s h = Frame-refl s
  decode-Ends Stuck again b (some op) s h =
      settle-Ends Stuck again ((execute_opcode-Advances lib op).run s) h

  fetch-Ends :
      (Stuck : Type 0) (again : Interpreter → Outcome Interpreter EvmError ExecutionResult)
      (o : Option ℕ) (s : Interpreter)
      → ((b : ℕ)
          → o ≡ some b
          → (t : Interpreter) → Moved s t
          → t.result ≡ none
          → Ends Stuck t (again t))
      → Ends Stuck s (fetch lib again o s)
  unfolding fetch
  fetch-Ends Stuck again none s h = Frame-refl s
  fetch-Ends Stuck again (some b) s h = decode-Ends Stuck again b (from_u8 b) s (h b refl)

  run-Ends :
      (fuel : ℕ) (s : Interpreter) → Metered s → fuel_needed s < fuel → Ends ⊥ s (run lib fuel s)
  unfolding run
  run-Ends zero s h k = absurd (omega arith)
  run-Ends (suc fuel) s h k =
      fetch-Ends ⊥ (run lib fuel) (get_elem? s.context.code s.pc) s λ b e t m n.
        let less = fuel_needed-falls s t (length-get_elem? s.context.code s.pc e) h m n in
        let within = (m.frame.metered h.0 h.1).1 in
        run-Ends fuel t (within, omega (arith, m.frame.limit, h.1)) (omega (arith, less))

  run-keeps : (fuel : ℕ) (s : Interpreter) → Ends (Unit {0}) s (run lib fuel s)
  unfolding run
  run-keeps zero s = tt
  run-keeps (suc fuel) s =
      fetch-Ends (Unit {0}) (run lib fuel) (get_elem? s.context.code s.pc) s
        λ b e t m n. run-keeps fuel t

  frame_of :
      {s : Interpreter} {r : ExecutionResult} {t : Interpreter}
      (o : Outcome Interpreter EvmError ExecutionResult)
      → Ends (Unit {0}) s o
      → o ≡ ok r t
      → Frame s t
  frame_of {s} o h e = subst (Ends (Unit {0}) s) e h

  -- With more fuel than `fuel_needed`, the loop of `run` does not run out of fuel, if the meter is
  -- within its limit and the limit is below the largest `u64`.
  pub run_terminates :
      (fuel : ℕ) (s : Interpreter)
      → s.gas.used ≤ s.gas.limit
      → s.gas.limit < 2 ^ 64 - 1
      → fuel_needed s < fuel
      → run lib fuel s ≢ stuck
  run_terminates fuel s h k m e = subst (Ends ⊥ s) e (run-Ends fuel s (h, k) m)

  -- `run` never returns an error: an instruction's error becomes a result.
  pub run_returns :
      (fuel : ℕ) (s : Interpreter) (e : EvmError) (t : Interpreter) → run lib fuel s ≢ err e t
  run_returns fuel s e t h = subst (Ends (Unit {0}) s) h (run-keeps fuel s)

  -- Where `run` returns, the gas limit is the one of the start, and the meter has not gone down and is
  -- within the limit, if it was within it at the start and the limit is below the largest `u64`.
  pub run_meters :
      (fuel : ℕ) (s : Interpreter) (r : ExecutionResult) (t : Interpreter)
      → s.gas.used ≤ s.gas.limit
      → s.gas.limit < 2 ^ 64 - 1
      → run lib fuel s ≡ ok r t
      → (t.gas.limit ≡ s.gas.limit) × (s.gas.used ≤ t.gas.used) × (t.gas.used ≤ t.gas.limit)
  run_meters fuel s r t h k e =
      let f = frame_of (run lib fuel s) (run-keeps fuel s) e in
      (f.limit, (f.metered h k).0, (f.metered h k).1)

  -- A run in a static call returns with the accounts and the logs that it started with.
  pub run-static_call :
      (fuel : ℕ) (s : Interpreter) (r : ExecutionResult) (t : Interpreter)
      → s.context.is_static ≡ true
      → run lib fuel s ≡ ok r t
      → (t.state ≡ s.state) × (t.logs ≡ s.logs)
  run-static_call fuel s r t h e =
      let f = frame_of (run lib fuel s) (run-keeps fuel s) e in (f.static_state h, f.static_logs h)

  -- A run that starts with at most 1024 words on the stack returns with at most 1024, in the same
  -- context.
  pub run_fits :
      (fuel : ℕ) (s : Interpreter) (r : ExecutionResult) (t : Interpreter)
      → length s.stack.items ≤ stack_limit
      → run lib fuel s ≡ ok r t
      → (length t.stack.items ≤ stack_limit) × (t.context ≡ s.context)
  run_fits fuel s r t h e =
      let f = frame_of (run lib fuel s) (run-keeps fuel s) e in (f.fits h, f.context)
