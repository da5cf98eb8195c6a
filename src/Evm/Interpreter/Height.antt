-- ===== src/Evm/Interpreter/Height.antt =====
-- The height of the stack: the tables `stack_inputs` and `stack_outputs` are what the instructions do.
use ethereum_rust.Base.{
  ℕ, zero, suc, ◌+◌, ◌<◌, ◌≡◌, ◌≢◌, refl, Bool, true, false, List, [], ◌∷◌, Option, none, some,
  arith, if◌then◌else◌, length, ◌==◌, get_elem?, inl, inr, Option-cases,
}
use ethereum_rust.Base.Outcome.{Outcome, ok, err, panic, stuck, pure, fail, ◌>>=◌, ◌>>◌, gets}
use ethereum_rust.Evm.Error
use ethereum_rust.Evm.Error.{EvmError}
use ethereum_rust.Evm.Stack
use ethereum_rust.Evm.Stack.{Stack, StackM}
use ethereum_rust.Evm.Memory
use ethereum_rust.Evm.Memory.{Memory, MemoryM}
use ethereum_rust.Evm.Gas
use ethereum_rust.Evm.Machine.{
  Interpreter, Evm, ExecutionResult, with_stack, with_memory, with_gas, on_stack, on_memory,
  consume, pop, push, unwrap, next, finish,
}
use ethereum_rust.Evm.Instructions.{
  land, jump, pop_topics, guard_static, refuse_static, skip_immediate, write, append_log,
}
use ethereum_rust.Evm.Interpreter.Steps.{length-exchange}

-- The outcome is at this height, or an error that is no stack underflow.
pub data Lands {A : Type 0} (height : ℕ) : Outcome Interpreter EvmError A → Type 0 where
  returns : {a : A} {t : Interpreter} → length t.stack.items ≡ height → Lands height (ok a t)
  raises : {e : EvmError} {t : Interpreter} → e ≢ Error.stack_underflow → Lands height (err e t)
  panics : Lands height panic

-- A number of words on the stack, one by one.
pub data Height : Type 0 where
  floor : Height
  word : Height → Height

unfoldable pub above : Height → ℕ → ℕ
above floor base = base
above (word h) base = suc (above h base)

unfoldable pub words : ℕ → Height → Height
words zero h = h
words (suc n) h = word (words n h)

-- From `h` words above a base to `h'` words above it.
pub record Goes {A : Type 0} (h h' : Height) (m : Evm A) : Type 0 where
  pub run :
      (base : ℕ) (s : Interpreter)
      → length s.stack.items ≡ above h base
      → Lands (above h' base) (m s)

pub above-words : (n : ℕ) (h : Height) (base : ℕ) → above (words n h) base ≡ n + above h base
unfolding above words
above-words zero h base = omega arith
above-words (suc n) h base = omega (arith, above-words n h base)

module _ {A B : Type 0} where
  land_then :
      {h h' : ℕ} (s : Interpreter) {r : Outcome Interpreter EvmError A} (f : A → Evm B)
      → Lands h r
      → ((a : A) (t : Interpreter) → length t.stack.items ≡ h → Lands h' (f a t))
      → Lands h' (((λ (x : Interpreter). r) >>= f) s)
  land_then s f (returns {a = a} {t = t} e) k = k a t e
  land_then s f (raises e) k = raises e
  land_then s f panics k = panics

  pub Goes-bind :
      {h h' h'' : Height} {m : Evm A} {f : A → Evm B}
      → Goes h h' m
      → ((a : A) → Goes h' h'' (f a))
      → Goes h h'' (m >>= f)
  Goes-bind {f = f} g k = record {
    run = λ base s e. land_then s f (g.run base s e) λ a t e'. (k a).run base t e';
  }

module _ {A B : Type 0} where
  pub Goes-then :
      {h h' h'' : Height} {m : Evm A} {n : Evm B}
      → Goes h h' m
      → Goes h' h'' n
      → Goes h h'' (m >> n)
  Goes-then g k = Goes-bind g (λ _. k)

module _ {A : Type 0} where
  pub Goes-if :
      {h h' : Height} (b : Bool) {m n : Evm A}
      → Goes h h' m
      → Goes h h' n
      → Goes h h' (if b then m else n)
  Goes-if true g k = g
  Goes-if false g k = k

  pub Goes-pure : {h : Height} (a : A) → Goes h h (pure a)
  Goes-pure a = record { run = λ base s e. returns e }

  pub Goes-gets : {h : Height} (f : Interpreter → A) → Goes h h (gets f)
  Goes-gets f = record { run = λ base s e. returns e }

  pub Goes-fail :
      {h h' : Height} (e : EvmError) → e ≢ Error.stack_underflow → Goes h h' (fail {A = A} e)
  Goes-fail e k = record { run = λ base s l. raises k }

  pub Goes-unwrap : {h : Height} (o : Option A) → Goes h h (unwrap o)
  unfolding unwrap
  Goes-unwrap none = record { run = λ base s e. panics }
  Goes-unwrap (some a) = record { run = λ base s e. returns e }

-- The same of a method of the stack.
abbrev pub StackLands : {A : Type 0} → ℕ → Outcome Stack EvmError A → Type 0
StackLands h (ok a t) = length t.items ≡ h
StackLands h (err e t) = e ≢ Error.stack_underflow
StackLands h panic = Unit {0}
StackLands h stuck = ⊥

module _ {A : Type 0} where
  with_stack-Lands :
      {h : ℕ} (s : Interpreter) (r : Outcome Stack EvmError A)
      → StackLands h r
      → Lands h (with_stack s r)
  unfolding with_stack
  with_stack-Lands s (ok a t) e = returns e
  with_stack-Lands s (err x t) e = raises e
  with_stack-Lands s panic e = panics
  with_stack-Lands s stuck e = absurd e

  pub on_stack-Goes :
      {h h' : Height} (m : StackM A)
      → ((base : ℕ) (t : Stack) → length t.items ≡ above h base → StackLands (above h' base) (m t))
      → Goes h h' (on_stack m)
  unfolding on_stack
  on_stack-Goes m k = record { run = λ base s e. with_stack-Lands s (m s.stack) (k base s.stack e) }

pop_lands :
    (h : Height) (base : ℕ) (t : Stack)
    → length t.items ≡ above (word h) base
    → StackLands (above h base) (Stack.pop t)
unfolding Stack.pop above
pop_lands h base t e = ground (arith, e)

push_lands :
    (v : ℕ) (h : Height) (base : ℕ) (t : Stack)
    → length t.items ≡ above h base
    → StackLands (above (word h) base) (Stack.push v t)
unfolding Stack.push above
push_lands v h base t e = ground (arith, e)

pub dup_lands :
    (n : ℕ) (h : Height) (base : ℕ) (t : Stack)
    → n < above h base
    → length t.items ≡ above h base
    → StackLands (above (word h) base) (Stack.dup n t)
unfolding Stack.dup above
dup_lands n h base t l e = ground (arith, e, l)

pub swap_lands :
    (n : ℕ) (h : Height) (base : ℕ) (t : Stack)
    → n < above h base
    → length t.items ≡ above h base
    → StackLands (above h base) (Stack.swap n t)
unfolding Stack.swap above
swap_lands n h base t l e = elim (Option-cases (Stack.exchange n t.items)) [
  | inl x ↦ ground (arith, e, l, x)
  | inr (items, x) ↦ ground (arith, e, l, x, length-exchange n t.items items x)
]

pub pop-Goes : {h : Height} → Goes (word h) h pop
unfolding pop
pop-Goes {h} = on_stack-Goes Stack.pop (pop_lands h)

pub push-Goes : {h : Height} (v : ℕ) → Goes h (word h) (push v)
unfolding push
push-Goes {h} v = on_stack-Goes (Stack.push v) (push_lands v h)

with_gas-Lands :
    {A : Type 0} {h : ℕ} (s : Interpreter) (r : Outcome Gas.Gas EvmError A)
    → length s.stack.items ≡ h
    → ((e : EvmError) (g : Gas.Gas) → r ≡ err e g → e ≢ Error.stack_underflow)
    → r ≢ stuck
    → Lands h (with_gas s r)
unfolding with_gas
with_gas-Lands s (ok a t) e k l = returns e
with_gas-Lands s (err x t) e k l = raises (k x t refl)
with_gas-Lands s panic e k l = panics
with_gas-Lands s stuck e k l = absurd (l refl)

pub consume-Goes : {h : Height} (amount : ℕ) → Goes h h (consume amount)
unfolding consume Gas.consume
consume-Goes amount = record {
  run = λ base s e.
      with_gas-Lands s (Gas.consume amount s.gas) e (λ x g q r. ground arith) (λ q. ground arith);
}

with_memory-Lands :
    {A : Type 0} {h : ℕ} (s : Interpreter) (r : Outcome Memory EvmError A)
    → length s.stack.items ≡ h
    → ((e : EvmError) (g : Memory) → r ≡ err e g → e ≢ Error.stack_underflow)
    → r ≢ stuck
    → Lands h (with_memory s r)
unfolding with_memory
with_memory-Lands s (ok a t) e k l = returns e
with_memory-Lands s (err x t) e k l = raises (k x t refl)
with_memory-Lands s panic e k l = panics
with_memory-Lands s stuck e k l = absurd (l refl)

set_raises :
    (i : ℕ) (content : List ℕ) (m : Memory) (e : EvmError) (g : Memory)
    → Memory.set i content m ≡ err e g
    → e ≢ Error.stack_underflow
unfolding Memory.set
set_raises i [] m e g q r = cc
set_raises i (b ∷ content) m e g q r = ground arith

set_settles : (i : ℕ) (content : List ℕ) (m : Memory) → Memory.set i content m ≢ stuck
unfolding Memory.set
set_settles i [] m q = cc
set_settles i (b ∷ content) m q = ground arith

pub set-Goes : {h : Height} (i : ℕ) (content : List ℕ) → Goes h h (on_memory (Memory.set i content))
unfolding on_memory
set-Goes i content = record {
  run = λ base s e.
      with_memory-Lands s (Memory.set i content s.memory) e (set_raises i content s.memory)
        (set_settles i content s.memory);
}

pub set_byte-Goes : {h : Height} (i b : ℕ) → Goes h h (on_memory (Memory.set_byte i b))
unfolding on_memory Memory.set_byte
set_byte-Goes i b = record {
  run = λ base s e.
      with_memory-Lands s (Memory.set_byte i b s.memory) e (λ x g q r. ground arith)
        (λ q. ground arith);
}

pub next-Goes : {h : Height} → Goes h h next
unfolding next
next-Goes = record { run = λ base s e. returns e }

pub finish-Goes : {h : Height} (r : ExecutionResult) → Goes h h (finish r)
unfolding finish
finish-Goes r = record { run = λ base s e. returns e }

pub skip_immediate-Goes : {h : Height} (n : ℕ) → Goes h h (skip_immediate n)
unfolding skip_immediate
skip_immediate-Goes n = record { run = λ base s e. returns e }

pub write-Goes : {h : Height} (key value : ℕ) → Goes h h (write key value)
unfolding write
write-Goes key value = record { run = λ base s e. returns e }

pub append_log-Goes : {h : Height} (topics content : List ℕ) → Goes h h (append_log topics content)
unfolding append_log
append_log-Goes topics content = record { run = λ base s e. returns e }

guard_static-Lands :
    {h : ℕ} (b : Bool) (s : Interpreter) → length s.stack.items ≡ h → Lands h (guard_static b s)
unfolding guard_static
guard_static-Lands true s e = raises (λ q. cc)
guard_static-Lands false s e = returns e

pub refuse_static-Goes : {h : Height} → Goes h h refuse_static
unfolding refuse_static
refuse_static-Goes = record { run = λ base s e. guard_static-Lands s.context.is_static s e }

Lands-if :
    {A : Type 0} {h : ℕ} (b : Bool) {x y : Outcome Interpreter EvmError A}
    → Lands h x
    → Lands h y
    → Lands h (if b then x else y)
Lands-if true x y = x
Lands-if false x y = y

land-Lands :
    {h : ℕ} (dest : ℕ) (o : Option ℕ) (s : Interpreter)
    → length s.stack.items ≡ h
    → Lands h (land dest o s)
unfolding land
land-Lands dest none s e = raises (λ q. cc)
land-Lands dest (some b) s e = Lands-if (b == 0x5b) (returns e) (raises (λ q. cc))

pub jump-Goes : {h : Height} (dest : ℕ) → Goes h h (jump dest)
unfolding jump
jump-Goes dest = record { run = λ base s e. land-Lands dest (get_elem? s.context.code dest) s e }

pub pop_topics-Goes : {h : Height} (n : ℕ) → Goes (words n h) h (pop_topics n)
unfolding pop_topics words
pop_topics-Goes zero = Goes-pure []
pop_topics-Goes (suc n) =
    Goes-bind pop-Goes λ t. Goes-bind (pop_topics-Goes n) λ r. Goes-pure (t ∷ r)
