-- ===== src/Core/BlobGas/Fees.antt =====
-- crates/core/src/eip7691.rs: the base fee never falls below the least fee.
use native.Mathlib.Nat.{le-div_iff_mul-le}
use ethereum_rust.Base.{
  ℕ, zero, suc, ◌+◌, ◌*◌, ◌/◌, ◌≤◌, ◌<◌, ◌≡◌, refl, sym, subst, Bool, true, false, Option, none,
  some, arith, ◌==◌, ==_iff,
}
use ethereum_rust.Core.BlobGas.{
  BlobGasConfig, checked, and_then, checked_div, exponential_loop, fake_exponential,
  calculate_blob_base_fee,
}

and_then-some :
    {A B : Type 0} (o : Option A) (f : A → Option B) (b : B)
    → and_then o f ≡ some b
    → (a : A) × (o ≡ some a) × (f a ≡ some b)
and_then-some none f b h = cc
and_then-some (some a) f b h = (a, refl, h)

some-inj : (a b : ℕ) → some a ≡ some b → a ≡ b
some-inj a b h = cc h

-- The rest of a round, whose `output` has grown already.
abbrev round : ℕ → ℕ → ℕ → ℕ → ℕ → ℕ → Option ℕ
round k i numerator denominator output' accum = and_then (checked (accum * numerator)) λ product.
    and_then (checked (denominator * i)) λ divisor.
      and_then (checked_div product divisor)
        λ accum'. exponential_loop k (i + 1) numerator denominator output' accum'

checked-some : (n m : ℕ) → checked n ≡ some m → m ≡ n
checked-some n m h = ground (arith, h)

round_grows :
    (k : ℕ)
    → ((i n d output accum r : ℕ) → exponential_loop k i n d output accum ≡ some r → output ≤ r)
    → (i n d output accum r : ℕ) → round k i n d output accum ≡ some r
    → output ≤ r
round_grows k ih i n d output accum r h =
    let (product, _, h1) = and_then-some (checked (accum * n)) _ r h in
    let (divisor, _, h2) = and_then-some (checked (d * i)) _ r h1 in
    let (accum', _, h3) = and_then-some (checked_div product divisor) _ r h2 in
    ih (i + 1) n d output accum' r h3

first_round :
    (k : ℕ)
    → ((i n d output accum r : ℕ) → exponential_loop k i n d output accum ≡ some r → output ≤ r)
    → (i n d output accum r : ℕ) (b : Bool) → (accum == 0) ≡ b
    → elim b [
      | true ↦ some output
      | false ↦ and_then (checked (output + accum)) λ output'. round k i n d output' accum
    ]
      ≡ some r
    → output + accum ≤ r
first_round k ih i n d output accum r true e h =
    omega (arith, (==_iff accum 0).0 e, some-inj output r h)
first_round k ih i n d output accum r false e h =
    let (output', f, h1) = and_then-some (checked (output + accum)) _ r h in
    omega
      (arith, checked-some (output + accum) output' f, round_grows k ih i n d output' accum r h1)

-- The loop returns no less than the sum that its first round makes.
loop_grows :
    (k i n d output accum r : ℕ)
    → exponential_loop (suc k) i n d output accum ≡ some r
    → output + accum ≤ r
unfolding exponential_loop
loop_grows zero i n d output accum r h =
    first_round zero (λ i n d output accum r h. omega (arith, some-inj output r h)) i n d output
      accum r (accum == 0) refl h
loop_grows (suc k) i n d output accum r h =
    first_round (suc k)
      (λ i n d output accum r h. omega (arith, loop_grows k i n d output accum r h)) i n d output
      accum r (accum == 0) refl h

divided : (a b r : ℕ) → checked_div a b ≡ some r → (0 < b) × (r ≡ a / b)
divided a b r h = ground (arith, h)

-- Where `calculate_blob_base_fee` returns, the base fee for blobs is at least the least fee of the
-- configuration.
pub calculate_blob_base_fee_bounded :
    (excess r : ℕ) (config : BlobGasConfig)
    → calculate_blob_base_fee excess config ≡ some r
    → config.min_blob_base_fee ≤ r
unfolding calculate_blob_base_fee fake_exponential
calculate_blob_base_fee_bounded excess r config h =
    let factor = config.min_blob_base_fee in
    let d = config.blob_base_fee_update_fraction in
    let (accum, e1, h1) = and_then-some (checked (factor * d)) _ r h in
    let (output, e2, h2) = and_then-some (exponential_loop 256 1 excess d 0 accum) _ r h1 in
    let (pos, q) = divided output d r h2 in
    subst (λ v. factor ≤ v) (sym q)
      ((le-div_iff_mul-le {k = d} {x = factor} {y = output} pos).1 (
        omega
          (arith, loop_grows 255 1 excess d 0 accum output e2, checked-some (factor * d) accum e1)))
