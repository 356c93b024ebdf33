-- ===== src/FakeExponential/Fuel.antt =====
-- The loop of `fake_exponential` ends.
use ziskethone.Prelude.{
  ℕ, zero, suc, ◌+◌, ◌*◌, ◌/◌, ◌%◌, ◌^◌, ◌≤◌, ◌<◌, ◌≡◌, refl, sym, ap, ◌∙◌, arith, some, subst,
}
use native.Mathlib.Nat.{
  mod-eq_of_lt, mod-le, mul-le-mul, div-lt_iff_lt-mul, two-pow-succ, mul-pos, add-mul, mul-add,
  div-le_self, mod-lt,
}
use ziskethone.StateDb.{u256}
use ziskethone.FakeExponential.{expand, over, fuel_for, fake_exponential}

same : (n : ℕ) → n ≤ n
same n = omega arith

product_below :
    (acc numerator divisor power : ℕ)
    → acc < power + power
    → 1 ≤ divisor
    → 2 * numerator ≤ divisor
    → acc * numerator < power * divisor
product_below acc zero divisor power h d l =
    let positive : 0 < power * divisor = mul-pos (omega arith) (omega arith) in
    omega (arith, positive)
product_below acc (suc n) divisor power h d l =
    let one_more : (1 + acc) * suc n ≤ (power + power) * suc n =
      mul-le-mul (omega arith) (same (suc n)) in
    let doubled : power * (2 * suc n) ≤ power * divisor = mul-le-mul (same power) l in
    let left = add-mul 1 acc (suc n) in
    let right = add-mul power power (suc n) in
    let regroup : power * (2 * suc n) ≡ power * suc n + power * suc n =
      ap (λ x. power * x) (twice (suc n)) ∙ mul-add power (suc n) (suc n) in
    omega (arith, one_more, doubled, left, right, regroup)
  where
    twice : (m : ℕ) → 2 * m ≡ m + m
    twice m = omega arith

-- One turn halves a bound of the accumulator once the divisor is twice the numerator.
turn_halves :
    (acc numerator divisor power : ℕ)
    → acc < power + power
    → 1 ≤ divisor
    → 2 * numerator ≤ divisor
    → divisor < u256
    → ((acc * numerator) % u256) / (divisor % u256) < power
turn_halves acc numerator divisor power h d l w =
    let exact : divisor % u256 ≡ divisor = mod-eq_of_lt w in
    let below = product_below acc numerator divisor power h d l in
    let wrapped = mod-le (acc * numerator) u256 in
    subst (λ x. ((acc * numerator) % u256) / x < power) (sym exact)
      ((div-lt_iff_lt-mul (omega arith)).1 (omega (arith, below, wrapped)))

-- Whatever the turn, the accumulator stays a 256-bit number.
turn_below : (acc numerator divisor : ℕ) → ((acc * numerator) % u256) / divisor < u256
turn_below acc numerator divisor =
    let wrapped : (acc * numerator) % u256 < u256 = mod-lt (acc * numerator) (omega arith) in
    let divided = div-le_self ((acc * numerator) % u256) divisor in omega (arith, wrapped, divided)

-- The turns of the loop that halve the accumulator: as many as it has bits.
halving :
    (bits numerator denominator output acc i : ℕ)
    → acc < 2 ^ bits
    → 1 ≤ denominator
    → 2 * numerator ≤ i
    → 1 ≤ i
    → denominator * (i + bits) < u256
    → (v : ℕ) × (expand bits numerator denominator output acc i ≡ some v)
unfolding expand
halving bits numerator denominator output zero i h d l p w = (output, refl)
halving zero numerator denominator output (suc n) i h d l p w = absurd (omega arith)
halving (suc bits) numerator denominator output (suc n) i h d l p w =
    let whole : 1 * (i + suc bits) ≤ denominator * (i + suc bits) = mul-le-mul d (same _) in
    let small : denominator * i ≤ denominator * (i + suc bits) =
      mul-le-mul (same denominator) (omega arith) in
    let large : 1 * i ≤ denominator * i = mul-le-mul d (same i) in
    let next : (i + 1) % u256 ≡ i + 1 = mod-eq_of_lt (omega (arith, whole, w)) in
    let halved =
      turn_halves (suc n) numerator (denominator * i) (2 ^ bits)
        (subst (λ x. suc n < x) (two-pow-succ bits) h) (omega (arith, large)) (omega (arith, large))
        (omega (arith, small, w)) in
    let later : denominator * (i + 1 + bits) < u256 =
      subst (λ x. denominator * x < u256) (shifted i bits) w in
    subst
      (λ x.
        (v : ℕ) × (expand bits numerator denominator ((output + suc n) % u256)
            ((suc n * numerator % u256) / (denominator * i % u256)) x
          ≡ some v))
      (sym next)
      (halving bits numerator denominator _ _ (i + 1) halved d (omega arith) (omega arith) later)
  where
    shifted : (i n : ℕ) → i + suc n ≡ i + 1 + n
    shifted i n = omega arith

-- The turns until the divisor is twice the numerator, and the others.
ending :
    (fuel turns numerator denominator output acc i : ℕ)
    → fuel ≡ 256 + turns
    → acc < u256
    → 1 ≤ denominator
    → 2 * numerator ≤ i + turns
    → 1 ≤ i
    → denominator * (i + fuel) < u256
    → (v : ℕ) × (expand fuel numerator denominator output acc i ≡ some v)
unfolding expand
ending fuel zero numerator denominator output acc i e h d l p w =
    let bits : 256 ≡ fuel = omega arith in
    subst (λ f. (v : ℕ) × (expand f numerator denominator output acc i ≡ some v)) bits
      (halving 256 numerator denominator output acc i h d (omega arith) p
        (subst (λ f. denominator * (i + f) < u256) (sym bits) w))
ending zero (suc turns) numerator denominator output acc i e h d l p w = absurd (omega arith)
ending (suc fuel) (suc turns) numerator denominator output zero i e h d l p w = (output, refl)
ending (suc fuel) (suc turns) numerator denominator output (suc n) i e h d l p w =
    let whole : 1 * (i + suc fuel) ≤ denominator * (i + suc fuel) = mul-le-mul d (same _) in
    let next : (i + 1) % u256 ≡ i + 1 = mod-eq_of_lt (omega (arith, whole, w)) in
    let later : denominator * (i + 1 + fuel) < u256 =
      subst (λ x. denominator * x < u256) (shifted i fuel) w in
    subst
      (λ x.
        (v : ℕ) × (expand fuel numerator denominator ((output + suc n) % u256)
            ((suc n * numerator % u256) / (denominator * i % u256)) x
          ≡ some v))
      (sym next)
      (ending fuel turns numerator denominator _ _ (i + 1) (omega arith)
        (turn_below (suc n) numerator (denominator * i % u256)) d (omega arith) (omega arith) later)
  where
    shifted : (i n : ℕ) → i + suc n ≡ i + 1 + n
    shifted i n = omega arith

-- For any arguments of 64 bits with a denominator that is not zero, the loop of `fake_exponential` ends
-- within 256 turns more than twice the numerator, so that it has a value.
pub fake_exponential-ends :
    (factor numerator denominator : ℕ)
    → factor < 2 ^ 64
    → numerator < 2 ^ 64
    → denominator < 2 ^ 64
    → 1 ≤ denominator
    → (v : ℕ) × (fake_exponential factor numerator denominator ≡ some v)
unfolding fake_exponential
fake_exponential-ends factor numerator denominator f n d p =
    let start : (factor * denominator) % u256 < u256 =
      mod-lt (factor * denominator) (omega arith) in
    let bound : denominator * (1 + fuel_for numerator) ≤ 2 ^ 64 * 2 ^ 66 =
      mul-le-mul {n₂ = 2 ^ 64} {m₂ = 2 ^ 66} (omega arith) (omega arith) in
    let (v, e) =
      ending (fuel_for numerator) (2 * numerator) numerator denominator 0
        ((factor * denominator) % u256) 1 refl start p (omega arith) (omega arith)
        (omega (arith, bound)) in
    (v / denominator, ap (over denominator) e)
