-- ===== src/FakeExponential.antt =====
-- cpp-guest/src/fake_exponential.cpp. The loop runs on fuel; every variable of it is a 256-bit number
-- that wraps, and the three arguments are of 64 bits.
pub mod Fuel
mod Tests
use ziskethone.Prelude.{ℕ, zero, suc, ◌+◌, ◌*◌, ◌/◌, ◌%◌, Option, some, none}
use ziskethone.StateDb.{u256}

-- The test of the loop on `num_accum`, and one more turn of it.
unfoldable pub expand : ℕ → ℕ → ℕ → ℕ → ℕ → ℕ → Option ℕ
expand fuel numerator denominator output zero i = some output
expand zero numerator denominator output (suc num_accum) i = none
expand (suc fuel) numerator denominator output (suc num_accum) i =
    expand fuel numerator denominator ((output + suc num_accum) % u256)
      (((suc num_accum * numerator) % u256) / ((denominator * i) % u256)) ((i + 1) % u256)

-- Fuel for the turns until the divisor is twice the numerator, and then for a bit in each.
abbrev pub fuel_for : ℕ → ℕ
fuel_for numerator = 256 + 2 * numerator

unfoldable pub over : ℕ → Option ℕ → Option ℕ
over denominator (some output) = some (output / denominator)
over denominator none = none

unfoldable pub fake_exponential : ℕ → ℕ → ℕ → Option ℕ
unfolding expand over
fake_exponential factor numerator denominator =
    over denominator
      (expand (fuel_for numerator) numerator denominator 0 ((factor * denominator) % u256) 1)
