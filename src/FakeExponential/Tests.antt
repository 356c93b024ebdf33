-- ===== src/FakeExponential/Tests.antt =====
-- Base fees of small arguments.
use ziskethone.Prelude.{ℕ, ◌≡◌, refl, arith, some}
use ziskethone.FakeExponential.{fake_exponential}
use ziskethone.FakeExponential.Fuel.{fake_exponential-ends}

no_excess : fake_exponential 1 0 5007716 ≡ some 1
unfolding fake_exponential
no_excess = refl

-- 2 * e ^ (6 / 2), cut off in every turn.
three_halves : fake_exponential 2 6 2 ≡ some 38
unfolding fake_exponential
three_halves = refl

fake_exponential-ends_example : (v : ℕ) × (fake_exponential 2 6 2 ≡ some v)
fake_exponential-ends_example =
    fake_exponential-ends 2 6 2 (omega arith) (omega arith) (omega arith) (omega arith)
