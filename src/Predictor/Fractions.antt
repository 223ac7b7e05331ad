-- ===== src/Predictor/Fractions.antt =====
-- Fractions of natural numbers that lie between two whole numbers.
use native.Mathlib.Nat.{mul-le-mul_left, mul-le-mul_right, mul-pos}
use drone_runner_aws.Base.{ℕ, ◌+◌, ◌-◌, ◌*◌, ◌/◌, ◌≤◌, ◌<◌, ◌≡◌, ap, arith}

pub record Fraction : Type 0 where
  pub num : ℕ
  pub den : ℕ

abbrev pub whole : ℕ → Fraction
whole n = record { num = n; den = 1 }

-- The least whole number that is not below the fraction.
unfoldable pub ceiling : Fraction → ℕ
ceiling f = (f.num + f.den - 1) / f.den

pub record Between (lo hi : ℕ) (f : Fraction) : Type 0 where
  pub positive : 0 < f.den
  pub above : lo * f.den ≤ f.num
  pub below : f.num ≤ hi * f.den

pub Between-whole : (lo hi n : ℕ) → lo ≤ n → n ≤ hi → Between lo hi (whole n)
Between-whole lo hi n h k = record {
  positive = omega arith;
  above = omega arith;
  below = omega arith;
}

pub Between-ceiling :
    (lo hi : ℕ) (f : Fraction) → Between lo hi f → (lo ≤ ceiling f) × (ceiling f ≤ hi)
unfolding ceiling
Between-ceiling lo hi f b = (grind arith, grind arith)

-- One step of the smoothing, which weighs the new value with 2 / (p + 1).
pub Between-smooth :
    (lo hi p v : ℕ) (f : Fraction)
    → 1 ≤ p
    → lo ≤ v
    → v ≤ hi
    → Between lo hi f
    → Between lo hi (record { num = 2 * v * f.den + (p - 1) * f.num; den = (p + 1) * f.den })
Between-smooth lo hi p v f some h g b =
    let split : (p - 1) + 2 ≡ p + 1 = omega arith in
    record {
      positive = grind (arith, b.positive);
      above = omega (
        arith,
        ap (λ (t : ℕ). t * (lo * f.den)) split,
        mul-le-mul_right f.den h,
        mul-le-mul_left (p - 1) b.above,
      );
      below = omega (
        arith,
        ap (λ (t : ℕ). t * (hi * f.den)) split,
        mul-le-mul_right f.den g,
        mul-le-mul_left (p - 1) b.below,
      );
    }

-- The weighted mean of two fractions, with weights w and u that make 100.
pub Between-mean :
    (lo hi w u : ℕ) (e h : Fraction)
    → w + u ≡ 100
    → Between lo hi e
    → Between lo hi h
    → Between lo hi
        (record { num = w * e.num * h.den + u * h.num * e.den; den = 100 * (e.den * h.den) })
Between-mean lo hi w u e h sum b c = record {
  positive = omega (arith, mul-pos b.positive c.positive);
  above = omega (
    arith,
    ap (λ (t : ℕ). t * (lo * (e.den * h.den))) sum,
    mul-le-mul_left w (mul-le-mul_right h.den b.above),
    mul-le-mul_left u (mul-le-mul_right e.den c.above),
  );
  below = omega (
    arith,
    ap (λ (t : ℕ). t * (hi * (e.den * h.den))) sum,
    mul-le-mul_left w (mul-le-mul_right h.den b.below),
    mul-le-mul_left u (mul-le-mul_right e.den c.below),
  );
}
