-- ===== src/Examples/Rounding.antt =====
-- The hundredths of the examples follow the laws of floating-point arithmetic that the share of
-- internal/engine/engine.go relies on.
use native.Mathlib.Nat.{
  le-div_iff_mul-le, div-mul-le_self, mul-le-mul_right, le_of_mul-le-mul_right, mul_right_comm,
}
use regbot.Base.{true, ℕ, ◌*◌, ◌/◌, ◌≤◌, ◌≡◌, subst, arith, leb, IsRounded}
use regbot.Examples.Sample.{hundredths}

div_monotone : (p b q d : ℕ) → 1 ≤ b → 1 ≤ d → p * d ≤ q * b → p / b ≤ q / d
div_monotone p b q d b_pos d_pos h = (le-div_iff_mul-le d_pos).1 (
    le_of_mul-le-mul_right
      (subst (λ x. x ≤ q * b) (mul_right_comm (p / b) b d)
        (omega (arith, mul-le-mul_right d (div-mul-le_self p b), h)))
      b_pos)

cross : (a b c d : ℕ) → a * d ≤ c * b → 100 * a * 100 * (100 * d) ≤ 100 * c * 100 * (100 * b)
cross a b c d h = grind arith

leb-true : (m n : ℕ) → m ≤ n → leb m n ≡ true
leb-true m n h = ground arith

pub hundredths-IsRounded : IsRounded hundredths
hundredths-IsRounded = record {
  mul_exact = λ a b h. grind arith;
  quotients = λ a b c d b_pos d_pos a_le b_le c_le d_le h. leb-true _ _ (
      div_monotone (100 * a * 100) (100 * b) (100 * c * 100) (100 * d) (omega arith) (omega arith)
        (cross a b c d h));
  round_half = λ k x k_le h. leb-true _ _ (ground arith);
  hundredths_le = λ x y h. leb-true _ _ (ground arith);
  hundredths_lt = λ n small. ground arith;
  le_lt = λ x y z h k. ground arith;
  lt_le = λ x y z h k. ground arith;
}
