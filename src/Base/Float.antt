-- ===== src/Base/Float.antt =====
-- What the program does with a float64: the interface of Go's floating-point arithmetic, which the
-- theorems take as a parameter, with the documented laws that they rely on.
use mathlib.Core.Path.{◌≡◌}
use mathlib.Core.Bool.{Bool, true, false}
use Prim.Native.Nat.{ℕ, suc, ◌+◌, ◌*◌, ◌^◌, ◌≤◌}
use regbot.Base.Int.{ℤ, pos}

pub record Float64 (F : Type 0) : Type 0 where
  pub of_int : ℤ → F
  pub mul : F → F → F
  pub div : F → F → F
  pub round : F → F
  pub lt : F → F → Bool
  pub le : F → F → Bool

-- A value that is not a number: every comparison with it is false.
pub record IsNan {F : Type 0} (f : Float64 F) (x : F) : Type 0 where
  pub lt_left : (y : F) → f.lt x y ≡ false
  pub lt_right : (y : F) → f.lt y x ≡ false
  pub le_left : (y : F) → f.le x y ≡ false
  pub le_right : (y : F) → f.le y x ≡ false

-- Up to here a float64 holds each integer exactly.
abbrev pub max_exact : ℕ
max_exact = 2 ^ 53

-- a / b, of integers.
abbrev pub quotient : {F : Type 0} → Float64 F → ℕ → ℕ → F
quotient f a b = f.div (f.of_int (pos a)) (f.of_int (pos b))

-- What IEEE 754 and Go's `math.Round` say of integers that a float64 holds exactly: their products are
-- exact, their quotients are rounded and so in the order of the exact ones, a half is rounded up, a
-- division by 100 keeps the order, and hundredths up to 100 are told apart.
pub record IsRounded {F : Type 0} (f : Float64 F) : Type 0 where
  pub mul_exact :
      (a b : ℕ)
      → a * b ≤ max_exact
      → f.mul (f.of_int (pos a)) (f.of_int (pos b)) ≡ f.of_int (pos (a * b))
  pub quotients :
      (a b c d : ℕ)
      → 1 ≤ b
      → 1 ≤ d
      → a ≤ max_exact
      → b ≤ max_exact
      → c ≤ max_exact
      → d ≤ max_exact
      → a * d ≤ c * b
      → f.le (quotient f a b) (quotient f c d) ≡ true
  pub round_half :
      (k : ℕ) (x : F)
      → 2 * k + 1 ≤ max_exact
      → f.le (quotient f (2 * k + 1) 2) x ≡ true
      → f.le (f.of_int (pos (suc k))) (f.round x) ≡ true
  pub hundredths_le :
      (x y : F)
      → f.le x y ≡ true
      → f.le (f.div x (f.of_int (pos 100))) (f.div y (f.of_int (pos 100))) ≡ true
  pub hundredths_lt : (n : ℕ) → n ≤ 10000 → f.lt (quotient f n 100) (quotient f (suc n) 100) ≡ true
  pub le_lt : (x y z : F) → f.le x y ≡ true → f.lt y z ≡ true → f.lt x z ≡ true
  pub lt_le : (x y z : F) → f.lt x y ≡ true → f.le y z ≡ true → f.lt x z ≡ true
