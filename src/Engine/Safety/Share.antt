-- ===== src/Engine/Safety/Share.antt =====
-- What `percent` of internal/engine/engine.go says of integers: a share that is not above a limit, as
-- floating-point numbers, is below it by the exact numbers, but for the rounding to hundredths.
use regbot.Base.{
  true, false, ℕ, suc, ◌+◌, ◌*◌, ◌≤◌, ◌<◌, ◌≡◌, refl, arith, sym, ◌∙◌, subst, inl, inr, Bool-cases,
  leb, ◌==◌, Float64, IsRounded, max_exact, quotient, pos,
}
use regbot.Engine.Safety.{percent}

-- Less than n hundredths of a percent and a half of one, of the total.
abbrev pub IsShareBelow : ℕ → ℕ → ℕ → Type 0
IsShareBelow n deletes total = 20000 * deletes < (2 * n + 1) * total

true_false : {A : Type 0} → true ≡ false → A
true_false e = cc

module _ {F : Type 0} (f : Float64 F) (laws : IsRounded f) where
  percent-exact :
      (d t : ℕ)
      → 1 ≤ t
      → d * 10000 ≤ max_exact
      → percent f d t ≡ f.div (f.round (quotient f (d * 10000) t)) (f.of_int (pos 100))
  unfolding percent
  percent-exact d t some_total d_le = elim (Bool-cases (t == 0)) [
    | inl e ↦ absurd (ground arith)
    | inr e ↦ rw (e, laws.mul_exact d 10000 d_le) refl
  ]

  percent_above :
      (n d t : ℕ)
      → n ≤ 10000
      → 1 ≤ t
      → t ≤ max_exact
      → d * 10000 ≤ max_exact
      → (2 * n + 1) * t ≤ (d * 10000) * 2
      → f.le (quotient f (suc n) 100) (percent f d t) ≡ true
  percent_above n d t small some_total t_le d_le above =
      subst (λ x. f.le (quotient f (suc n) 100) x ≡ true) (sym (percent-exact d t some_total d_le))
        (laws.hundredths_le (f.of_int (pos (suc n))) (f.round (quotient f (d * 10000) t)) (
          laws.round_half n (quotient f (d * 10000) t) (omega arith) (
            laws.quotients (2 * n + 1) 2 (d * 10000) t (omega arith) some_total (omega arith)
              (omega arith) d_le t_le above)))

  pub percent-IsShareBelow :
      (max : F) (n d t : ℕ)
      → n ≤ 10000
      → f.le max (quotient f n 100) ≡ true
      → 1 ≤ t
      → d ≤ t
      → 10000 * t ≤ max_exact
      → f.lt max (percent f d t) ≡ false
      → IsShareBelow n d t
  percent-IsShareBelow max n d t small limit some_total le exact passed =
      elim (Bool-cases (leb ((2 * n + 1) * t) ((d * 10000) * 2))) [
        | inl above ↦ absurd (
            true_false (
              sym (
                laws.lt_le max (quotient f (suc n) 100) (percent f d t)
                  (laws.le_lt max (quotient f n 100) (quotient f (suc n) 100) limit
                    (laws.hundredths_lt n small))
                  (percent_above n d t small some_total (omega arith) (omega arith) (ground arith)))
              ∙ passed))
        | inr below ↦ ground arith
      ]
