-- ===== src/Policy/Calendar/Decimals.antt =====
-- Texts of digits as pkg/policy/policy.go reads them by Go's `strconv` and `strings`.
use regbot.Base.{
  Bool, true, false, not, ◌&&◌, ℕ, zero, suc, ◌+◌, ◌*◌, ◌/◌, ◌%◌, ◌≤◌, ◌<◌, [], ◌∷◌, ◌++◌, Str,
  some, all, ltb, leb, ◌==◌, if◌then◌else◌, ◌≡◌, refl, arith, ap, ◌∙◌, Bool-cases, inl, inr,
}
use regbot.Policy.Numbers.{is_digit, digits_from, unsigned, parse_uint, max_u64, cut, split}

abbrev pub digit : ℕ → ℕ
digit n = b'0' + n

-- The digits of a number, in front of a text.
decimal_from : ℕ → ℕ → Str → Str
decimal_from zero n s = digit n ∷ s
decimal_from (suc fuel) n s =
    let rest = decimal_from fuel (n / 10) (digit (n % 10) ∷ s) in
    if ltb n 10 then digit n ∷ s else rest

-- A number has no more digits than its value, and one more.
unfoldable pub decimal : ℕ → Str
unfolding decimal_from
decimal n = decimal_from n n []

digit-is_digit : (n : ℕ) → n < 10 → is_digit (digit n) ≡ true
digit-is_digit n lt = ground arith

digits_from-digit :
    (k n : ℕ) (s : Str) → n < 10 → digits_from k (digit n ∷ s) ≡ digits_from (k * 10 + n) s
digits_from-digit k n s lt = rw (digit-is_digit n lt) (ap (λ v. digits_from v s) (omega arith))

decimal_from-digits :
    (fuel n : ℕ) (s : Str) → n ≤ fuel → digits_from 0 (decimal_from fuel n s) ≡ digits_from n s
unfolding decimal_from
decimal_from-digits zero n s le =
    digits_from-digit 0 n s (omega arith) ∙ ap (λ v. digits_from v s) (omega arith)
decimal_from-digits (suc fuel) n s le = elim (Bool-cases (ltb n 10)) [
  | inl small ↦
      rw small (digits_from-digit 0 n s (ground arith) ∙ ap (λ v. digits_from v s) (omega arith))
  | inr large ↦ rw large (
      decimal_from-digits fuel (n / 10) (digit (n % 10) ∷ s) (ground arith)
      ∙ (digits_from-digit (n / 10) (n % 10) s (omega arith)
          ∙ ap (λ v. digits_from v s) (omega arith)))
]

pub same : (n : ℕ) → (n == n) ≡ true
same n = ground arith

not_and : (b r : Bool) → (not b && r) ≡ true → (b ≡ false) × (r ≡ true)
not_and true r e = cc
not_and false r e = (refl, e)

-- The text has no such byte.
unfoldable pub avoids : ℕ → Str → Bool
avoids sep = all (λ c. not (c == sep))

pub cut-found : (sep : ℕ) (a b : Str) → avoids sep a ≡ true → cut sep (a ++ sep ∷ b) ≡ (a, b, true)
unfolding cut avoids
cut-found sep [] b e = rw (same sep) refl
cut-found sep (c ∷ a) b e =
    let (other, rest) = not_and (c == sep) _ e in rw (other, cut-found sep a b rest) refl

pub cut-absent : (sep : ℕ) (a : Str) → avoids sep a ≡ true → cut sep a ≡ (a, [], false)
unfolding cut avoids
cut-absent sep [] e = refl
cut-absent sep (c ∷ a) e =
    let (other, rest) = not_and (c == sep) _ e in rw (other, cut-absent sep a rest) refl

pub split-found :
    (sep : ℕ) (a b : Str) → avoids sep a ≡ true → split sep (a ++ sep ∷ b) ≡ a ∷ split sep b
unfolding split avoids
split-found sep [] b e = rw (same sep) refl
split-found sep (c ∷ a) b e =
    let (other, rest) = not_and (c == sep) _ e in rw (other, split-found sep a b rest) refl

pub split-absent : (sep : ℕ) (a : Str) → avoids sep a ≡ true → split sep a ≡ a ∷ []
unfolding split avoids
split-absent sep [] e = refl
split-absent sep (c ∷ a) e =
    let (other, rest) = not_and (c == sep) _ e in rw (other, split-absent sep a rest) refl

-- Neither a dash nor a point is a digit.
pub digit-other : (n sep : ℕ) → sep < b'0' → (digit n == sep) ≡ false
digit-other n sep lt = ground arith

avoids-decimal_from :
    (sep fuel n : ℕ) (s : Str)
    → sep < b'0'
    → avoids sep s ≡ true
    → avoids sep (decimal_from fuel n s) ≡ true
unfolding decimal_from avoids
avoids-decimal_from sep zero n s lt e = rw (digit-other n sep lt) e
avoids-decimal_from sep (suc fuel) n s lt e = elim (Bool-cases (ltb n 10)) [
  | inl small ↦ rw (small, digit-other n sep lt) e
  | inr large ↦ rw large (
      avoids-decimal_from sep fuel (n / 10) (digit (n % 10) ∷ s) lt
        (rw (digit-other (n % 10) sep lt) e))
]

pub avoids-decimal : (sep n : ℕ) → sep < b'0' → avoids sep (decimal n) ≡ true
unfolding decimal avoids
avoids-decimal sep n lt = avoids-decimal_from sep n n [] lt refl

unsigned-decimal_from :
    (fuel n : ℕ) (s : Str)
    → unsigned (decimal_from fuel n s) ≡ digits_from 0 (decimal_from fuel n s)
unfolding decimal_from
unsigned-decimal_from zero n s = refl
unsigned-decimal_from (suc fuel) n s = elim (Bool-cases (ltb n 10)) [
  | inl small ↦ rw small refl
  | inr large ↦ rw large (unsigned-decimal_from fuel (n / 10) (digit (n % 10) ∷ s))
]

le→leb : (a b : ℕ) → a ≤ b → leb a b ≡ true
le→leb a b le = ground arith

pub parse_uint-decimal : (x : ℕ) → x ≤ max_u64 → parse_uint (decimal x) ≡ some x
unfolding decimal parse_uint
parse_uint-decimal x le =
    rw
      (
        parse_uint,
        unsigned-decimal_from x x [] ∙ decimal_from-digits x x [] (omega arith),
        le→leb x max_u64 le,
      )
      refl
