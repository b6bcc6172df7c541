-- ===== src/Policy/Numbers.antt =====
-- The parts of Go's `strconv` and `strings` that the tag parsers of pkg/policy/policy.go call.
use regbot.Base.{
  Bool, true, false, ◌&&◌, ℕ, zero, suc, ◌+◌, ◌-◌, ◌*◌, ◌^◌, List, [], ◌∷◌, Option, none, some, Str,
  ℤ, pos, negsuc, leb, ◌==◌, if◌then◌else◌,
}

abbrev pub is_digit : ℕ → Bool
is_digit c = leb b'0' c && leb c b'9'

-- The value of a run of digits behind the value of those before it; `none` at another byte.
abbrev pub digits_from : ℕ → Str → Option ℕ
digits_from n [] = some n
digits_from n (c ∷ s) = if is_digit c then digits_from (n * 10 + (c - b'0')) s else none

-- One digit at least.
abbrev pub unsigned : Str → Option ℕ
unsigned [] = none
unsigned (c ∷ s) = digits_from 0 (c ∷ s)

-- A value out of the type's range is an error.
abbrev within : ℕ → Option ℕ → Option ℕ
within limit none = none
within limit (some n) = if leb n limit then some n else none

abbrev pub max_u64 : ℕ
max_u64 = 2 ^ 64 - 1

-- `strconv.ParseUint(s, 10, 64)`: digits only.
unfoldable pub parse_uint : Str → Option ℕ
parse_uint s = within max_u64 (unsigned s)

abbrev positive : Option ℕ → Option ℤ
positive none = none
positive (some n) = some (pos n)

abbrev negative : Option ℕ → Option ℤ
negative none = none
negative (some zero) = some (pos 0)
negative (some (suc n)) = some (negsuc n)

-- `strconv.Atoi(s)`: one sign may stand before the digits.
unfoldable pub atoi : Str → Option ℤ
atoi [] = none
atoi (c ∷ s) =
    if c == b'+'
    then positive (within (2 ^ 63 - 1) (unsigned s))
    else if c == b'-'
    then negative (within (2 ^ 63) (unsigned s))
    else positive (within (2 ^ 63 - 1) (unsigned (c ∷ s)))

-- `strings.Cut(s, sep)` at a byte: the text before the first separator, the text behind it, and
-- whether there is one.
unfoldable pub cut : ℕ → Str → Str × Str × Bool
cut sep [] = ([], [], false)
cut sep (c ∷ s) =
    let (before, behind, found) = cut sep s in
    if c == sep then ([], s, true) else (c ∷ before, behind, found)

abbrev onto : ℕ → List Str → List Str
onto c [] = (c ∷ []) ∷ []
onto c (p ∷ ps) = (c ∷ p) ∷ ps

-- `strings.Split(s, sep)` at a byte.
unfoldable pub split : ℕ → Str → List Str
split sep [] = [] ∷ []
split sep (c ∷ s) = let rest = split sep s in if c == sep then [] ∷ rest else onto c rest
