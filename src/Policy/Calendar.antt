-- ===== src/Policy/Calendar.antt =====
-- `ParseCalendar` of pkg/policy/policy.go. Each early return is an error of its own.
pub mod Decimals
pub mod Printed
use regbot.Base.{
  Bool, true, false, ◌&&◌, ◌||◌, ℕ, List, [], ◌∷◌, none, some, Str, ℤ, pos, pos_part, neg_part,
  length, all, is_empty, leb, ◌==◌, if◌then◌else◌, not, Result, ok, err, ◌>>=◌, ◌>>◌, refuse_if,
}
use regbot.Provider.{Version}
use regbot.Policy.Numbers.{atoi, parse_uint, cut, split}
use regbot.Policy.Dates.{Civil, date, midnight}

pub data ParseError : Type 0 where
  no_prefix shape bad_year bad_month bad_day bad_sequence bad_date empty_app bad_app : ParseError
  -- of the custom parser
  no_regex not_anchored bad_regex missing_capture no_match : ParseError

-- `strconv.Atoi` on a field of a fixed width.
abbrev pub field : ℕ → ParseError → Str → Result ParseError ℤ
field width e s = elim (atoi s) [
  | none ↦ err e
  | some n ↦ if length s == width then ok n else err e
]

abbrev pub sequence_of : Str → Result ParseError ℕ
sequence_of s = elim (parse_uint s) [ none ↦ err bad_sequence | some n ↦ ok n ]

-- A rune of more than one byte is refused, and so is every byte of it.
abbrev pub is_app_byte : ℕ → Bool
is_app_byte r =
    (leb b'a' r && leb r b'z')
    || (leb b'0' r && leb r b'9')
    || (r == b'_')
    || (r == b'.')
    || (r == b'-')

abbrev pub eq_ℤ : ℤ → ℤ → Bool
eq_ℤ a b = pos_part a == pos_part b && neg_part a == neg_part b

-- `date.Year() == year && int(date.Month()) == month && date.Day() == day`
abbrev pub is_date : Civil → ℤ → ℤ → ℤ → Bool
is_date c y m d = eq_ℤ c.year y && eq_ℤ (pos c.month) m && eq_ℤ (pos c.day) d

abbrev pub check_app : Bool → Str → Result ParseError (Unit {0})
check_app false app = ok tt
check_app true app = do
  refuse_if (is_empty app) empty_app
  refuse_if (not (all is_app_byte app)) bad_app

parse_parts : Str → Str → Bool → List Str → Result ParseError Version
parse_parts tag app has_app (y ∷ m ∷ d ∷ x ∷ []) = do
  year ← field 4 bad_year y
  month ← field 2 bad_month m
  day ← field 2 bad_day d
  sequence ← sequence_of x
  refuse_if (not (is_date (date year month day) year month day)) bad_date
  check_app has_app app
  ok (record { tag = tag; date = midnight (date year month day); sequence = sequence; app = app })
parse_parts tag app has_app _ = err shape

parse_body : Str → Str → Result ParseError Version
parse_body tag s =
    let (main, app, has_app) = cut b'-' s in parse_parts tag app has_app (split b'.' main)

unfoldable pub parse_calendar : Str → Result ParseError Version
unfolding parse_body parse_parts
parse_calendar [] = err no_prefix
parse_calendar (c ∷ s) = if c == b'v' then parse_body (c ∷ s) s else err no_prefix
