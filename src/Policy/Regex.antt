-- ===== src/Policy/Regex.antt =====
-- `ValidateRegexParser` and `ParseRegex` of pkg/policy/policy.go. `compile` is Go's
-- `regexp.Compile`, a parameter; a compiled expression is known by its methods.
use regbot.Base.{
  Bool, false, ◌||◌, List, [], ◌∷◌, ◌++◌, Option, none, some, Str, ◌==◌, if◌then◌else◌, not, Result,
  ok, err, ◌>>=◌, ◌>>◌, refuse_if, codes, str_mem, is_empty, str_eq,
}
use regbot.Provider.{Version}
use regbot.Policy.Types.{Regexp}
use regbot.Policy.Calendar.{
  ParseError, no_regex, not_anchored, bad_regex, missing_capture, no_match, parse_calendar,
}

-- `strings.HasPrefix(s, "^")`
abbrev pub starts_with_caret : Str → Bool
starts_with_caret [] = false
starts_with_caret (c ∷ s) = c == b'^'

-- `strings.HasSuffix(s, "$")`
abbrev pub ends_with_dollar : Str → Bool
ends_with_dollar [] = false
ends_with_dollar (c ∷ []) = c == b'$'
ends_with_dollar (c ∷ d ∷ s) = ends_with_dollar (d ∷ s)

abbrev year : Str
year = codes "year"

abbrev month : Str
month = codes "month"

abbrev day : Str
day = codes "day"

abbrev sequence : Str
sequence = codes "sequence"

abbrev app : Str
app = codes "app"

-- The loop over the required names.
check_names : List Str → List Str → Result ParseError (Unit {0})
check_names names [] = ok tt
check_names names (required ∷ rest) =
    if str_mem required names then check_names names rest else err missing_capture

-- The loop that fills the map of values: the entry 0 and the unnamed groups are skipped, and the
-- last group of a name wins. A lookup of a name that is not there is the empty text.
abbrev value_from : Str → List Str → List Str → Str → Str
value_from name [] match found = found
value_from name (n ∷ names) [] found = found
value_from name (n ∷ names) (m ∷ match) found =
    value_from name names match (if str_eq n name then m else found)

abbrev pub value : Str → List Str → List Str → Str
value name [] match = []
value name (n ∷ names) [] = []
value name (n ∷ names) (m ∷ match) = value_from name names match []

abbrev dot : Str
dot = b'.' ∷ []

-- The tag in the built-in shape.
unfoldable pub normalized : List Str → List Str → Str
normalized names match =
    let main =
      b'v' ∷ value year names match
      ++ (dot
          ++ (value month names match
              ++ (dot ++ (value day names match ++ (dot ++ value sequence names match))))) in
    let suffix = value app names match in if is_empty suffix then main else main ++ b'-' ∷ suffix

module _ (compile : Str → Option Regexp) where
  unfoldable pub validate_regex_parser : Str → Result ParseError (Unit {0})
  unfolding check_names
  validate_regex_parser expression = do
    refuse_if (is_empty expression) no_regex
    refuse_if (not (starts_with_caret expression) || not (ends_with_dollar expression)) not_anchored
    elim (compile expression) [
      | none ↦ err bad_regex
      | some compiled ↦ check_names compiled.subexp_names (year ∷ month ∷ day ∷ sequence ∷ [])
    ]

  abbrev parse_match : Str → Regexp → Result ParseError Version
  parse_match tag compiled = elim (compiled.find_string_submatch tag) [
    | none ↦ err no_match
    | some match ↦ do
      version ← parse_calendar (normalized compiled.subexp_names match)
      ok (record version { tag = tag })
  ]

  -- `MustCompile` does not panic behind the validation, which compiled the expression.
  unfoldable pub parse_regex : Str → Str → Result ParseError Version
  parse_regex tag expression = do
    validate_regex_parser expression
    elim (compile expression) [ none ↦ err bad_regex | some compiled ↦ parse_match tag compiled ]
