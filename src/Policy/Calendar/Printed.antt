-- ===== src/Policy/Calendar/Printed.antt =====
-- What `ParseCalendar` of pkg/policy/policy.go reads from a tag that is written as the documentation says.
use regbot.Base.{
  Bool, true, false, ℕ, zero, suc, ◌+◌, ◌/◌, ◌%◌, ◌≤◌, ◌<◌, [], ◌∷◌, ◌++◌, Str, ok, all, leb, ℤ,
  pos, append-nil, ◌+ℤ◌, eq_of_parts, ◌≡◌, refl, arith, ap, ◌∙◌,
}
use regbot.Provider.{Version}
use regbot.Policy.Numbers.{atoi, max_u64, cut, split}
use regbot.Policy.Calendar.Decimals.{
  digit, decimal, avoids, same, cut-found, cut-absent, split-found, split-absent, digit-other,
  avoids-decimal, parse_uint-decimal,
}
use regbot.Policy.Dates.{date, midnight, days_in}
use regbot.Policy.Calendar.{
  ParseError, field, bad_year, bad_month, bad_day, sequence_of, is_app_byte, check_app, is_date,
  parse_calendar, parse_parts, parse_body,
}

-- A number below 100 in two digits, and one below 10000 in four.
abbrev pub two : ℕ → Str
two n = digit (n / 10) ∷ digit (n % 10) ∷ []

abbrev pub four : ℕ → Str
four n = digit (n / 1000) ∷ digit (n / 100 % 10) ∷ digit (n / 10 % 10) ∷ digit (n % 10) ∷ []

abbrev suffix : Str → Str
suffix [] = []
suffix (c ∷ app) = b'-' ∷ c ∷ app

-- `vYYYY.MM.DD.x` and `vYYYY.MM.DD.x-{app}`
unfoldable pub written : ℕ → ℕ → ℕ → ℕ → Str → Str
written y m d x app =
    b'v' ∷ (four y ++ b'.' ∷ (two m ++ b'.' ∷ (two d ++ b'.' ∷ (decimal x ++ suffix app))))

field-two : (n : ℕ) (e : ParseError) → n < 100 → field 2 e (two n) ≡ ok (pos n)
unfolding atoi
field-two n e lt = ground arith

field-four : (n : ℕ) (e : ParseError) → n < 10000 → field 4 e (four n) ≡ ok (pos n)
unfolding atoi
field-four n e lt = ground arith

date-valid :
    (y m d : ℕ)
    → 1 ≤ m
    → m ≤ 12
    → 1 ≤ d
    → d ≤ days_in (pos y) m
    → date (pos y) (pos m) (pos d) ≡ record { year = pos y; month = m; day = d }
unfolding date ◌+ℤ◌
date-valid y zero d a b c e = absurd (omega arith)
date-valid y (suc k) zero a b c e = absurd (omega arith)
date-valid y (suc k) (suc d) a b c e = rw (year, month, day) refl
  where
    year : pos y +ℤ pos (k / 12) ≡ pos y
    year = eq_of_parts _ _ (ground arith)

    month : k % 12 + 1 ≡ suc k
    month = omega arith

    day : leb (suc d) (days_in (pos y) (suc k)) ≡ true
    day = ground arith

is_date-same :
    (y m d : ℕ)
    → is_date (record { year = pos y; month = m; day = d }) (pos y) (pos m) (pos d) ≡ true
is_date-same y m d = rw (same y, same m, same d) refl

sequence_of-decimal : (x : ℕ) → x ≤ max_u64 → sequence_of (decimal x) ≡ ok x
sequence_of-decimal x le = rw (sequence_of, parse_uint-decimal x le) refl

-- What stands before the app.
abbrev main_part : ℕ → ℕ → ℕ → ℕ → Str
main_part y m d x = four y ++ b'.' ∷ (two m ++ b'.' ∷ (two d ++ b'.' ∷ decimal x))

main_part-avoids : (y m d x : ℕ) → avoids b'-' (main_part y m d x) ≡ true
unfolding avoids
main_part-avoids y m d x =
    rw
      (
        digit-other (y / 1000) b'-' (omega arith),
        digit-other (y / 100 % 10) b'-' (omega arith),
        digit-other (y / 10 % 10) b'-' (omega arith),
        digit-other (y % 10) b'-' (omega arith),
        digit-other (m / 10) b'-' (omega arith),
        digit-other (m % 10) b'-' (omega arith),
        digit-other (d / 10) b'-' (omega arith),
        digit-other (d % 10) b'-' (omega arith),
      )
      (avoids-decimal b'-' x (omega arith))

four-avoids : (y : ℕ) → avoids b'.' (four y) ≡ true
unfolding avoids
four-avoids y =
    rw
      (
        digit-other (y / 1000) b'.' (omega arith),
        digit-other (y / 100 % 10) b'.' (omega arith),
        digit-other (y / 10 % 10) b'.' (omega arith),
        digit-other (y % 10) b'.' (omega arith),
      )
      refl

two-avoids : (n : ℕ) → avoids b'.' (two n) ≡ true
unfolding avoids
two-avoids n =
    rw (digit-other (n / 10) b'.' (omega arith), digit-other (n % 10) b'.' (omega arith)) refl

split-main_part :
    (y m d x : ℕ) → split b'.' (main_part y m d x) ≡ four y ∷ two m ∷ two d ∷ decimal x ∷ []
split-main_part y m d x =
    split-found b'.' (four y) _ (four-avoids y)
    ∙ ap (λ ps. four y ∷ ps)
        (split-found b'.' (two m) _ (two-avoids m)
          ∙ ap (λ ps. two m ∷ ps)
              (split-found b'.' (two d) _ (two-avoids d)
                ∙ ap (λ ps. two d ∷ ps)
                    (split-absent b'.' (decimal x) (avoids-decimal b'.' x (omega arith)))))

-- A date that there is, a number in 64 bits, and an app of the bytes that are allowed, or none.
pub record IsWritable (y m d x : ℕ) (app : Str) : Type 0 where
  pub year : y < 10000
  pub month : (1 ≤ m) × (m ≤ 12)
  pub day : (1 ≤ d) × (d ≤ days_in (pos y) m)
  pub number : x ≤ max_u64
  pub app_bytes : all is_app_byte app ≡ true

abbrev read_back : ℕ → ℕ → ℕ → ℕ → Str → Str → Version
read_back y m d x tag app = record {
  tag = tag;
  date = midnight (record { year = pos y; month = m; day = d });
  sequence = x;
  app = app;
}

days_in_le : (y : ℤ) (m : ℕ) → days_in y m ≤ 31
days_in_le y m = ground arith

parse_parts-written :
    (y m d x : ℕ) (tag app : Str) (has_app : Bool)
    → IsWritable y m d x app
    → check_app has_app app ≡ ok tt
    → parse_parts tag app has_app (four y ∷ two m ∷ two d ∷ decimal x ∷ [])
      ≡ ok (read_back y m d x tag app)
unfolding parse_parts
parse_parts-written y m d x tag app has_app w checked =
    rw
      (
        field-four y bad_year w.year,
        field-two m bad_month (omega (arith, w.month)),
        field-two d bad_day (omega (arith, w.day, days_in_le (pos y) m)),
        sequence_of-decimal x w.number,
        date-valid y m d w.month.0 w.month.1 w.day.0 w.day.1,
        is_date-same y m d,
        checked,
      )
      refl

parse_body-cut :
    (tag s main app : Str) (has_app : Bool)
    → cut b'-' s ≡ (main, app, has_app)
    → parse_body tag s ≡ parse_parts tag app has_app (split b'.' main)
unfolding parse_body
parse_body-cut tag s main app has_app e = rw (parse_body, e) refl

app-checked :
    (c : ℕ) (app : Str) → all is_app_byte (c ∷ app) ≡ true → check_app true (c ∷ app) ≡ ok tt
app-checked c app e = rw e refl

parse_body-written :
    (y m d x : ℕ) (tag app : Str)
    → IsWritable y m d x app
    → parse_body tag (main_part y m d x ++ suffix app) ≡ ok (read_back y m d x tag app)
parse_body-written y m d x tag [] w =
    parse_body-cut tag _ (main_part y m d x) [] false (
      ap (cut b'-') (append-nil (main_part y m d x))
      ∙ cut-absent b'-' (main_part y m d x) (main_part-avoids y m d x))
    ∙ (ap (parse_parts tag [] false) (split-main_part y m d x)
        ∙ parse_parts-written y m d x tag [] false w refl)
parse_body-written y m d x tag (c ∷ app) w =
    parse_body-cut tag _ (main_part y m d x) (c ∷ app) true
      (cut-found b'-' (main_part y m d x) (c ∷ app) (main_part-avoids y m d x))
    ∙ (ap (parse_parts tag (c ∷ app) true) (split-main_part y m d x)
        ∙ parse_parts-written y m d x tag (c ∷ app) true w (app-checked c app w.app_bytes))

-- `ParseCalendar` reads from `vYYYY.MM.DD.x` and `vYYYY.MM.DD.x-{app}` the date, the number and the app that
-- were written there, for every date that there is up to the year 9999.
pub parse_calendar-written :
    (y m d x : ℕ) (app : Str)
    → IsWritable y m d x app
    → parse_calendar (written y m d x app)
      ≡ ok (record {
        tag = written y m d x app;
        date = midnight (record { year = pos y; month = m; day = d });
        sequence = x;
        app = app;
      })
unfolding parse_calendar written
parse_calendar-written y m d x app w = parse_body-written y m d x (written y m d x app) app w
