-- ===== src/Examples/Calendar.antt =====
-- Tags that pkg/policy/policy.go accepts and refuses.
use regbot.Base.{◌≡◌, refl, codes, ok, err, pos, arith, ◌*◌}
use regbot.Policy.Numbers.{atoi, parse_uint, cut, split}
use regbot.Policy.Dates.{date, midnight, day_ns}
use regbot.Policy.Calendar.Printed.{written, IsWritable, parse_calendar-written}
use regbot.Policy.Calendar.{bad_date, empty_app, bad_app, no_prefix, parse_calendar}

program : Unit {0}
unfolding parse_calendar date midnight atoi parse_uint cut split
program = tt

app_tag :
    parse_calendar (codes "v2026.07.20.1-api")
    ≡ ok (record {
      tag = codes "v2026.07.20.1-api";
      date = pos (739816 * day_ns);
      sequence = 1;
      app = codes "api";
    })
unfolding program
app_tag = refl

leap_day : parse_calendar (codes "v2026.02.29.1") ≡ err bad_date
unfolding program
leap_day = refl

month_zero : parse_calendar (codes "v2026.00.20.1") ≡ err bad_date
unfolding program
month_zero = refl

no_app : parse_calendar (codes "v2026.07.20.1-") ≡ err empty_app
unfolding program
no_app = refl

upper_app : parse_calendar (codes "v2026.07.20.1-Web") ≡ err bad_app
unfolding program
upper_app = refl

latest_tag : parse_calendar (codes "latest") ≡ err no_prefix
unfolding program
latest_tag = refl

signed :
    parse_calendar (codes "v+026.+7.+2.1")
    ≡ ok (record {
      tag = codes "v+026.+7.+2.1";
      date = pos (9313 * day_ns);
      sequence = 1;
      app = codes "";
    })
unfolding program
signed = refl

overflow : date (pos 2026) (pos 13) (pos 32) ≡ record { year = pos 2027; month = 2; day = 1 }
unfolding program
overflow = refl

underflow : date (pos 2024) (pos 3) (pos 0) ≡ record { year = pos 2024; month = 2; day = 29 }
unfolding program
underflow = refl

api-IsWritable : IsWritable 2026 7 20 1 (codes "api")
api-IsWritable = record {
  year = omega arith;
  month = (omega arith, omega arith);
  day = (omega arith, omega arith);
  number = omega arith;
  app_bytes = refl;
}

parse_calendar-written_example :
    parse_calendar (written 2026 7 20 1 (codes "api"))
    ≡ ok (record {
      tag = written 2026 7 20 1 (codes "api");
      date = midnight (record { year = pos 2026; month = 7; day = 20 });
      sequence = 1;
      app = codes "api";
    })
parse_calendar-written_example = parse_calendar-written 2026 7 20 1 (codes "api") api-IsWritable
