-- ===== src/Scheduler/Settings.antt =====
-- The fields of `Scheduler` of internal/scheduler/scheduler.go that a caller sets, but for the run and
-- the logger, and what `ListenAndServe` does before it serves.
use regbot.Base.{
  Bool, not, Str, Option, none, some, Result, ok, err, codes, ◌++◌, wrap, refuse_if, ◌>>=◌, ◌>>◌,
}
use regbot.Provider.{Duration}
use regbot.Scheduler.{StartError, run_timeout}

-- `location` is the name of the time zone.
pub record Settings : Type 0 where
  pub address : Str
  pub expression : Str
  pub location : Str
  pub run_on_start : Bool
  pub timeout : Duration

pub data PrepareError : Type 0 where
  no_run : PrepareError
  refused : StartError → PrepareError
  not_listening : Str → PrepareError

-- The text that the cron parser is given.
abbrev pub cron_text : Settings → Str
cron_text s = codes "CRON_TZ=" ++ (s.location ++ (codes " " ++ s.expression))

abbrev pub listened : Option Str → Result Str (Unit {0})
listened none = ok tt
listened (some e) = err e

-- The timeout of a run, behind the checks and `net.Listen`.
unfoldable pub prepare :
    (Str → Bool) → (Str → Option Str) → Bool → Bool → Settings → Result PrepareError Duration
prepare parses listen has_run has_location s = do
  refuse_if (not has_run) no_run
  timeout ← wrap refused (run_timeout has_location (parses (cron_text s)) s.timeout)
  wrap not_listening (listened (listen s.address))
  ok timeout
