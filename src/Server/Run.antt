-- ===== src/Server/Run.antt =====
-- What the handler of `POST /run` of internal/server/server.go does between its locks.
use regbot.Base.{
  Bool, true, false, ℕ, List, [], ◌∷◌, Str, Option, none, some, Result, ok, err, codes,
  if◌then◌else◌, length, pos,
}
use regbot.Provider.{Time}
use regbot.Plan.{Plan, ApplyResult, format_version}
use regbot.Metrics.{Metric, runs, observe}
use regbot.Effects.{Act, ◌>>=◌, ◌>>◌, give, emit, ask}

pub data Event : Type 0 where
  planned : Event
  applied : Plan → Event
  clock : Time → Event
  counted : List Metric → Event

abbrev pub Trace : Type 0
Trace = List Event

-- The engine behind the server and the clock; the errors are their texts.
pub record Service : Type 0 where
  pub apply_allowed : Bool
  pub plan : Trace → Result Str Plan
  pub apply : Trace → Plan → ApplyResult × Option Str
  pub now : Trace → Time

-- A text, or the report with the plan, the result and the text of the error, which may be empty.
pub data Reply : Type 0 where
  plain_text : ℕ → Str → Reply
  run_report : ℕ → Plan → ApplyResult → Str → Reply

abbrev pub error_string : Option Str → Str
error_string none = []
error_string (some e) = e

abbrev pub is_failure : Option Str → Bool
is_failure none = false
is_failure (some e) = true

abbrev pub with_start : Plan → Time → ApplyResult
with_start proposal started = record {
  version = format_version;
  started_at = started;
  finished_at = pos 0;
  planned = length proposal.actions;
  deleted = 0;
  skipped = pos 0;
  failed = 0;
  outcomes = [];
}

module _ (service : Service) where
  abbrev pub read_clock : Act Event Time
  read_clock = ask service.now >>= λ t. emit (clock t) >> give t

  abbrev pub carry_out : Plan → Act Event (ApplyResult × Option Str)
  carry_out proposal =
      ask (λ h. service.apply h proposal) >>= λ r. emit (applied proposal) >> give r

  abbrev pub finish_dry : ApplyResult → Act Event (ApplyResult × Option Str)
  finish_dry result =
      read_clock >>= λ finished. give (record result { finished_at = finished }, none)

  abbrev pub reply_to_plan : Result Str Plan → Act Event Reply
  reply_to_plan (err e) = emit (counted (runs (codes "failure") ∷ [])) >> give (plain_text 500 e)
  reply_to_plan (ok proposal) = do
    started ← read_clock
    answer ←
        if service.apply_allowed
        then carry_out proposal
        else finish_dry (with_start proposal started)
    emit (counted (observe answer.0 (is_failure answer.1)))
    give (
        run_report (if is_failure answer.1 then 500 else 200) proposal answer.0
          (error_string answer.1))

  unfoldable pub handle_run : Act Event Reply
  handle_run = ask service.plan >>= λ r. emit planned >> reply_to_plan r
