-- ===== src/Scheduler.antt =====
-- internal/scheduler/scheduler.go: `loop`, `execute` and `skippedOccurrences`, with the checks of
-- `ListenAndServe`. The clock, the timers, the end of the context, the cron schedule and the run are
-- parameters. `rounds` bounds the loops.
pub mod Skipped
pub mod Gauge
pub mod Serving
pub mod Settings
use regbot.Base.{
  Bool, true, false, not, ◌||◌, ℕ, zero, suc, List, [], ◌∷◌, Str, Option, none, some, Result, ok,
  err, ℤ, pos, ltb, ltb_ℤ, if◌then◌else◌, ◌*◌, ◌^◌,
}
use regbot.Provider.{Time, Duration, is_zero, after}
use regbot.Plan.{ApplyResult}
use regbot.Metrics.{Metric, observe}
use regbot.Effects.{Act, ◌>>=◌, ◌>>◌, give, emit, ask}

pub record RunSummary : Type 0 where
  pub result : ApplyResult
  pub dry_run : Bool
  pub discovered : ℕ
  pub protected : ℕ

-- Readings of the clock, calls of the run, and what is written to the metrics.
pub data Event : Type 0 where
  clock : Time → Event
  next_run : Time → Event
  running : Bool → Event
  called : Event
  observed : List Metric → Event
  last_run : Time → Event
  skipped_overlaps : ℕ → Event

abbrev pub Trace : Type 0
Trace = List Event

pub record World : Type 0 where
  pub now : Trace → Time
  pub is_cancelled : Trace → Bool
  -- Whether a timer for the time fires before the context ends.
  pub fires : Trace → Time → Bool
  pub run : Trace → RunSummary × Bool
  pub next : Time → Time

-- `none` stands for rounds that are used up.
abbrev pub skipped_from : (Time → Time) → ℕ → Time → Time → ℕ → Option ℕ
skipped_from next zero t finished skipped = none
skipped_from next (suc rounds) t finished skipped =
    let rest = skipped_from next rounds (next t) finished (suc skipped) in
    if after t finished then some skipped else rest

unfoldable pub skipped_occurrences : (Time → Time) → ℕ → Time → Time → Option ℕ
skipped_occurrences next rounds started finished =
    skipped_from next rounds (next started) finished 0

-- How the loop ends. `endless` stands for rounds that are used up.
pub data Ended : Type 0 where
  stopped endless : Ended

pub data StartError : Type 0 where
  no_location bad_schedule bad_timeout : StartError

abbrev pub default_run_timeout : Duration
default_run_timeout = pos (3600 * 10 ^ 9)

-- The checks at the start, and the timeout of a run: `has_location` is whether there is a location, and
-- `parses` whether the cron parser accepts the expression.
unfoldable pub run_timeout : Bool → Bool → Duration → Result StartError Duration
run_timeout has_location parses timeout =
    if not has_location
    then err no_location
    else if not parses
    then err bad_schedule
    else if is_zero timeout
    then ok default_run_timeout
    else if ltb_ℤ timeout (pos 0)
    then err bad_timeout
    else ok timeout

module _ (world : World) where
  abbrev pub read_clock : Act Event Time
  read_clock = ask world.now >>= λ t. emit (clock t) >> give t

  abbrev pub call_run : Act Event (RunSummary × Bool)
  call_run = ask world.run >>= λ r. emit called >> give r

  -- The body of `execute`, behind the check of the context.
  unfoldable pub execute_run : Act Event (Unit {0})
  execute_run = do
    emit (running true)
    started ← read_clock
    answer ← call_run
    let result = answer.0.result
    let begun = if is_zero result.started_at then started else result.started_at
    finished ← if is_zero result.finished_at then read_clock else give result.finished_at
    emit
        (observed (observe (record result { started_at = begun; finished_at = finished }) answer.1))
    emit (last_run finished)
    emit (running false)

  unfoldable pub execute : Act Event (Unit {0})
  unfolding execute_run
  execute = ask world.is_cancelled >>= λ cancelled. if cancelled then give tt else execute_run

  abbrev pub count_skipped : Option ℕ → Act Event Ended → Act Event Ended
  count_skipped none rest = give endless
  count_skipped (some skipped) rest =
      if ltb 0 skipped then emit (skipped_overlaps skipped) >> rest else rest

  unfoldable pub rounds_of : ℕ → Act Event Ended
  unfolding execute
  rounds_of zero = give endless
  rounds_of (suc rounds) = do
    now ← read_clock
    let next = world.next now
    emit (next_run next)
    fires ← ask (λ h. world.fires h next)
    let behind = (execute >> read_clock) >>= λ finished.
        count_skipped (skipped_occurrences world.next rounds next finished) (rounds_of rounds)
    if not fires then give stopped else behind

  unfoldable pub loop : Bool → ℕ → Act Event Ended
  unfolding rounds_of execute
  loop run_on_start rounds = (if run_on_start then execute else give tt) >> rounds_of rounds
