-- ===== src/Engine/Apply.antt =====
-- `Engine.Apply` of internal/engine/engine.go: the goroutine that feeds the jobs, the workers and the
-- loop over the outcomes as one machine, whose moves are the points where they meet or where a
-- provider answers. The channels are unbuffered, so a send and its receive are one move.
pub mod Workers
pub mod Conserved
pub mod Tallied
pub mod Ending
pub mod Interrupted
pub mod Crew
pub mod Outcome
pub mod Results
pub mod Requests
use mathlib.Core.List.{reverse}
use regbot.Base.{
  Bool, true, false, not, ◌&&◌, ◌||◌, ℕ, zero, suc, List, [], ◌∷◌, Str, Option, none, some, Result,
  ok, err, codes, str_eq, str_lt, if◌then◌else◌, ◌≡◌, ℤ, pos, ◌+ℤ◌, ◌-ℤ◌, ltb_ℤ, leb_ℤ, length,
  get_elem?, modify, slice_stable, ltb,
}
use regbot.Provider.{Artifact, Time, Client, ProviderError, DeleteRequest, after}
use regbot.Plan.{
  Action, Plan, Status, deleted, skipped, failed, ActionOutcome, ApplyResult, format_version,
}
use regbot.Engine.State.{artifact_key}
use regbot.Engine.Planning.{find}

pub data ApplyError : Type 0 where
  stale_plan partial_apply : ApplyError

-- Where a goroutine of the pool stands: at the receive from `jobs`, at the call of `Delete`, at the
-- send to `outcomes` (and whether `cancel` comes behind it), at that `cancel`, or returned.
pub data Worker : Type 0 where
  waiting : Worker
  holding : Action → Worker
  reporting : ActionOutcome → Bool → Worker
  cancelling : Worker
  exited : Worker

pub record Run : Type 0 where
  pub pending : List Action  -- what the feeder has not sent
  pub feeding : Bool  -- `jobs` is open
  pub cancelled : Bool  -- `ctx.Done()` is closed
  pub workers : List Worker
  pub requests : List (Str × DeleteRequest)  -- the calls of `Delete`, the last one first
  pub outcomes : List ActionOutcome  -- the last one first
  pub deleted_count : ℕ
  pub skipped_count : ℕ
  pub failed_count : ℕ

abbrev pub request_of : Action → Str × DeleteRequest
request_of action = (
  action.artifact.registry,
  record {
    repository = action.artifact.repository;
    id = action.artifact.id;
    digest = action.artifact.digest;
    tags = action.artifact.tags;
    updated_at = action.artifact.updated_at;
  },
)

abbrev pub not_configured : Str
not_configured = codes "provider is not configured"

-- The switch over the answer of `Delete`.
abbrev pub outcome_of : Action → Result ProviderError (Unit {0}) → ActionOutcome
outcome_of action (ok u) = record { action = action; status = deleted; error = [] }
outcome_of action (err e) =
    if e.is_not_found
    then record { action = action; status = skipped; error = [] }
    else record { action = action; status = failed; error = e.text }

-- Whether the switch ends with `cancel()`.
abbrev pub cancels : Result ProviderError (Unit {0}) → Bool
cancels (ok u) = false
cancels (err e) = not e.is_not_found && e.is_precondition

abbrev pub put_worker : ℕ → Worker → List Worker → List Worker
put_worker i w workers = modify workers i (λ v. w)

-- `switch outcome.Status`
abbrev pub tally : Status → Run → Run
tally deleted s = record s { deleted_count = suc s.deleted_count }
tally skipped s = record s { skipped_count = suc s.skipped_count }
tally failed s = record s { failed_count = suc s.failed_count }

-- The body of `for outcome := range outcomes`.
abbrev pub receive : ActionOutcome → Run → Run
receive o s = tally o.status (record s { outcomes = o ∷ s.outcomes })

module _ (clients : List (Str × Client)) where
  -- What can happen next. The answer of `Delete` is any.
  pub data Move (s : Run) : Type 0 where
    send :
        (i : ℕ) (action : Action) (rest : List Action)
        → s.feeding ≡ true
        → s.pending ≡ action ∷ rest
        → get_elem? s.workers i ≡ some waiting
        → Move s
    -- The loop over the actions is through.
    close_jobs : s.feeding ≡ true → s.pending ≡ [] → Move s
    -- `case <-ctx.Done(): return`
    stop_feeding : s.feeding ≡ true → s.cancelled ≡ true → Move s
    refuse :
        (i : ℕ) (action : Action)
        → get_elem? s.workers i ≡ some (holding action)
        → find action.artifact.registry clients ≡ none
        → Move s
    call :
        (i : ℕ) (action : Action) (client : Client) (answer : Result ProviderError (Unit {0}))
        → get_elem? s.workers i ≡ some (holding action)
        → find action.artifact.registry clients ≡ some client
        → Move s
    report :
        (i : ℕ) (o : ActionOutcome) (then_cancel : Bool)
        → get_elem? s.workers i ≡ some (reporting o then_cancel)
        → Move s
    cancel : (i : ℕ) → get_elem? s.workers i ≡ some cancelling → Move s
    -- The end of `range jobs`.
    exit : (i : ℕ) → s.feeding ≡ false → get_elem? s.workers i ≡ some waiting → Move s
    -- The caller's context ends.
    interrupt : s.cancelled ≡ false → Move s

  unfoldable pub next : (s : Run) → Move s → Run
  next s (send i action rest is_open first idle) = record s {
    pending = rest;
    workers = put_worker i (holding action) s.workers;
  }
  next s (close_jobs is_open through) = record s { feeding = false }
  next s (stop_feeding is_open done) = record s { feeding = false }
  next s (refuse i action has gone) =
      let o : ActionOutcome = record { action = action; status = failed; error = not_configured } in
      record s { workers = put_worker i (reporting o true) s.workers }
  next s (call i action client answer has configured) = record s {
    workers = put_worker i (reporting (outcome_of action answer) (cancels answer)) s.workers;
    requests = request_of action ∷ s.requests;
  }
  next s (report i o then_cancel has) =
      receive o (record s {
        workers = put_worker i (if then_cancel then cancelling else waiting) s.workers;
      })
  next s (cancel i has) = record s { cancelled = true; workers = put_worker i waiting s.workers }
  next s (exit i closed idle) = record s { workers = put_worker i exited s.workers }
  next s (interrupt running) = record s { cancelled = true }

  pub data Steps : ℕ → Run → Run → Type 0 where
    here_already : {s : Run} → Steps 0 s s
    go : {n : ℕ} {s t : Run} (m : Move s) → Steps n (next s m) t → Steps (suc n) s t

abbrev pub all_exited : List Worker → Bool
all_exited [] = true
all_exited (exited ∷ ws) = all_exited ws
all_exited (w ∷ ws) = false

abbrev pub waiting_workers : ℕ → List Worker
waiting_workers zero = []
waiting_workers (suc n) = waiting ∷ waiting_workers n

-- `concurrency <= 0` is 4.
abbrev pub pool_size : ℤ → ℕ
pool_size (pos (suc n)) = suc n
pool_size n = 4

abbrev pub begin : ℤ → Bool → List Action → Run
begin concurrency cancelled actions = record {
  pending = actions;
  feeding = true;
  cancelled = cancelled;
  workers = waiting_workers (pool_size concurrency);
  requests = [];
  outcomes = [];
  deleted_count = 0;
  skipped_count = 0;
  failed_count = 0;
}

unfoldable pub is_stale : (Str → Str) → Str → Plan → Time → Bool
is_stale fingerprint config_bytes plan started =
    not (str_eq plan.version format_version)
    || (not (str_eq plan.config_fingerprint (fingerprint config_bytes))
        || after started plan.expires_at)

abbrev pub no_result : Plan → Time → ApplyResult
no_result plan started = record {
  version = format_version;
  started_at = started;
  finished_at = pos 0;
  planned = length plan.actions;
  deleted = 0;
  skipped = pos 0;
  failed = 0;
  outcomes = [];
}

abbrev pub outcome_before : ActionOutcome → ActionOutcome → Bool
outcome_before o p = str_lt (artifact_key o.action.artifact) (artifact_key p.action.artifact)

-- What follows the loop over the outcomes.
unfoldable pub result_of : Plan → Time → Time → Run → ApplyResult
result_of plan started finished s = record {
  version = format_version;
  started_at = started;
  finished_at = finished;
  planned = length plan.actions;
  deleted = s.deleted_count;
  skipped =
      pos s.skipped_count
      +ℤ (pos (length plan.actions)
          -ℤ pos s.deleted_count
          -ℤ pos s.skipped_count
          -ℤ pos s.failed_count);
  failed = s.failed_count;
  outcomes = slice_stable outcome_before (reverse s.outcomes);
}

abbrev pub error_of : ApplyResult → Option ApplyError
error_of r = if ltb 0 r.failed then some partial_apply else none

module _ (fingerprint : Str → Str) (clients : List (Str × Client)) (config_bytes : Str)
    (concurrency : ℤ) where
  -- `Apply` returns a result and an error, and the run that it made, if any.
  pub data Applies (plan : Plan) : ApplyResult → Option ApplyError → Option Run → Type 0 where
    refused :
        (started : Time)
        → is_stale fingerprint config_bytes plan started ≡ true
        → Applies plan (no_result plan started) (some stale_plan) none
    ran :
        (started finished : Time) (interrupted : Bool) (n : ℕ) (s : Run)
        → is_stale fingerprint config_bytes plan started ≡ false
        → Steps clients n (begin concurrency interrupted plan.actions) s
        → all_exited s.workers ≡ true
        → Applies plan
            (result_of plan started finished s)
            (error_of (result_of plan started finished s))
            (some s)
