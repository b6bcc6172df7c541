-- ===== src/Examples/Applying.antt =====
-- A run of `Engine.Apply` of internal/engine/engine.go with one worker.
use regbot.Base.{
  Bool, true, false, ℕ, ◌+◌, ◌*◌, ◌≤◌, [], ◌∷◌, Str, none, some, ok, ◌≡◌, ◌↔◌, refl, codes, count,
  here, length, pos, ◌+ℤ◌, ◌-ℤ◌, str_eq, str_lt, slice_stable,
}
use regbot.Provider.{DeleteRequest}
use regbot.Plan.{Action, deleted, ActionOutcome, ApplyResult}
use regbot.Engine.State.{artifact_key}
use regbot.Engine.Apply.{
  exited, Run, request_of, send, close_jobs, call, report, exit, next, Steps, here_already, go,
  all_exited, begin, pool_size, is_stale, result_of, partial_apply, Applies, ran,
}
use regbot.Engine.Apply.Tallied.{count_status, is_failed}
use regbot.Engine.Apply.Results.{AddsUp, Applies-AddsUp, Applies-error, Applies-complete, Steps-end}
use regbot.Engine.Apply.Interrupted.{Applies-interrupted}
use regbot.Engine.Apply.Requests.{Applies-at_most_once}
use regbot.Engine.Safe.{IsSafe, planned_requests-IsSafe}
use regbot.Examples.Sample.{
  hundredths, hub, sample_env, sample_now, sample_config, sample_bytes, sample_plan, sample_action,
  in_order-VisitsAll,
}
use regbot.Examples.Planning.{sample_planned}

program : Unit {0}
unfolding next is_stale result_of str_eq str_lt slice_stable artifact_key ◌+ℤ◌ ◌-ℤ◌
program = tt

abbrev pub sample_outcome : ActionOutcome
sample_outcome = record { action = sample_action; status = deleted; error = [] }

abbrev pub sample_end : Run
sample_end = record {
  pending = [];
  feeding = false;
  cancelled = false;
  workers = exited ∷ [];
  requests = request_of sample_action ∷ [];
  outcomes = sample_outcome ∷ [];
  deleted_count = 1;
  skipped_count = 0;
  failed_count = 0;
}

sample-Steps : Steps sample_env.clients 5 (begin (pos 1) false (sample_action ∷ [])) sample_end
unfolding program
sample-Steps = go (send 0 sample_action [] refl refl refl) (
    go (call 0 sample_action hub (ok tt) refl refl) (
      go (report 0 sample_outcome false refl)
        (go (close_jobs refl refl) (go (exit 0 refl refl) here_already))))

abbrev pub sample_result : ApplyResult
sample_result = record {
  version = codes "v1";
  started_at = pos 6000;
  finished_at = pos 7000;
  planned = 1;
  deleted = 1;
  skipped = pos 0;
  failed = 0;
  outcomes = sample_outcome ∷ [];
}

pub sample_applied :
    Applies sample_env.fingerprint sample_env.clients sample_bytes
      (pos 1)
      sample_plan
      sample_result
      none
      (some sample_end)
unfolding program
sample_applied = ran (pos 6000) (pos 7000) false 5 sample_end refl sample-Steps refl

planned_requests-IsSafe_example :
    IsSafe hundredths sample_env sample_now sample_config sample_bytes sample_plan
      (request_of sample_action)
planned_requests-IsSafe_example =
    planned_requests-IsSafe hundredths sample_env sample_now sample_config sample_bytes sample_plan
      in_order-VisitsAll sample_planned (pos 1) sample_result none sample_end sample_applied
      (request_of sample_action) (here refl)

Applies-AddsUp_example : AddsUp sample_result
Applies-AddsUp_example =
    Applies-AddsUp sample_env.fingerprint sample_env.clients sample_bytes (pos 1) sample_plan
      sample_result none sample_end sample_applied

Applies-error_example :
    (none ≡ some partial_apply) ↔ (1 ≤ count_status is_failed sample_result.outcomes)
Applies-error_example =
    Applies-error sample_env.fingerprint sample_env.clients sample_bytes (pos 1) sample_plan
      sample_result none sample_end sample_applied

abbrev of_old_policy : Action → Bool
of_old_policy a = str_eq a.policy (codes "old")

Applies-complete_example :
    count (λ o. of_old_policy o.action) sample_result.outcomes
    ≡ count of_old_policy sample_plan.actions
Applies-complete_example =
    Applies-complete sample_env.fingerprint sample_env.clients sample_bytes (pos 1) sample_plan
      sample_result none sample_end sample_applied refl of_old_policy

abbrev of_hub : Str × DeleteRequest → Bool
of_hub q = str_eq q.0 (codes "hub")

Applies-at_most_once_example :
    count of_hub sample_end.requests ≤ count (λ a. of_hub (request_of a)) sample_plan.actions
Applies-at_most_once_example =
    Applies-at_most_once sample_env.fingerprint sample_env.clients sample_bytes (pos 1) sample_plan
      sample_result none sample_end sample_applied of_hub

Steps-end_example :
    (5 ≤ 4 * length sample_plan.actions + pool_size (pos 1) + 2)
    × ((k : ℕ) × (t : Run) × Steps sample_env.clients k sample_end t
        × (all_exited t.workers ≡ true))
Steps-end_example =
    Steps-end sample_env.fingerprint sample_env.clients sample_bytes (pos 1) sample_plan false 5
      sample_end sample-Steps

not_stale : is_stale sample_env.fingerprint sample_bytes sample_plan (pos 6000) ≡ false
unfolding program
not_stale = refl

Applies-interrupted_example :
    (s : Run) × Applies sample_env.fingerprint sample_env.clients sample_bytes
      (pos 1)
      sample_plan
      (result_of sample_plan (pos 6000) (pos 7000) s)
      none
      (some s)
    × (s.requests ≡ [])
    × ((result_of sample_plan (pos 6000) (pos 7000) s).outcomes ≡ [])
    × ((result_of sample_plan (pos 6000) (pos 7000) s).planned ≡ 1)
Applies-interrupted_example =
    Applies-interrupted sample_env.fingerprint sample_env.clients sample_bytes (pos 1) sample_plan
      (pos 6000) (pos 7000) not_stale
