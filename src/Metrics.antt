-- ===== src/Metrics.antt =====
-- internal/metrics/metrics.go: the registration, and what `Metrics.Observe` adds to the counters. The
-- registry of Prometheus is a parameter.
use regbot.Base.{
  Bool, not, ◌&&◌, ◌++◌, Option, none, some, List, [], ◌∷◌, Str, ℤ, pos, codes, if◌then◌else◌,
}
use regbot.Provider.{Duration, is_zero, sub_time}
use regbot.Plan.{ApplyResult}

-- A call of `Runs.Inc` or `Artifacts.Add` with a label, or of `RunSeconds.Observe`.
pub data Metric : Type 0 where
  runs : Str → Metric
  artifacts : Str → ℤ → Metric
  run_seconds : Duration → Metric

unfoldable pub observe : ApplyResult → Bool → List Metric
observe result is_failure =
    runs (if is_failure then codes "failure" else codes "success")
    ∷ artifacts (codes "planned") (pos result.planned)
    ∷ artifacts (codes "deleted") (pos result.deleted)
    ∷ artifacts (codes "skipped") result.skipped
    ∷ artifacts (codes "failed") (pos result.failed)
    ∷ (if not (is_zero result.started_at) && not (is_zero result.finished_at)
        then run_seconds (sub_time result.finished_at result.started_at) ∷ []
        else [])

-- What a collector is, with its labels.
pub data Kind : Type 0 where
  counter_by : List Str → Kind
  counter histogram gauge : Kind

pub record Collector : Type 0 where
  pub name : Str
  pub help : Str
  pub kind : Kind

abbrev pub run_collectors : List Collector
run_collectors =
    record {
      name = codes "regbot_runs_total";
      help = codes "Completed Regbot runs.";
      kind = counter_by (codes "result" ∷ []);
    }
    ∷ record {
      name = codes "regbot_artifacts_total";
      help = codes "Artifacts processed by Regbot.";
      kind = counter_by (codes "result" ∷ []);
    }
    ∷ record {
      name = codes "regbot_run_duration_seconds";
      help = codes "Regbot run duration.";
      kind = histogram;
    }
    ∷ []

abbrev pub scheduler_collectors : List Collector
scheduler_collectors =
    record {
      name = codes "regbot_scheduler_last_run_timestamp_seconds";
      help = codes "Unix timestamp of the last completed scheduled run.";
      kind = gauge;
    }
    ∷ record {
      name = codes "regbot_scheduler_next_run_timestamp_seconds";
      help = codes "Unix timestamp of the next scheduled run.";
      kind = gauge;
    }
    ∷ record {
      name = codes "regbot_scheduler_running";
      help = codes "Whether a scheduled run is currently active.";
      kind = gauge;
    }
    ∷ record {
      name = codes "regbot_scheduler_skipped_overlaps_total";
      help =
          codes "Scheduled occurrences skipped because "
          ++ codes "the previous run was still active.";
      kind = counter;
    }
    ∷ []

-- `R` is a registry, and `register` adds a collector. `none` is the panic of `MustRegister`.
module _ {R : Type 0} (register : Collector → R → Option R) where
  abbrev pub must_register : List Collector → R → Option R
  must_register [] registry = some registry
  must_register (c ∷ collectors) registry = elim (register c registry) [
    | none ↦ none
    | some r ↦ must_register collectors r
  ]

  unfoldable pub new : R → Option R
  new = must_register run_collectors

  unfoldable pub new_scheduler : R → Option R
  new_scheduler = must_register scheduler_collectors
