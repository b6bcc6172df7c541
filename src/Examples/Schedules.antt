-- ===== src/Examples/Schedules.antt =====
-- A schedule with a time every ten nanoseconds: runs of internal/scheduler/scheduler.go.
use regbot.Base.{
  true, false, ℕ, [], some, none, refl, ◌≡◌, codes, pos, ◌+ℤ◌, ◌<ℤ◌, arith, length, ltb,
}
use regbot.Provider.{Time}
use regbot.Scheduler.{RunSummary, World, skipped_occurrences, loop}
use regbot.Scheduler.Skipped.{IsSkipped, skipped_occurrences-IsSkipped, skipped_occurrences-endless}
use regbot.Scheduler.Gauge.{IsIdle, loop-IsIdle}

abbrev next : Time → Time
next t = t +ℤ pos 10

next_later : (t : Time) → t <ℤ next t
unfolding ◌+ℤ◌
next_later t = ground arith

skipped_occurrences-IsSkipped_example :
    (n : ℕ) × (skipped_occurrences next 40 (pos 5) (pos 36) ≡ some n)
    × IsSkipped next (next (pos 5)) (pos 36) n
skipped_occurrences-IsSkipped_example =
    skipped_occurrences-IsSkipped next next_later 40 (pos 5) (pos 36) (omega arith) (omega arith)

abbrev never : Time → Time
never t = pos 0

skipped_occurrences-endless_example : skipped_occurrences never 40 (pos 5) (pos 36) ≡ none
skipped_occurrences-endless_example =
    skipped_occurrences-endless never (λ t. refl) 40 (pos 5) (pos 36) refl

abbrev summary : RunSummary
summary = record {
  result = record {
    version = codes "v1";
    started_at = pos 1;
    finished_at = pos 0;
    planned = 1;
    deleted = 1;
    skipped = pos 0;
    failed = 0;
    outcomes = [];
  };
  dry_run = false;
  discovered = 2;
  protected = 1;
}

-- A clock that goes on with the events, and a context that ends after twenty of them.
abbrev world : World
world = record {
  now = λ h. pos (length h);
  is_cancelled = λ h. false;
  fires = λ h t. ltb (length h) 20;
  run = λ h. (summary, false);
  next = next;
}

loop-IsIdle_example : IsIdle (loop world true 5 []).1
loop-IsIdle_example = loop-IsIdle world true 5
