-- ===== src/Engine/Apply/Tallied.antt =====
-- The counts of `Engine.Apply` in internal/engine/engine.go, and why its feeder stops.
use regbot.Base.{
  Bool, true, false, ℕ, List, [], ◌∷◌, Str, ◌≡◌, refl, arith, ap, sym, ◌∙◌, count, inl, inr, ◌⊎◌,
}
use regbot.Provider.{Client}
use regbot.Plan.{Status, deleted, skipped, failed, ActionOutcome}
use regbot.Engine.Apply.{
  Run, tally, Move, send, close_jobs, stop_feeding, refuse, call, report, cancel, exit, interrupt,
  next, Steps, here_already, go,
}

abbrev pub is_deleted : Status → Bool
is_deleted deleted = true
is_deleted status = false

abbrev pub is_skipped : Status → Bool
is_skipped skipped = true
is_skipped status = false

abbrev pub is_failed : Status → Bool
is_failed failed = true
is_failed status = false

-- How many outcomes have a status.
abbrev pub count_status : (Status → Bool) → List ActionOutcome → ℕ
count_status is = count (λ o. is o.status)

-- The counts are those of the outcomes, and jobs are closed because all are sent or the run is
-- cancelled.
pub record IsTallied (s : Run) : Type 0 where
  pub deletions : s.deleted_count ≡ count_status is_deleted s.outcomes
  pub skips : s.skipped_count ≡ count_status is_skipped s.outcomes
  pub failures : s.failed_count ≡ count_status is_failed s.outcomes
  pub closed : s.feeding ≡ false → (s.pending ≡ []) ⊎ (s.cancelled ≡ true)

received-IsTallied :
    (o : ActionOutcome) (status : Status) (s : Run)
    → o.status ≡ status
    → IsTallied s
    → IsTallied (tally status (record s { outcomes = o ∷ s.outcomes }))
received-IsTallied o deleted s e h = record {
  deletions = rw e (omega (arith, h.deletions));
  skips = rw e (omega (arith, h.skips));
  failures = rw e (omega (arith, h.failures));
  closed = h.closed;
}
received-IsTallied o skipped s e h = record {
  deletions = rw e (omega (arith, h.deletions));
  skips = rw e (omega (arith, h.skips));
  failures = rw e (omega (arith, h.failures));
  closed = h.closed;
}
received-IsTallied o failed s e h = record {
  deletions = rw e (omega (arith, h.deletions));
  skips = rw e (omega (arith, h.skips));
  failures = rw e (omega (arith, h.failures));
  closed = h.closed;
}

module _ (clients : List (Str × Client)) where
  -- A move that leaves the counts and the outcomes.
  same_counts :
      {s : Run} (t : Run)
      → t.deleted_count ≡ s.deleted_count
      → t.skipped_count ≡ s.skipped_count
      → t.failed_count ≡ s.failed_count
      → t.outcomes ≡ s.outcomes
      → (t.feeding ≡ false → (t.pending ≡ []) ⊎ (t.cancelled ≡ true))
      → IsTallied s
      → IsTallied t
  same_counts t ed es ef eo closed h = record {
    deletions = ed ∙ (h.deletions ∙ ap (count_status is_deleted) (sym eo));
    skips = es ∙ (h.skips ∙ ap (count_status is_skipped) (sym eo));
    failures = ef ∙ (h.failures ∙ ap (count_status is_failed) (sym eo));
    closed = closed;
  }

  IsTallied-next : (s : Run) (m : Move clients s) → IsTallied s → IsTallied (next clients s m)
  unfolding next
  IsTallied-next s (send i action rest is_open first idle) h =
      same_counts _ refl refl refl refl (λ shut. cc) h
  IsTallied-next s (close_jobs is_open through) h =
      same_counts _ refl refl refl refl (λ shut. inl through) h
  IsTallied-next s (stop_feeding is_open done) h =
      same_counts _ refl refl refl refl (λ shut. inr done) h
  IsTallied-next s (refuse i action has gone) h = same_counts _ refl refl refl refl h.closed h
  IsTallied-next s (call i action client answer has configured) h =
      same_counts _ refl refl refl refl h.closed h
  IsTallied-next s (report i o then_cancel has) h =
      received-IsTallied o o.status _ refl (same_counts _ refl refl refl refl h.closed h)
  IsTallied-next s (cancel i has) h = same_counts _ refl refl refl refl (λ shut. inr refl) h
  IsTallied-next s (exit i shut idle) h = same_counts _ refl refl refl refl h.closed h
  IsTallied-next s (interrupt running) h = same_counts _ refl refl refl refl (λ shut. inr refl) h

  pub IsTallied-Steps : {n : ℕ} {s t : Run} → Steps clients n s t → IsTallied s → IsTallied t
  IsTallied-Steps here_already h = h
  IsTallied-Steps (go {s = s} m steps) h = IsTallied-Steps steps (IsTallied-next s m h)
