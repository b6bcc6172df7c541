-- ===== src/Scheduler/Skipped.antt =====
-- `skippedOccurrences` of internal/scheduler/scheduler.go against the times of the schedule.
use regbot.Base.{
  true, false, ℕ, zero, suc, ◌+◌, ◌≤◌, ◌<◌, none, some, pos, pos_part, neg_part, ◌<ℤ◌, ◌≡◌, refl,
  arith, Bool-cases, inl, inr, ap, ◌∙◌,
}
use regbot.Provider.{Time, after}
use regbot.Scheduler.{skipped_from, skipped_occurrences}

-- The times of the schedule from a time on.
abbrev pub occurrence : (Time → Time) → ℕ → Time → Time
occurrence next zero t = t
occurrence next (suc k) t = occurrence next k (next t)

-- So many rounds are more than one for each nanosecond from a time to another, and one more.
abbrev pub Reaches : ℕ → Time → Time → Type 0
Reaches rounds t finished =
    suc (pos_part finished + neg_part t) < pos_part t + (neg_part finished + rounds)

abbrev pub IsSkipped : (Time → Time) → Time → Time → ℕ → Type 0
IsSkipped next t finished n =
    (after (occurrence next n t) finished ≡ true)
    × ((k : ℕ) → k < n → after (occurrence next k t) finished ≡ false)

skipped_from-IsSkipped :
    (next : Time → Time)
    → ((t : Time) → t <ℤ next t)
    → (rounds : ℕ) (t finished : Time) (skipped : ℕ) → 1 ≤ rounds
    → Reaches rounds t finished
    → (n : ℕ) × (skipped_from next rounds t finished skipped ≡ some (skipped + n))
      × IsSkipped next t finished n
skipped_from-IsSkipped next later zero t finished skipped le r = absurd (omega arith)
skipped_from-IsSkipped next later (suc rounds) t finished skipped le r =
    elim (Bool-cases (after t finished)) [
      | inl e ↦ (0, rw e (ap some (omega arith)), (e, λ k lt. absurd (omega arith)))
      | inr e ↦
          let (n, x, (last, before)) =
            skipped_from-IsSkipped next later rounds (next t) finished (suc skipped)
              (ground (arith, later t)) (ground (arith, later t)) in
          (suc n, rw e (x ∙ ap some (omega arith)), (last, λ k lt. earlier e before k lt))
    ]
  where
    earlier :
        {n : ℕ}
        → after t finished ≡ false
        → ((k : ℕ) → k < n → after (occurrence next k (next t)) finished ≡ false)
        → (k : ℕ) → k < suc n
        → after (occurrence next k t) finished ≡ false
    earlier e before zero lt = e
    earlier e before (suc k) lt = before k (omega arith)

-- If the schedule goes on, `skippedOccurrences` returns, and what it returns is the number of times of the
-- schedule that lie behind the start and not behind the end.
pub skipped_occurrences-IsSkipped :
    (next : Time → Time)
    → ((t : Time) → t <ℤ next t)
    → (rounds : ℕ) (started finished : Time) → 1 ≤ rounds
    → Reaches rounds started finished
    → (n : ℕ) × (skipped_occurrences next rounds started finished ≡ some n)
      × IsSkipped next (next started) finished n
unfolding skipped_occurrences
skipped_occurrences-IsSkipped next later rounds started finished le r =
    let (n, x, y) =
      skipped_from-IsSkipped next later rounds (next started) finished 0 le
        (omega (arith, later started, r)) in
    (n, x ∙ ap some (omega arith), y)

never_ends :
    (next : Time → Time)
    → ((t : Time) → next t ≡ pos 0)
    → (rounds : ℕ) (t finished : Time) (skipped : ℕ) → after t finished ≡ false
    → after (pos 0) finished ≡ false
    → skipped_from next rounds t finished skipped ≡ none
never_ends next none_left zero t finished skipped e e0 = refl
never_ends next none_left (suc rounds) t finished skipped e e0 =
    rw e (never_ends next none_left rounds (next t) finished (suc skipped) (rw (none_left t) e0) e0)

-- Of a schedule whose times never come, for which the cron parser's `Next` is the zero time,
-- `skippedOccurrences` does not return.
pub skipped_occurrences-endless :
    (next : Time → Time)
    → ((t : Time) → next t ≡ pos 0)
    → (rounds : ℕ) (started finished : Time) → after (pos 0) finished ≡ false
    → skipped_occurrences next rounds started finished ≡ none
unfolding skipped_occurrences
skipped_occurrences-endless next none_left rounds started finished e =
    never_ends next none_left rounds (next started) finished 0 (rw (none_left started) e) e
