-- ===== src/Engine/Apply/Ending.antt =====
-- Why `Engine.Apply` of internal/engine/engine.go returns: its goroutines are never stuck, and each move
-- takes some of a weight.
use regbot.Base.{
  Bool, true, false, not, ℕ, zero, suc, ◌+◌, ◌*◌, ◌≤◌, List, [], ◌∷◌, Str, some, err, ◌≡◌, ◌≢◌,
  refl, arith, ap, length, inl, inr, Bool-cases, Option-cases, if◌then◌else◌, get_elem?,
}
use regbot.Provider.{Client, ProviderError}
use regbot.Plan.{Action, Status, deleted, skipped, failed}
use regbot.Engine.Planning.{find}
use regbot.Engine.Apply.{
  Worker, waiting, holding, reporting, cancelling, exited, Run, outcome_of, cancels, put_worker,
  tally, Move, send, close_jobs, stop_feeding, refuse, call, report, cancel, exit, interrupt, next,
  Steps, here_already, go, all_exited,
}
use regbot.Engine.Apply.Workers.{total, total-put_worker, all_exited-cases}

-- How many moves a worker is from its end, at most.
abbrev pub left_of : Worker → ℕ
left_of waiting = 1
left_of (holding action) = 4
left_of (reporting o then_cancel) = 3
left_of cancelling = 2
left_of exited = 0

abbrev one_if : Bool → ℕ
one_if b = if b then 1 else 0

unfoldable pub weight : Run → ℕ
weight s =
    4 * length s.pending + total left_of s.workers + one_if s.feeding + one_if (not s.cancelled)

left_of-reported : (then_cancel : Bool) → left_of (if then_cancel then cancelling else waiting) ≤ 2
left_of-reported true = omega arith
left_of-reported false = omega arith

weight-tally : (status : Status) (s : Run) → weight (tally status s) ≡ weight s
unfolding weight
weight-tally deleted s = refl
weight-tally skipped s = refl
weight-tally failed s = refl

module _ (clients : List (Str × Client)) where
  weight-next : (s : Run) (m : Move clients s) → suc (weight (next clients s m)) ≤ weight s
  unfolding weight next
  weight-next s (send i action rest is_open first idle) =
      omega
        (arith, total-put_worker left_of i (holding action) waiting s.workers idle, ap length first)
  weight-next s (close_jobs is_open through) = ground arith
  weight-next s (stop_feeding is_open done) = ground arith
  weight-next s (refuse i action has gone) =
      omega (arith, total-put_worker left_of i (reporting _ true) (holding action) s.workers has)
  weight-next s (call i action client answer has configured) = omega (
    arith,
    total-put_worker left_of i (reporting (outcome_of action answer) (cancels answer))
        (holding action) s.workers has,
  )
  weight-next s (report i o then_cancel has) =
      let w = if then_cancel then cancelling else waiting in
      omega (
        arith,
        weight-tally o.status
            (record s { workers = put_worker i w s.workers; outcomes = o ∷ s.outcomes }),
        total-put_worker left_of i w (reporting o then_cancel) s.workers has,
        left_of-reported then_cancel,
      )
  weight-next s (cancel i has) =
      ground (arith, total-put_worker left_of i waiting cancelling s.workers has)
  weight-next s (exit i closed idle) =
      omega (arith, total-put_worker left_of i exited waiting s.workers idle)
  weight-next s (interrupt running) = ground arith

  -- A run has no more moves than its first state has weight.
  pub weight-Steps : {n : ℕ} {s t : Run} → Steps clients n s t → n + weight t ≤ weight s
  weight-Steps here_already = omega arith
  weight-Steps (go {s = s} m steps) = omega (arith, weight-Steps steps, weight-next s m)

  abbrev gone : ProviderError
  gone = record { text = []; is_not_found = true; is_precondition = false }

  idle-Move : (s : Run) (i : ℕ) → get_elem? s.workers i ≡ some waiting → Move clients s
  idle-Move s i idle = elim (Bool-cases s.feeding) [
    | inl is_open ↦ feeder s.pending refl is_open
    | inr closed ↦ exit i closed idle
  ]
    where
      feeder : (pending : List Action) → s.pending ≡ pending → s.feeding ≡ true → Move clients s
      feeder [] e is_open = close_jobs is_open e
      feeder (action ∷ rest) e is_open = send i action rest is_open e idle

  -- A worker that has not returned, or the feeder for it, can move.
  Move-of :
      (s : Run) (i : ℕ) (w : Worker) → get_elem? s.workers i ≡ some w → w ≢ exited → Move clients s
  Move-of s i waiting has ne = idle-Move s i has
  Move-of s i (holding action) has ne =
      elim (Option-cases (find action.artifact.registry clients)) [
        | inl missing ↦ refuse i action has missing
        | inr (client, found) ↦ call i action client (err gone) has found
      ]
  Move-of s i (reporting o then_cancel) has ne = report i o then_cancel has
  Move-of s i cancelling has ne = cancel i has
  Move-of s i exited has ne = absurd (ne refl)

  -- Every run can be brought to its end: no goroutine waits for ever.
  pub ends_within :
      (k : ℕ) (s : Run)
      → weight s ≤ k
      → (n : ℕ) × (t : Run) × Steps clients n s t × (all_exited t.workers ≡ true)
  ends_within zero s le = elim (all_exited-cases s.workers) [
    | inl done ↦ (0, s, here_already, done)
    | inr (i, w, has, ne) ↦ absurd (omega (arith, weight-next s (Move-of s i w has ne)))
  ]
  ends_within (suc k) s le = elim (all_exited-cases s.workers) [
    | inl done ↦ (0, s, here_already, done)
    | inr (i, w, has, ne) ↦
        let m = Move-of s i w has ne in
        let (n, t, steps, done) =
          ends_within k (next clients s m) (omega (arith, weight-next s m)) in
        (suc n, t, go m steps, done)
  ]

  -- A run that has not ended goes on.
  pub goes_on : (s : Run) → all_exited s.workers ≡ false → Move clients s
  goes_on s running = elim (all_exited-cases s.workers) [
    | inl done ↦ absurd (cc)
    | inr (i, w, has, ne) ↦ Move-of s i w has ne
  ]
