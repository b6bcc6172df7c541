-- ===== src/Engine/Apply/Conserved.antt =====
-- What every move of a run of `Engine.Apply` in internal/engine/engine.go keeps: no action is lost or
-- taken twice, the counts count the outcomes, and requests are those of actions.
use regbot.Base.{
  Bool, true, false, ℕ, ◌+◌, ◌≤◌, List, [], ◌∷◌, Str, Result, ok, err, ◌≡◌, refl, arith, ap, ◌∙◌,
  map, count, inl, inr, Bool-cases, if◌then◌else◌,
}
use regbot.Provider.{Client, ProviderError, DeleteRequest}
use regbot.Plan.{Action, Status, deleted, skipped, failed, ActionOutcome}
use regbot.Engine.Apply.{
  Worker, waiting, holding, reporting, cancelling, exited, Run, request_of, outcome_of, cancels,
  put_worker, tally, Move, send, close_jobs, stop_feeding, refuse, call, report, cancel, exit,
  interrupt, next, Steps, here_already, go,
}
use regbot.Engine.Apply.Workers.{total, total-put_worker}

-- The action that a worker is busy with.
abbrev pub held : Worker → List Action
held (holding action) = action ∷ []
held (reporting o then_cancel) = o.action ∷ []
held w = []

abbrev pub held_count : (Action → Bool) → Worker → ℕ
held_count p w = count p (held w)

abbrev pub done_actions : List ActionOutcome → List Action
done_actions = map (λ o. o.action)

-- How many actions with a property are pending, with a worker, or done.
unfoldable pub stock : (Action → Bool) → Run → ℕ
stock p s = count p s.pending + total (held_count p) s.workers + count p (done_actions s.outcomes)

outcome_of-action :
    (action : Action) (answer : Result ProviderError (Unit {0}))
    → (outcome_of action answer).action ≡ action
outcome_of-action action (ok u) = refl
outcome_of-action action (err e) = elim (Bool-cases e.is_not_found) [
  | inl h ↦ rw h refl
  | inr h ↦ rw h refl
]

-- A worker behind its report.
abbrev reported : Bool → Worker
reported then_cancel = if then_cancel then cancelling else waiting

held_count-reported :
    (p : Action → Bool) (then_cancel : Bool) → held_count p (reported then_cancel) ≡ 0
held_count-reported p true = refl
held_count-reported p false = refl

stock-tally : (p : Action → Bool) (status : Status) (s : Run) → stock p (tally status s) ≡ stock p s
unfolding stock
stock-tally p deleted s = refl
stock-tally p skipped s = refl
stock-tally p failed s = refl

module _ (clients : List (Str × Client)) where
  pub stock-next :
      (p : Action → Bool) (s : Run) (m : Move clients s) → stock p (next clients s m) ≡ stock p s
  unfolding stock next
  stock-next p s (send i action rest is_open first idle) = omega (
    arith,
    total-put_worker (held_count p) i (holding action) waiting s.workers idle,
    ap (count p) first,
  )
  stock-next p s (close_jobs is_open through) = refl
  stock-next p s (stop_feeding is_open done) = refl
  stock-next p s (refuse i action has gone) =
      omega (arith, total-put_worker (held_count p) i _ (holding action) s.workers has)
  stock-next p s (call i action client answer has configured) = omega (
    arith,
    total-put_worker (held_count p) i (reporting (outcome_of action answer) (cancels answer))
        (holding action) s.workers has,
    ap (λ a. count p (a ∷ [])) (outcome_of-action action answer),
  )
  stock-next p s (report i o then_cancel has) =
      stock-tally p o.status _
      ∙ omega (
        arith,
        total-put_worker (held_count p) i (reported then_cancel) (reporting o then_cancel) s.workers
            has,
        held_count-reported p then_cancel,
      )
  stock-next p s (cancel i has) =
      omega (arith, total-put_worker (held_count p) i waiting cancelling s.workers has)
  stock-next p s (exit i closed idle) =
      omega (arith, total-put_worker (held_count p) i exited waiting s.workers idle)
  stock-next p s (interrupt running) = refl

  pub stock-Steps :
      (p : Action → Bool) {n : ℕ} {s t : Run} → Steps clients n s t → stock p t ≡ stock p s
  stock-Steps p here_already = refl
  stock-Steps p (go m steps) = stock-Steps p steps ∙ stock-next p _ m

-- How many requests with a property were sent or can still be.
abbrev pub asked : (Str × DeleteRequest → Bool) → Worker → ℕ
asked q (holding action) = count q (request_of action ∷ [])
asked q w = 0

unfoldable pub demand : (Str × DeleteRequest → Bool) → Run → ℕ
demand q s = count q s.requests + total (asked q) s.workers + count q (map request_of s.pending)

asked-reported :
    (q : Str × DeleteRequest → Bool) (then_cancel : Bool) → asked q (reported then_cancel) ≡ 0
asked-reported q true = refl
asked-reported q false = refl

demand-tally :
    (q : Str × DeleteRequest → Bool) (status : Status) (s : Run)
    → demand q (tally status s) ≡ demand q s
unfolding demand
demand-tally q deleted s = refl
demand-tally q skipped s = refl
demand-tally q failed s = refl

module _ (clients : List (Str × Client)) where
  demand-next :
      (q : Str × DeleteRequest → Bool) (s : Run) (m : Move clients s)
      → demand q (next clients s m) ≤ demand q s
  unfolding demand next
  demand-next q s (send i action rest is_open first idle) = omega (
    arith,
    total-put_worker (asked q) i (holding action) waiting s.workers idle,
    ap (λ l. count q (map request_of l)) first,
  )
  demand-next q s (close_jobs is_open through) = omega arith
  demand-next q s (stop_feeding is_open done) = omega arith
  demand-next q s (refuse i action has gone) =
      omega (arith, total-put_worker (asked q) i _ (holding action) s.workers has)
  demand-next q s (call i action client answer has configured) = omega (
    arith,
    total-put_worker (asked q) i (reporting (outcome_of action answer) (cancels answer))
        (holding action) s.workers has,
  )
  demand-next q s (report i o then_cancel has) = omega (
    arith,
    demand-tally q o.status (record s {
      workers = put_worker i (reported then_cancel) s.workers;
      outcomes = o ∷ s.outcomes;
    }),
    total-put_worker (asked q) i (reported then_cancel) (reporting o then_cancel) s.workers has,
    asked-reported q then_cancel,
  )
  demand-next q s (cancel i has) =
      omega (arith, total-put_worker (asked q) i waiting cancelling s.workers has)
  demand-next q s (exit i closed idle) =
      omega (arith, total-put_worker (asked q) i exited waiting s.workers idle)
  demand-next q s (interrupt running) = omega arith

  pub demand-Steps :
      (q : Str × DeleteRequest → Bool) {n : ℕ} {s t : Run}
      → Steps clients n s t
      → demand q t ≤ demand q s
  demand-Steps q here_already = omega arith
  demand-Steps q (go {s = s} m steps) = omega (arith, demand-Steps q steps, demand-next q s m)
