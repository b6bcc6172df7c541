-- ===== src/Engine/Apply/Outcome.antt =====
-- The end of a run of `Engine.Apply` of internal/engine/engine.go in numbers.
use mathlib.Core.List.{reverse}
use regbot.Base.{
  Bool, true, ℕ, ◌+◌, ◌-◌, ◌≤◌, List, [], ◌∷◌, Str, ◌≡◌, refl, arith, sym, ◌∙◌, map, count, length,
  if◌then◌else◌, ℤ, pos, ◌+ℤ◌, ◌-ℤ◌, count-reverse, count-slice_stable,
}
use regbot.Provider.{Client, DeleteRequest, Time}
use regbot.Plan.{Action, Plan, Status, deleted, skipped, failed, ActionOutcome}
use regbot.Engine.Apply.{
  Run, request_of, Steps, all_exited, begin, pool_size, result_of, outcome_before,
}
use regbot.Engine.Apply.Workers.{total-waiting_workers, total-exited}
use regbot.Engine.Apply.Conserved.{stock, stock-Steps, held_count, done_actions}
use regbot.Engine.Apply.Tallied.{
  IsTallied, IsTallied-Steps, is_deleted, is_skipped, is_failed, count_status,
}

begin-IsTallied : (c : ℤ) (b : Bool) (actions : List Action) → IsTallied (begin c b actions)
begin-IsTallied c b actions = record {
  deletions = refl;
  skips = refl;
  failures = refl;
  closed = λ e. cc;
}

pub all_counted :
    (os : List ActionOutcome)
    → count_status is_deleted os + count_status is_skipped os + count_status is_failed os
      ≡ length os
all_counted [] = omega arith
all_counted (o ∷ os) = omega (arith, one o.status, all_counted os)
  where
    one :
        (st : Status)
        → (if is_deleted st then 1 else 0)
            + (if is_skipped st then 1 else 0)
            + (if is_failed st then 1 else 0)
          ≡ 1
    one deleted = omega arith
    one skipped = omega arith
    one failed = omega arith

count_done :
    (p : Action → Bool) (os : List ActionOutcome)
    → count p (done_actions os) ≡ count (λ o. p o.action) os
count_done p [] = refl
count_done p (o ∷ os) = omega (arith, count_done p os)

pub count_requests :
    (q : Str × DeleteRequest → Bool) (actions : List Action)
    → count q (map request_of actions) ≡ count (λ a. q (request_of a)) actions
count_requests q [] = refl
count_requests q (a ∷ actions) = omega (arith, count_requests q actions)

pub count_all : {A : Type 0} (xs : List A) → count (λ x. true) xs ≡ length xs
count_all [] = refl
count_all (x ∷ xs) = omega (arith, count_all xs)

-- The call of an action by `stock` at the beginning and at the end of a run.
pub stock-begin :
    (p : Action → Bool) (c : ℤ) (b : Bool) (actions : List Action)
    → stock p (begin c b actions) ≡ count p actions
unfolding stock
stock-begin p c b actions = omega (arith, total-waiting_workers (held_count p) (pool_size c) refl)

pub stock-end :
    (p : Action → Bool) (s : Run)
    → all_exited s.workers ≡ true
    → stock p s ≡ count p s.pending + count (λ o. p o.action) s.outcomes
unfolding stock
stock-end p s done =
    omega (arith, total-exited (held_count p) s.workers refl done, count_done p s.outcomes)

module _ (clients : List (Str × Client)) {n : ℕ} (concurrency : ℤ) (interrupted : Bool)
    (actions : List Action) (s : Run)
    (steps : Steps clients n (begin concurrency interrupted actions) s)
    (done : all_exited s.workers ≡ true) where
  pub ended_stock :
      (p : Action → Bool) → count p s.pending + count (λ o. p o.action) s.outcomes ≡ count p actions
  ended_stock p =
      sym (stock-end p s done)
      ∙ (stock-Steps clients p steps ∙ stock-begin p concurrency interrupted actions)

  pub ended_length : length s.pending + length s.outcomes ≡ length actions
  ended_length =
      omega (
        arith,
        ended_stock (λ a. true),
        count_all s.pending,
        count_all s.outcomes,
        count_all actions,
      )

  pub ended-IsTallied : IsTallied s
  ended-IsTallied = IsTallied-Steps clients steps (begin-IsTallied concurrency interrupted actions)

pub settled :
    (d k f n : ℕ) → d + k + f ≤ n → pos k +ℤ (pos n -ℤ pos d -ℤ pos k -ℤ pos f) ≡ pos (n - d - f)
unfolding ◌+ℤ◌ ◌-ℤ◌
settled d k f n h = ground arith

pub count-outcomes :
    (p : ActionOutcome → Bool) (plan : Plan) (started finished : Time) (s : Run)
    → count p (result_of plan started finished s).outcomes ≡ count p s.outcomes
unfolding result_of
count-outcomes p plan started finished s =
    count-slice_stable outcome_before p (reverse s.outcomes) ∙ count-reverse p s.outcomes
