-- ===== src/Engine/Apply/Results.antt =====
-- What `Engine.Apply` of internal/engine/engine.go promises of its result and of the requests it sends.
use regbot.Base.{
  Bool, true, false, not, ℕ, ◌+◌, ◌*◌, ◌≤◌, List, [], Str, Option, some, ◌≡◌, ◌↔◌, refl, arith, ap,
  sym, ◌∙◌, count, length, inl, inr, Bool-cases, subst, if◌then◌else◌, ℤ, pos, ltb,
}
use regbot.Provider.{Client, Time}
use regbot.Plan.{Action, Plan, Status, ApplyResult}
use regbot.Engine.Apply.{
  Run, Steps, all_exited, begin, pool_size, result_of, Applies, ran, error_of, ApplyError,
  partial_apply,
}
use regbot.Engine.Apply.Workers.{total-each}
use regbot.Engine.Apply.Tallied.{is_deleted, is_skipped, is_failed, count_status}
use regbot.Engine.Apply.Ending.{weight, weight-Steps, left_of, ends_within}
use regbot.Engine.Apply.Crew.{ended-closed}
use regbot.Engine.Apply.Outcome.{
  all_counted, settled, count-outcomes, ended_stock, ended_length, ended-IsTallied, count_all,
}

-- The numbers of a result add up.
pub record AddsUp (r : ApplyResult) : Type 0 where
  pub not_tried : ℕ
  pub skips : r.skipped ≡ pos (count_status is_skipped r.outcomes + not_tried)
  pub deletions : r.deleted ≡ count_status is_deleted r.outcomes
  pub failures : r.failed ≡ count_status is_failed r.outcomes
  pub everything : length r.outcomes + not_tried ≡ r.planned

module _ (fingerprint : Str → Str) (clients : List (Str × Client)) (config_bytes : Str)
    (concurrency : ℤ) (plan : Plan) where
  abbrev AppliesHere : ApplyResult → Option ApplyError → Option Run → Type 0
  AppliesHere = Applies fingerprint clients config_bytes concurrency plan

  ran-AddsUp :
      {n : ℕ} (started finished : Time) (b : Bool) (s : Run)
      → Steps clients n (begin concurrency b plan.actions) s
      → all_exited s.workers ≡ true
      → AddsUp (result_of plan started finished s)
  unfolding result_of
  ran-AddsUp started finished b s steps done =
      let h = ended-IsTallied clients concurrency b plan.actions s steps done in
      let e = ended_length clients concurrency b plan.actions s steps done in
      let r = result_of plan started finished s in
      let same =
        λ (is : Status → Bool). count-outcomes (λ o. is o.status) plan started finished s in
      let counts = all_counted s.outcomes in
      record {
        not_tried = length s.pending;
        skips =
            settled s.deleted_count s.skipped_count s.failed_count (length plan.actions)
              (omega (arith, h.deletions, h.skips, h.failures))
            ∙ ap pos (omega (arith, h.deletions, h.skips, h.failures, same is_skipped));
        deletions = h.deletions ∙ sym (same is_deleted);
        failures = h.failures ∙ sym (same is_failed);
        everything = omega (
          arith,
          count_all r.outcomes,
          count_all s.outcomes,
          count-outcomes (λ o. true) plan started finished s,
        );
      }

  -- The numbers of a result that `Apply` returns behind a run add up: the outcomes of each status are
  -- counted, and an action without an outcome counts as skipped, so that the number skipped is never
  -- negative and the three numbers are together the number planned.
  pub Applies-AddsUp :
      (r : ApplyResult) (e : Option ApplyError) (s : Run) → AppliesHere r e (some s) → AddsUp r
  Applies-AddsUp _ _ _ (ran started finished b n s fresh steps done) =
      ran-AddsUp started finished b s steps done

  some_failed : (r : ApplyResult) → (error_of r ≡ some partial_apply) ↔ (1 ≤ r.failed)
  some_failed r = elim (Bool-cases (ltb 0 r.failed)) [
    | inl e ↦ rw e ((λ h. ground arith), λ h. refl)
    | inr e ↦ rw e ((λ h. cc), λ h. absurd (ground arith))
  ]

  -- Behind a run, `Apply` returns the error of a partial application exactly if an outcome failed.
  pub Applies-error :
      (r : ApplyResult) (e : Option ApplyError) (s : Run)
      → AppliesHere r e (some s)
      → (e ≡ some partial_apply) ↔ (1 ≤ count_status is_failed r.outcomes)
  Applies-error _ _ _ (ran started finished b n s fresh steps done) =
      let r = result_of plan started finished s in
      let same = (ran-AddsUp started finished b s steps done).failures in
      subst (λ k. (error_of r ≡ some partial_apply) ↔ (1 ≤ k)) same (some_failed r)

  ran_to_end :
      {n : ℕ} (started finished : Time) (b : Bool) (s : Run)
      → Steps clients n (begin concurrency b plan.actions) s
      → all_exited s.workers ≡ true
      → (p : Action → Bool)
      → count p s.pending + count (λ o. p o.action) (result_of plan started finished s).outcomes
        ≡ count p plan.actions
  ran_to_end started finished b s steps done p = omega (
    arith,
    ended_stock clients concurrency b plan.actions s steps done p,
    count-outcomes (λ o. p o.action) plan started finished s,
  )

  -- Behind a run, no action has more outcomes than it stands in the plan: of the outcomes, those of
  -- actions with a property are at most the actions of the plan with it.
  Applies-outcomes :
      (r : ApplyResult) (e : Option ApplyError) (s : Run)
      → AppliesHere r e (some s)
      → (p : Action → Bool) → count (λ o. p o.action) r.outcomes ≤ count p plan.actions
  Applies-outcomes _ _ _ (ran started finished b n s fresh steps done) p =
      omega (arith, ran_to_end started finished b s steps done p)

  -- Behind a run that was not cancelled, each action has as many outcomes as it stands in the plan:
  -- those of actions with a property are as many as the actions of the plan with it.
  pub Applies-complete :
      (r : ApplyResult) (e : Option ApplyError) (s : Run)
      → AppliesHere r e (some s)
      → s.cancelled ≡ false
      → (p : Action → Bool) → count (λ o. p o.action) r.outcomes ≡ count p plan.actions
  Applies-complete _ _ _ (ran started finished b n s fresh steps done) calm p =
      omega (arith, ran_to_end started finished b s steps done p, ap (count p) nothing_left)
    where
      nothing_left : s.pending ≡ []
      nothing_left =
          elim ((ended-IsTallied clients concurrency b plan.actions s steps done).closed
            (ended-closed clients concurrency b plan.actions steps done)) [ inl e ↦ e | inr e ↦ cc ]

  -- A run of a plan has at most four moves for each action, one for each goroutine of the pool and two
  -- more; a run that has got anywhere goes on to an end, at which all goroutines have returned.
  pub Steps-end :
      (b : Bool) (n : ℕ) (s : Run)
      → Steps clients n (begin concurrency b plan.actions) s
      → (n ≤ 4 * length plan.actions + pool_size concurrency + 2)
        × ((k : ℕ) × (t : Run) × Steps clients k s t × (all_exited t.workers ≡ true))
  unfolding weight
  Steps-end b n s steps = (
    omega (
      arith,
      weight-Steps clients steps,
      total-each left_of (pool_size concurrency) refl,
      two_bits b,
    ),
    ends_within clients (weight s) s (omega arith),
  )
    where
      two_bits : (c : Bool) → (if not c then 1 else 0) ≤ 1
      two_bits true = omega arith
      two_bits false = omega arith
