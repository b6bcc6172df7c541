-- ===== src/Engine/Safe.antt =====
-- Planning and application together: what `Engine.Apply` deletes by a plan of `Engine.Plan`, in
-- internal/engine/engine.go.
use regbot.Base.{
  not, ◌||◌, Str, Option, some, ok, ◌≡◌, Float64, In, ◌∙◌, ap, ℤ, str_eq, str_eq_refl,
}
use regbot.Provider.{DeleteRequest, Time, after}
use regbot.Plan.{Action, Plan, ApplyResult, format_version}
use regbot.Policy.Evaluate.{VisitsAll}
use regbot.Config.Types.{Config, Policy, Target}
use regbot.Engine.Planning.{Env, find, make_plan, hour_after}
use regbot.Engine.Planning.Trace.{Batch, IsBatch, make_plan-Traced}
use regbot.Engine.Planning.Sound.{IsJustifiedBy, make_plan-Justified}
use regbot.Engine.Planning.Unanimous.{Agrees, make_plan-unanimous}
use regbot.Engine.Apply.{Run, request_of, Applies, ApplyError, is_stale}
use regbot.Engine.Apply.Requests.{Applies-requested}

module _ {F : Type 0} (f : Float64 F) (env : Env) (now : Time) (config : Config F)
    (config_bytes : Str) (plan : Plan) where
  -- The request is that of an action which a policy justifies and no policy's target objects to.
  pub record IsSafe (q : Str × DeleteRequest) : Type 0 where
    pub action : Action
    pub asks : q ≡ request_of action
    pub planned : In action plan.actions
    pub justified :
        (b : Batch F) × IsBatch f env now config b × IsJustifiedBy f env now config action b
    pub unopposed :
        (name : Str) (p : Policy F) (target : Target)
        → find name config.policies ≡ some p
        → In target p.targets
        → (b : Batch F) × IsBatch f env now config b
          × (b.policy_name ≡ name)
          × (b.target ≡ target)
          × Agrees f env now config b action

  -- Whatever is asked to be deleted by a plan was eligible under the policy that it was planned for, and
  -- wherever a target of any policy listed it.
  pub planned_requests-IsSafe :
      (visits : VisitsAll env.visit_order)
      → make_plan f env now config config_bytes ≡ ok plan
      → (concurrency : ℤ) (r : ApplyResult) (e : Option ApplyError) (s : Run)
      → Applies env.fingerprint env.clients config_bytes concurrency plan r e (some s)
      → (q : Str × DeleteRequest) → In q s.requests
      → IsSafe q
  planned_requests-IsSafe visits made concurrency r e s applies q m =
      let (action, planned, asks) =
        Applies-requested env.fingerprint env.clients config_bytes concurrency plan r e s applies q
          m in
      record {
        action = action;
        asks = asks;
        planned = planned;
        justified =
            make_plan-Justified f env now config visits config_bytes plan made action planned;
        unopposed =
            make_plan-unanimous f env now config visits config_bytes plan made action planned;
      }

  -- A plan is refused later exactly if the configuration has another fingerprint by then or an hour has
  -- passed.
  made_plan-is_stale :
      make_plan f env now config config_bytes ≡ ok plan
      → (config_bytes' : Str) (started : Time)
      → is_stale env.fingerprint config_bytes' plan started ≡ (
          not (str_eq (env.fingerprint config_bytes) (env.fingerprint config_bytes'))
          || after started (hour_after now))
  unfolding is_stale
  made_plan-is_stale made config_bytes' started =
      let (s, bs, run, covers, kept, e) =
        make_plan-Traced f env now config config_bytes plan made in
      ap (λ (p : Plan). is_stale env.fingerprint config_bytes' p started) e
      ∙ ap
          (λ b.
            not b
            || (not (str_eq (env.fingerprint config_bytes) (env.fingerprint config_bytes'))
                || after started (hour_after now)))
          (str_eq_refl format_version)
