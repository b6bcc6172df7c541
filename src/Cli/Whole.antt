-- ===== src/Cli/Whole.antt =====
-- `run` of internal/cli/root.go over the engine of internal/engine/engine.go: from the exit code back to
-- the requests that were sent.
use regbot.Base.{
  true, ◌≤◌, [], ◌∷◌, Str, Option, none, some, ok, ◌≡◌, refl, arith, sym, ◌∙◌, subst, Float64, ℤ,
  In, ◌↔◌, zero, suc, ℕ,
}
use regbot.Provider.{Time, DeleteRequest}
use regbot.Plan.{Plan, ApplyResult}
use regbot.Config.Types.{Config}
use regbot.Policy.Evaluate.{VisitsAll}
use regbot.Engine.Planning.{Env, make_plan}
use regbot.Engine.Apply.{Run, Applies, refused, ran, ApplyError, partial_apply}
use regbot.Engine.Apply.Results.{AddsUp, Applies-AddsUp, Applies-error}
use regbot.Engine.Safe.{IsSafe, planned_requests-IsSafe}
use regbot.Cli.{World, planned, exit_code}
use regbot.Cli.Commands.{run_command}
use regbot.Cli.Runs.{run_command-succeeds}

zero_unless :
    (n : ℕ) (e : Option ApplyError) → (e ≡ some partial_apply) ↔ (1 ≤ n) → e ≡ none → n ≡ 0
zero_unless zero e failing calm = refl
zero_unless (suc n) e failing calm = cc (failing.1 (omega arith))

module _ {F : Type 0} (f : Float64 F) (env : Env) (now : Time) (config : Config F)
    (config_bytes : Str) (concurrency : ℤ) (world : World F) where
  -- The world's answers are those of the engine.
  pub record IsEngine : Type 0 where
    pub loads : world.load ≡ ok config
    pub plans : world.plan [] ≡ make_plan f env now config config_bytes
    pub applies :
        (p : Plan)
        → make_plan f env now config config_bytes ≡ ok p
        → (o : Option Run) × Applies env.fingerprint env.clients config_bytes concurrency p
            (world.apply (planned ∷ []) p).0
            (world.apply (planned ∷ []) p).1
            o

  -- A plan was carried out by a run of `Apply`, whose result is the one that the command got: nothing
  -- failed, its numbers add up, and what that run sent was safe.
  pub record IsCarriedOut : Type 0 where
    pub proposal : Plan
    pub run : Run
    pub made : make_plan f env now config config_bytes ≡ ok proposal
    pub carried :
        Applies env.fingerprint env.clients config_bytes concurrency proposal
          (world.apply (planned ∷ []) proposal).0
          (world.apply (planned ∷ []) proposal).1
          (some run)
    pub no_failure : (world.apply (planned ∷ []) proposal).0.failed ≡ 0
    pub numbers : AddsUp (world.apply (planned ∷ []) proposal).0
    pub safe :
        (q : Str × DeleteRequest)
        → In q run.requests
        → IsSafe f env now config config_bytes proposal q

  has_run :
      (p : Plan) (r : ApplyResult) (e : Option ApplyError) (o : Option Run)
      → Applies env.fingerprint env.clients config_bytes concurrency p r e o
      → e ≡ none
      → (s : Run) × (o ≡ some s)
  has_run p _ _ _ (refused started stale) calm = cc
  has_run p _ _ _ (ran started finished b n s fresh steps done) calm = (s, refl)

  -- When `run` exits with 0 and the configuration allows deletions, then, if the world's answers are
  -- those of the engine, a plan was made and a run of `Apply` carried it out and gave the result: no
  -- deletion failed, the numbers of the result add up, and whatever that run asked to be deleted was
  -- eligible under the policy that it was planned for, and wherever a target of any policy listed it.
  pub run_command-IsCarriedOut :
      (visits : VisitsAll env.visit_order) (format : Str)
      → IsEngine
      → config.apply ≡ true
      → exit_code (run_command world format []).0 ≡ 0
      → IsCarriedOut
  run_command-IsCarriedOut visits format engine wet zero_code =
      let (p, plans, calm, printed) =
        run_command-succeeds world config format engine.loads wet zero_code in
      let made = sym engine.plans ∙ plans in
      let (r, e) = world.apply (planned ∷ []) p in
      let (o, applies) = engine.applies p made in
      let (s, is_run) = has_run p r e o applies calm in
      let applied =
        subst (Applies env.fingerprint env.clients config_bytes concurrency p r e) is_run applies in
      let numbers =
        Applies-AddsUp env.fingerprint env.clients config_bytes concurrency p r e s applied in
      record {
        proposal = p;
        run = s;
        made = made;
        carried = applied;
        no_failure =
            numbers.failures
            ∙ zero_unless _ e
                (Applies-error env.fingerprint env.clients config_bytes concurrency p r e s applied)
                calm;
        numbers = numbers;
        safe =
            planned_requests-IsSafe f env now config config_bytes p visits made concurrency r e s
              applied;
      }
