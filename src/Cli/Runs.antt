-- ===== src/Cli/Runs.antt =====
-- What `run` and a scheduled run of internal/cli/root.go do, and when they succeed.
use regbot.Base.{
  Bool, true, false, not, [], ◌∷◌, Str, Option, none, some, Result, ok, err, any, if◌then◌else◌,
  ◌≡◌, refl, ap, sym, ◌∙◌, Bool-cases, inl, inr,
}
use regbot.Plan.{Plan, ApplyResult}
use regbot.Config.Types.{Config}
use regbot.Engine.Planning.{PlanError}
use regbot.Cli.{
  Event, validated, planned, applied, wrote, printed_plan, printed_result, posted, logged_failure,
  logged_hook, announced, served, started_scheduler, Trace, CommandError, planning, applying, World,
  Command, continue, lift, refuse, exit_code, other, >>=-eq-ok, exit_code-zero,
}
use regbot.Cli.Hooks.{deliver_hook_logged}
use regbot.Cli.Commands.{
  is_format, unsupported, print, render_plan, render_result, carry_out, run_command,
  execute_scheduled_run,
}

-- Deletions and the hook that tells of them.
abbrev pub changes : Event → Bool
changes validated = false
changes planned = false
changes (applied p) = true
changes (wrote path p) = false
changes (printed_plan format p) = false
changes (printed_result format r) = false
changes (posted n) = true
changes (logged_failure o) = false
changes (logged_hook e) = false
changes (announced address) = false
changes (served address token) = false
changes (started_scheduler settings) = false

unless_dry :
    (b : Bool) (m n : Command (Unit {0})) (h : Trace) → b ≡ true → (if not b then m else n) h ≡ n h
unless_dry true m n h e = refl
unless_dry false m n h e = cc

module _ {F : Type 0} (world : World F) where
  written : (o : Option Str) (h : Trace) → (refuse other o h).1 ≡ h
  written none h = refl
  written (some e) h = refl

  render_plan-changes :
      (format : Str) (p : Plan) (h : Trace)
      → any changes (render_plan world format p h).1 ≡ any changes h
  unfolding render_plan print
  render_plan-changes format p h = elim (Bool-cases (is_format format)) [
    | inl e ↦ rw e (ap (any changes) (written (world.print (printed_plan format p ∷ h)) _))
    | inr e ↦ rw e refl
  ]

  ran : Config F → Str → Result PlanError Plan → Result CommandError (Unit {0}) × Trace
  ran config format r = continue (lift planning r (planned ∷ [])) (λ proposal.
      if not config.apply
      then render_plan world format proposal
      else carry_out world config format proposal)

  run_command-ran :
      (config : Config F) (format : Str)
      → world.load ≡ ok config
      → run_command world format [] ≡ ran config format (world.plan [])
  unfolding run_command ran
  run_command-ran config format e = rw e refl

  -- While the configuration does not allow it, neither `run` nor a scheduled run deletes anything or calls
  -- the hook, whatever the plan and the output.
  pub dry_runs-changes :
      (config : Config F) (format : Str)
      → world.load ≡ ok config
      → config.apply ≡ false
      → (any changes (run_command world format []).1 ≡ false)
        × (any changes (execute_scheduled_run world config []).1 ≡ false)
  unfolding ran execute_scheduled_run
  dry_runs-changes config format loaded dry = (
    rw (run_command-ran config format loaded) (quiet (world.plan [])),
    scheduled (world.plan []) refl,
  )
    where
      quiet : (r : Result PlanError Plan) → any changes (ran config format r).1 ≡ false
      quiet (err e) = refl
      quiet (ok p) = rw dry (render_plan-changes format p (planned ∷ []))

      scheduled :
          (r : Result PlanError Plan)
          → world.plan [] ≡ r
          → any changes (execute_scheduled_run world config []).1 ≡ false
      scheduled (err e) eq = rw eq refl
      scheduled (ok p) eq = rw (eq, dry) refl

  -- With an output format that there is not, `run` carries its plan out, and then ends with exit code 2,
  -- whatever came of it: the result is not printed, and the hook is not called.
  pub run_command-unsupported :
      (config : Config F) (format : Str) (proposal : Plan)
      → world.load ≡ ok config
      → config.apply ≡ true
      → is_format format ≡ false
      → world.plan [] ≡ ok proposal
      → (run_command world format [] ≡ (err (unsupported format), applied proposal ∷ planned ∷ []))
        × (exit_code (run_command world format []).0 ≡ 2)
  unfolding ran carry_out render_result print exit_code
  run_command-unsupported config format proposal loaded wet bad plans =
      rw (run_command-ran config format loaded, plans, wet) (rw bad (refl, refl))

  refuse-eq-ok :
      {E : Type 0} (g : E → CommandError) (o : Option E) (h h' : Trace)
      → refuse g o h ≡ (ok tt, h')
      → o ≡ none
  refuse-eq-ok g none h h' e = refl
  refuse-eq-ok g (some x) h h' e = cc

  is_printed :
      (format : Str) (r : ApplyResult) (h h' : Trace)
      → render_result world format r h ≡ (ok tt, h')
      → is_format format ≡ true
  unfolding render_result print
  is_printed format r h h' e = elim (Bool-cases (is_format format)) [
    | inl x ↦ x
    | inr x ↦ absurd (clash (rw x at e))
  ]
    where
      clash :
          ◌≡◌ {A = Result CommandError (Unit {0}) × Trace} (err (unsupported format), h) (ok tt, h')
          → ⊥
      clash e = cc

  carried :
      (config : Config F) (format : Str) (p : Plan) (h h' : Trace)
      → carry_out world config format p h ≡ (ok tt, h')
      → ((world.apply h p).1 ≡ none) × (is_format format ≡ true)
  unfolding carry_out
  carried config format p h h' e =
      let answer = world.apply h p in
      let (u, h1, shown, e1) =
        >>=-eq-ok (render_result world format answer.0 (applied p ∷ h)) _ e in
      let (v, h2, told, e2) = >>=-eq-ok (deliver_hook_logged world config answer.0 h1) _ e1 in
      (refuse-eq-ok applying answer.1 h2 h' e2, is_printed format answer.0 (applied p ∷ h) h1 shown)

  -- When `run` exits with 0 and the configuration allows deletions, there was a plan, and carrying it out
  -- ended without an error.
  pub run_command-succeeds :
      (config : Config F) (format : Str)
      → world.load ≡ ok config
      → config.apply ≡ true
      → exit_code (run_command world format []).0 ≡ 0
      → (proposal : Plan) × (world.plan [] ≡ ok proposal)
        × ((world.apply (planned ∷ []) proposal).1 ≡ none)
        × (is_format format ≡ true)
  unfolding ran
  run_command-succeeds config format loaded wet zero_code =
      planned_ok (world.plan []) refl
        (ap (λ r. (r, (ran config format (world.plan [])).1)) succeeded)
    where
      succeeded : (ran config format (world.plan [])).0 ≡ ok tt
      succeeded = exit_code-zero _ (rw (run_command-ran config format loaded) at zero_code)

      planned_ok :
          (r : Result PlanError Plan) {h' : Trace}
          → world.plan [] ≡ r
          → ran config format r ≡ (ok tt, h')
          → (proposal : Plan) × (world.plan [] ≡ ok proposal)
            × ((world.apply (planned ∷ []) proposal).1 ≡ none)
            × (is_format format ≡ true)
      planned_ok (err x) plans e = cc
      planned_ok (ok p) plans e =
          let (calm, printed) = carried config format p (planned ∷ []) _ (
            sym (unless_dry config.apply _ (carry_out world config format p) (planned ∷ []) wet)
            ∙ e) in
          (p, plans, calm, printed)
