-- ===== src/Cli/Commands.antt =====
-- The bodies of the commands of internal/cli/root.go.
use regbot.Base.{
  Bool, true, false, not, ◌||◌, ℕ, List, [], ◌∷◌, ◌++◌, Str, Option, none, some, Result, ok, err,
  codes, str_eq, str_mem, is_empty, if◌then◌else◌, length, pos, trim_space,
}
use regbot.Provider.{Time}
use regbot.Plan.{Plan, ApplyResult, ActionOutcome, deleted, skipped, failed, format_version}
use regbot.Config.Types.{Config}
use regbot.Engine.Apply.{ApplyError}
use regbot.Engine.Planning.{PlanError}
use regbot.Cli.{
  Event, validated, planned, applied, wrote, printed_plan, printed_result, logged_failure,
  CommandError, invalid, planning, applying, unready, other, World, Command, ◌>>=◌, ◌>>◌, give,
  fail, emit, ask, lift, refuse,
}
use regbot.Cli.Hooks.{deliver_hook_logged}
use regbot.Scheduler.{RunSummary}

abbrev pub is_format : Str → Bool
is_format format = str_eq format (codes "table") || str_eq format (codes "json")

-- The error of `renderPlan` and `renderResult`, without the quotation marks.
abbrev pub unsupported : Str → CommandError
unsupported format = invalid (codes "unsupported output format " ++ format)

-- `strconv.ParseBool`
abbrev pub parse_bool : Str → Option Bool
parse_bool s =
    if str_mem s
      (codes "1" ∷ codes "t" ∷ codes "T" ∷ codes "TRUE" ∷ codes "true" ∷ codes "True" ∷ [])
    then some true
    else if str_mem s
        (codes "0" ∷ codes "f" ∷ codes "F" ∷ codes "FALSE" ∷ codes "false" ∷ codes "False" ∷ [])
    then some false
    else none

abbrev parsed_start : Option Bool → Result CommandError Bool
parsed_start (some b) = ok b
parsed_start none = err (invalid (codes "REGBOT_SCHEDULER_RUN_ON_START must be a boolean"))

-- `schedulerRunOnStart`, on what the variable holds.
unfoldable pub scheduler_run_on_start : Option Str → Bool → Result CommandError Bool
scheduler_run_on_start none configured = ok configured
scheduler_run_on_start (some value) configured = parsed_start (parse_bool (trim_space value))

-- The warnings of the scheduled run.
abbrev pub log_failures : List ActionOutcome → Command (Unit {0})
log_failures [] = give tt
log_failures (o ∷ os) =
    let rest = log_failures os in
    elim o.status [ deleted ↦ rest | skipped ↦ rest | failed ↦ (emit (logged_failure o) >> rest) ]

module _ {F : Type 0} (world : World F) where
  abbrev pub load : Command (Config F)
  load = lift invalid world.load

  abbrev pub call_plan : Command Plan
  call_plan = ask world.plan >>= λ r. emit planned >> lift planning r

  abbrev pub call_apply : Plan → Command (ApplyResult × Option ApplyError)
  call_apply proposal = ask (λ h. world.apply h proposal) >>= λ r. emit (applied proposal) >> give r

  abbrev pub call_validate : Command (Unit {0})
  call_validate = ask world.validate >>= λ r. emit validated >> lift unready r

  unfoldable pub print : Str → Event → Command (Unit {0})
  print format event =
      let write = emit event >> (ask world.print >>= refuse other) in
      if is_format format then write else fail (unsupported format)

  unfoldable pub render_plan : Str → Plan → Command (Unit {0})
  unfolding print
  render_plan format proposal = print format (printed_plan format proposal)

  unfoldable pub render_result : Str → ApplyResult → Command (Unit {0})
  unfolding print
  render_result format result = print format (printed_result format result)

  unfoldable pub write_plan : Str → Plan → Command (Unit {0})
  write_plan path proposal =
      let write = ask (λ h. world.write h path proposal) >>= λ e.
      emit (wrote path proposal) >> refuse other e in
      if is_empty path then give tt else write

  unfoldable pub validate_command : Command (Unit {0})
  validate_command = load >>= λ config. call_validate

  unfoldable pub plan_command : Str → Str → Command (Unit {0})
  plan_command out_path format = do
    config ← load
    proposal ← call_plan
    write_plan out_path proposal
    render_plan format proposal

  -- What `apply` and `run` do with a plan.
  unfoldable pub carry_out : Config F → Str → Plan → Command (Unit {0})
  carry_out config format proposal = do
    answer ← call_apply proposal
    render_result format answer.0
    deliver_hook_logged world config answer.0
    refuse applying answer.1

  unfoldable pub apply_command : Str → Str → Command (Unit {0})
  unfolding carry_out
  apply_command plan_path format =
      let go =
        load >>= λ config. lift invalid (world.read_plan plan_path) >>= carry_out config format in
      if is_empty plan_path then fail (invalid (codes "--plan is required")) else go

  unfoldable pub run_command : Str → Command (Unit {0})
  unfolding carry_out
  run_command format = do
    config ← load
    proposal ← call_plan
    if not config.apply then render_plan format proposal else carry_out config format proposal

  abbrev no_result : Time → Time → ℕ → ApplyResult
  no_result started finished count = record {
    version = format_version;
    started_at = started;
    finished_at = finished;
    planned = count;
    deleted = 0;
    skipped = pos 0;
    failed = 0;
    outcomes = [];
  }

  abbrev summary_of : Bool → Plan → ApplyResult → RunSummary
  summary_of dry_run proposal result = record {
    result = result;
    dry_run = dry_run;
    discovered = proposal.discovered_count;
    protected = proposal.protected_count;
  }

  abbrev pub carry_out_scheduled : Config F → Plan → Command (RunSummary × Option CommandError)
  carry_out_scheduled config proposal = do
    answer ← call_apply proposal
    log_failures answer.0.outcomes
    deliver_hook_logged world config answer.0
    give (summary_of false proposal answer.0, applying_error answer.1)
    where
      applying_error : Option ApplyError → Option CommandError
      applying_error none = none
      applying_error (some e) = some (applying e)

  -- `executeScheduledRun`, which returns its error with a summary.
  unfoldable pub execute_scheduled_run : Config F → Command (RunSummary × Option CommandError)
  execute_scheduled_run config = do
    started ← ask world.now
    answer ← ask world.plan
    emit planned
    finished ← ask world.now
    scheduled started finished answer
    where
      scheduled : Time → Time → Result PlanError Plan → Command (RunSummary × Option CommandError)
      scheduled started finished (err e) = give (
        record {
          result = no_result started finished 0;
          dry_run = not config.apply;
          discovered = 0;
          protected = 0;
        },
        some (planning e),
      )
      scheduled started finished (ok proposal) =
          if not config.apply
          then give (
            summary_of true proposal (no_result started finished (length proposal.actions)),
            none,
          )
          else carry_out_scheduled config proposal
