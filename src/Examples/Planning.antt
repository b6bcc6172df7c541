-- ===== src/Examples/Planning.antt =====
-- A run of `Engine.Plan` of internal/engine/engine.go.
use regbot.Base.{
  ℕ, ◌+◌, ok, pos, arith, ◌≡◌, refl, codes, here, length, ◌+ℤ◌, ◌-ℤ◌, str_eq, str_lt, slice_stable,
}
use regbot.Provider.{sub_time}
use regbot.Policy.Order.{has_multiple_apps, protected_tag, artifact_age, newer}
use regbot.Policy.Judge.{judge}
use regbot.Policy.Evaluate.{judge_ranked, visit_group, visit_groups, evaluate}
use regbot.Policy.Types.{reason_code}
use regbot.Policy.Calendar.{parse_calendar}
use regbot.Config.Rules.{compile_all, rule_of}
use regbot.Engine.Parsing.{parse_tag, parse_artifact, pattern_allows}
use regbot.Engine.Safety.{percent, validate_limit}
use regbot.Engine.State.{artifact_key, consider, consider_all}
use regbot.Engine.Planning.{plan_artifacts, make_plan}
use regbot.Engine.Planning.Trace.{Batch, IsBatch}
use regbot.Engine.Planning.Unanimous.{Agrees, make_plan-unanimous}
use regbot.Engine.Planning.Limits.{KeepsLimits, make_plan-KeepsLimits}
use regbot.Engine.Planning.Numbers.{make_plan-counts}
use regbot.Engine.Planning.Exact.{IsExact, make_plan-IsExact}
use regbot.Examples.Rounding.{hundredths-IsRounded}
use regbot.Examples.Sample.{
  hundredths, sample_target, sample_policy, sample_env, sample_now, sample_config, sample_bytes,
  sample_plan, sample_action, in_order-VisitsAll,
}

program : Unit {0}
unfolding make_plan plan_artifacts evaluate judge_ranked visit_group visit_groups judge
    protected_tag has_multiple_apps artifact_age newer sub_time reason_code compile_all rule_of
    parse_tag parse_artifact pattern_allows percent validate_limit artifact_key consider
    consider_all parse_calendar slice_stable ◌+ℤ◌ ◌-ℤ◌ str_eq str_lt
program = tt

pub sample_planned :
    make_plan hundredths sample_env sample_now sample_config sample_bytes ≡ ok sample_plan
unfolding program
sample_planned = refl

make_plan-unanimous_example :
    (b : Batch ℕ) × IsBatch hundredths sample_env sample_now sample_config b
    × (b.policy_name ≡ codes "old")
    × (b.target ≡ sample_target)
    × Agrees hundredths sample_env sample_now sample_config b sample_action
unfolding str_eq
make_plan-unanimous_example =
    make_plan-unanimous hundredths sample_env sample_now sample_config in_order-VisitsAll
      sample_bytes sample_plan sample_planned sample_action (here refl) (codes "old") sample_policy
      sample_target refl (here refl)

make_plan-KeepsLimits_example :
    (b : Batch ℕ) × IsBatch hundredths sample_env sample_now sample_config b
    × (b.policy_name ≡ codes "old")
    × (b.target ≡ sample_target)
    × KeepsLimits hundredths sample_env sample_now sample_config (pos 1) 6000 b
unfolding str_eq
make_plan-KeepsLimits_example =
    make_plan-KeepsLimits hundredths sample_env sample_now sample_config hundredths-IsRounded
      in_order-VisitsAll sample_bytes sample_plan sample_planned (codes "old") sample_policy
      sample_target refl (here refl) 6000 (omega arith) refl

make_plan-counts_example :
    sample_plan.discovered_count ≡ sample_plan.protected_count + length sample_plan.actions
make_plan-counts_example =
    make_plan-counts hundredths sample_env sample_now sample_config in_order-VisitsAll sample_bytes
      sample_plan sample_planned

make_plan-IsExact_example : IsExact hundredths sample_env sample_now sample_config sample_plan
make_plan-IsExact_example =
    make_plan-IsExact hundredths sample_env sample_now sample_config in_order-VisitsAll sample_bytes
      sample_plan sample_planned
