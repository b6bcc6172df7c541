-- ===== src/Examples/Whole.antt =====
-- A run of the command `run` of internal/cli/root.go over the sample's engine.
use regbot.Base.{
  ℕ, [], some, none, Result, ok, ◌≡◌, refl, sym, ◌∙◌, subst, codes, pos, true, str_eq,
}
use regbot.Plan.{Plan}
use regbot.Engine.Planning.{PlanError}
use regbot.Engine.Apply.{Applies}
use regbot.Cli.{World, exit_code}
use regbot.Cli.Commands.{run_command, render_result, print, carry_out}
use regbot.Cli.Hooks.{deliver_hook_logged, deliver_hook}
use regbot.Cli.Whole.{IsEngine, IsCarriedOut, run_command-IsCarriedOut}
use regbot.Examples.Sample.{
  hundredths, sample_env, sample_now, sample_config, sample_bytes, sample_plan, in_order-VisitsAll,
}
use regbot.Examples.Planning.{sample_planned}
use regbot.Examples.Applying.{sample_end, sample_result, sample_applied}
use regbot.Examples.Commands.{world}

abbrev sample_world : World ℕ
sample_world = record (world true none) {
  load = ok sample_config;
  plan = λ h. ok sample_plan;
  apply = λ h p. (sample_result, none);
}

sample-IsEngine :
    IsEngine hundredths sample_env sample_now sample_config sample_bytes (pos 1) sample_world
sample-IsEngine = record {
  loads = refl;
  plans = sym sample_planned;
  applies = λ p made. (
    some sample_end,
    subst
        (λ q.
          Applies sample_env.fingerprint sample_env.clients sample_bytes (pos 1) q sample_result
            none (some sample_end))
        (same_plan (sym sample_planned ∙ made)) sample_applied,
  );
}
  where
    same_plan : {p q : Plan} → ◌≡◌ {A = Result PlanError Plan} (ok p) (ok q) → p ≡ q
    same_plan e = cc

exits_zero : exit_code (run_command sample_world (codes "json") []).0 ≡ 0
unfolding run_command carry_out render_result print deliver_hook_logged deliver_hook exit_code
    str_eq
exits_zero = refl

run_command-IsCarriedOut_example :
    IsCarriedOut hundredths sample_env sample_now sample_config sample_bytes (pos 1) sample_world
run_command-IsCarriedOut_example =
    run_command-IsCarriedOut hundredths sample_env sample_now sample_config sample_bytes (pos 1)
      sample_world in_order-VisitsAll (codes "json") sample-IsEngine refl exits_zero
