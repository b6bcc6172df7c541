-- ===== src/Examples/Commands.antt =====
-- Runs of the commands of internal/cli/root.go.
use regbot.Base.{
  Bool, true, false, ℕ, [], ◌∷◌, Option, some, none, ok, err, refl, ◌≡◌, any, codes, pos, str_eq,
}
use regbot.Plan.{Plan, ApplyResult}
use regbot.Config.Types.{Config}
use regbot.Engine.Apply.{ApplyError, partial_apply}
use regbot.Cli.{World, applied, planned, exit_code}
use regbot.Cli.Commands.{run_command, execute_scheduled_run, unsupported, is_format}
use regbot.Cli.Runs.{changes, dry_runs-changes, run_command-unsupported}
use regbot.Examples.Sample.{sample_config}

abbrev pub config : Bool → Config ℕ
config wet = record sample_config { apply = wet }

abbrev pub proposal : Plan
proposal = record {
  version = codes "v1";
  created_at = pos 1;
  expires_at = pos 2;
  config_fingerprint = [];
  actions = [];
  protected_count = 0;
  discovered_count = 0;
}

abbrev pub result : ApplyResult
result = record {
  version = codes "v1";
  started_at = pos 1;
  finished_at = pos 2;
  planned = 2;
  deleted = 1;
  skipped = pos 0;
  failed = 1;
  outcomes = [];
}

abbrev pub world : Bool → Option ApplyError → World ℕ
world wet apply_error = record {
  load = ok (config wet);
  validate = λ h. ok tt;
  plan = λ h. ok proposal;
  apply = λ h p. (result, apply_error);
  read_plan = λ path. ok proposal;
  write = λ h path p. none;
  print = λ h. none;
  environment = λ name. none;
  codec = record { marshal = λ v d f. []; sign = λ k s. []; malformed = λ url. none };
  post = λ h n. ok (200, []);
  now = λ h. pos 1;
}

dry_runs-changes_example :
    (any changes (run_command (world false none) (codes "table") []).1 ≡ false)
    × (any changes (execute_scheduled_run (world false none) (config false) []).1 ≡ false)
dry_runs-changes_example =
    dry_runs-changes (world false none) (config false) (codes "table") refl refl

xml_unknown : is_format (codes "xml") ≡ false
unfolding str_eq
xml_unknown = refl

run_command-unsupported_example :
    (run_command (world true (some partial_apply)) (codes "xml") []
      ≡ (err (unsupported (codes "xml")), applied proposal ∷ planned ∷ []))
    × (exit_code (run_command (world true (some partial_apply)) (codes "xml") []).0 ≡ 2)
run_command-unsupported_example =
    run_command-unsupported (world true (some partial_apply)) (config true) (codes "xml") proposal
      refl refl xml_unknown refl
