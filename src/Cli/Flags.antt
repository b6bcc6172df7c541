-- ===== src/Cli/Flags.antt =====
-- The commands that `New` of internal/cli/root.go adds, and their flags. Cobra, which reads them, is not
-- modelled.
use regbot.Base.{List, [], ◌∷◌, Str, codes, Option, none, some, pos, ◌*◌, ◌^◌}
use regbot.Provider.{Duration}

-- What a flag holds where it is not given.
pub data Default : Type 0 where
  text : Str → Default
  time_span : Duration → Default

pub record Flag : Type 0 where
  pub name : Str
  pub shorthand : Option Str
  pub initial : Default
  pub usage : Str

-- `exclusive` are the flags of which at most one may be given.
pub record CommandLine : Type 0 where
  pub name : Str
  pub short : Str
  pub flags : List Flag
  pub exclusive : List Str

abbrev text_flag : Str → Str → Str → Flag
text_flag name initial usage = record {
  name = name;
  shorthand = none;
  initial = text initial;
  usage = usage;
}

abbrev output_flag : Flag
output_flag = text_flag (codes "output") (codes "table") (codes "output format: table or json")

abbrev pub persistent_flags : List Flag
persistent_flags =
    record {
      name = codes "config";
      shorthand = some (codes "c");
      initial = text (codes "regbot.yaml");
      usage = codes "configuration file";
    }
    ∷ text_flag (codes "log-format") (codes "text") (codes "log format: text or json")
    ∷ text_flag (codes "log-level") (codes "info") (codes "log level")
    ∷ []

abbrev pub validate_line : CommandLine
validate_line = record {
  name = codes "validate";
  short = codes "Validate configuration and provider connectivity";
  flags = [];
  exclusive = [];
}

abbrev pub plan_line : CommandLine
plan_line = record {
  name = codes "plan";
  short = codes "Discover artifacts and create a deletion plan";
  flags = output_flag ∷ text_flag (codes "out") [] (codes "write the JSON plan to a file") ∷ [];
  exclusive = [];
}

abbrev pub apply_line : CommandLine
apply_line = record {
  name = codes "apply";
  short = codes "Apply an immutable deletion plan";
  flags = text_flag (codes "plan") [] (codes "JSON plan file") ∷ output_flag ∷ [];
  exclusive = [];
}

abbrev pub run_line : CommandLine
run_line = record {
  name = codes "run";
  short = codes "Plan and optionally apply in one invocation";
  flags = output_flag ∷ [];
  exclusive = [];
}

abbrev pub serve_line : CommandLine
serve_line = record {
  name = codes "serve";
  short = codes "Expose health, metrics, and an HTTP run endpoint";
  flags =
      text_flag (codes "listen") (codes "127.0.0.1:8080") (codes "HTTP listen address")
      ∷ text_flag (codes "run-token-env") []
          (codes "environment variable containing the /run bearer token")
      ∷ text_flag (codes "run-token-file") [] (codes "file containing the /run bearer token")
      ∷ [];
  exclusive = codes "run-token-env" ∷ codes "run-token-file" ∷ [];
}

abbrev pub scheduler_line : CommandLine
scheduler_line = record {
  name = codes "scheduler";
  short = codes "Run retention policies on an internal cron schedule";
  flags =
      text_flag (codes "listen") (codes "127.0.0.1:8080")
        (codes "health and metrics listen address")
      ∷ [];
  exclusive = [];
}

abbrev pub healthcheck_line : CommandLine
healthcheck_line = record {
  name = codes "healthcheck";
  short = codes "Check a running Regbot HTTP endpoint";
  flags =
      text_flag (codes "url") (codes "http://127.0.0.1:8080/healthz") (codes "health endpoint URL")
      ∷ record {
        name = codes "timeout";
        shorthand = none;
        initial = time_span (pos (5 * 10 ^ 9));
        usage = codes "request timeout";
      }
      ∷ [];
  exclusive = [];
}

abbrev pub version_of_build : CommandLine
version_of_build = record {
  name = codes "version";
  short = codes "Print build information";
  flags = [];
  exclusive = [];
}

abbrev pub command_lines : List CommandLine
command_lines =
    validate_line ∷ plan_line ∷ apply_line ∷ run_line ∷ serve_line ∷ scheduler_line
    ∷ healthcheck_line ∷ version_of_build ∷ []
