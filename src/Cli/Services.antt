-- ===== src/Cli/Services.antt =====
-- The bodies of `serve`, `scheduler` and `version` in internal/cli/root.go.
pub mod Guarded
use regbot.Base.{
  Bool, not, ◌∷◌, [], ◌++◌, Str, Option, none, some, Result, ok, err, codes, if◌then◌else◌,
}
use regbot.Config.Types.{Config, Schedule}
use regbot.Config.Secrets.{SecretError, not_set, unreadable, secret}
use regbot.Server.{BindingError, bad_address, token_required, validate_binding}
use regbot.Scheduler.Settings.{Settings}
use regbot.Cli.{
  announced, served, started_scheduler, World, Trace, Command, CommandError, invalid, other, ◌>>=◌,
  ◌>>◌, give, fail, emit, ask, lift, refuse,
}
use regbot.Cli.Commands.{load, call_validate, scheduler_run_on_start}

-- What the two commands use besides: files, `bytes.TrimSpace`, the host of an address, whether a host is
-- the text of a loopback address, the name of the location of `time.LoadLocation`, and how the HTTP server and the scheduler end.
pub record Services : Type 0 where
  pub read : Str → Option Str
  pub trim : Str → Str
  pub host_of : Str → Option Str
  pub is_loopback : Str → Bool
  pub load_location : Str → Result Str Str
  pub serve : Trace → Option Str
  pub schedule : Trace → Option Str

-- The text of a file system's error is left out, here and in `binding_text` that of an address.
abbrev secret_text : SecretError → Str
secret_text (not_set name) = codes "environment variable " ++ (name ++ codes " is not set")
secret_text (unreadable file) = codes "open " ++ file

abbrev binding_text : BindingError → Str
binding_text bad_address = codes "invalid listen address"
binding_text token_required =
    codes "a run bearer token is required when listening on a non-loopback address"

abbrev pub configured_schedule : Option Schedule → Result Str Schedule
configured_schedule none = err (codes "schedule configuration is required for scheduler")
configured_schedule (some s) = ok s

module _ {F : Type 0} (world : World F) (services : Services) where
  -- `ListenAndServe` of the server.
  unfoldable pub listen_and_serve : Str → Str → Command (Unit {0})
  listen_and_serve address token =
      (lift (λ e. other (binding_text e))
          (validate_binding services.host_of services.is_loopback address token)
        >> emit (served address token))
      >> (ask services.serve >>= refuse other)

  unfoldable pub serve_command : Str → Str → Str → Command (Unit {0})
  unfolding listen_and_serve
  serve_command address token_env token_file = do
    config ← load world
    call_validate world
    token ←
        lift (λ e. invalid (secret_text e))
          (secret world.environment services.read services.trim token_env token_file)
    emit (announced address)
    listen_and_serve address token

  unfoldable pub scheduler_command : Str → Command (Unit {0})
  scheduler_command address = do
    config ← load world
    configured ← lift invalid (configured_schedule config.schedule)
    call_validate world
    location ←
        lift (λ e. invalid (codes "load schedule timezone: " ++ e))
          (services.load_location configured.timezone)
    run_on_start ←
        lift (λ e. e)
          (scheduler_run_on_start (world.environment (codes "REGBOT_SCHEDULER_RUN_ON_START"))
            configured.run_on_start)
    emit (
        started_scheduler (record {
          address = address;
          expression = configured.cron;
          location = location;
          run_on_start = run_on_start;
          timeout = configured.timeout;
        }))
    ask services.schedule >>= refuse other

-- The line that `version` prints, without its end.
unfoldable pub version_line : Str → Str → Str → Str
version_line version commit date =
    codes "regbot "
    ++ (version ++ (codes " (commit=" ++ (commit ++ (codes ", built=" ++ (date ++ codes ")")))))
