-- ===== src/Examples/Services.antt =====
-- Runs of the servers of internal/server/server.go and internal/scheduler/scheduler.go, and of the
-- command `serve` of internal/cli/root.go.
use regbot.Base.{
  true, false, [], ◌++◌, Str, some, none, ok, refl, ◌≡◌, ◌⊎◌, codes, str_eq, In, here, is_empty,
}
use regbot.Server.{validate_binding, authorized, bearer}
use regbot.Cli.{served}
use regbot.Cli.Services.{Services, serve_command, listen_and_serve}
use regbot.Cli.Services.Guarded.{is_local, serve_command-guarded}
use regbot.Config.Secrets.{secret}
use regbot.Examples.Commands.{world}
use regbot.Server.Serving as Port
use regbot.Server.Serving.{returns_early}
use regbot.Scheduler.Serving.{
  Serving, returned, Steps, start, then_step, goes_on, context_ends, loop_ends, on_context,
  on_shutdown, on_loop, Steps-settled,
}

-- An address is its host, and the file holds the token.
abbrev services : Services
services = record {
  read = λ file. some (codes "key");
  trim = λ s. s;
  host_of = λ address. some address;
  is_loopback = λ host. false;
  load_location = λ name. ok name;
  serve = λ h. none;
  schedule = λ h. none;
}

abbrev address : Str
address = codes "10.0.0.1"

is_served :
    In
      (served address (codes "key"))
      (serve_command (world true none) services address [] (codes "token") []).1
unfolding serve_command listen_and_serve validate_binding secret
is_served = here refl

is_allowed : authorized (codes "Bearer key") (codes "key") ≡ true
unfolding authorized str_eq
is_allowed = refl

serve_command-guarded_example :
    (host : Str) × (services.host_of address ≡ some host)
    × (((codes "Bearer key" ≡ bearer ++ codes "key") × (is_empty (codes "key") ≡ false))
        ⊎ (is_local services host ≡ true))
serve_command-guarded_example =
    serve_command-guarded (world true none) services address [] (codes "token") (codes "key")
      (codes "Bearer key") is_served is_allowed

returns_early_example :
    (s : Port.Serving) × Port.Steps Port.at_start s
    × (s.phase ≡ Port.returned none)
    × (s.ended ≡ true)
    × (s.watch ≡ Port.shutting)
    × (s.active ≡ 2)
returns_early_example = returns_early 2

-- The context has ended and the last run too.
abbrev settled : Serving
settled = record {
  phase = returned none;
  ended = true;
  cancelled = true;
  loop_done = true;
  server = none;
}

settles : Steps settled
settles =
    then_step
      (then_step
        (then_step (then_step (then_step start context_ends) (goes_on (on_context refl refl)))
          (loop_ends refl))
        (goes_on (on_shutdown none refl)))
      (goes_on (on_loop none refl refl))

Steps-settled_example : (settled.loop_done ≡ true) × (settled.cancelled ≡ true)
Steps-settled_example = Steps-settled settled settles refl
