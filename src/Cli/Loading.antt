-- ===== src/Cli/Loading.antt =====
-- `load` and the body of `healthcheck` in internal/cli/root.go.
use regbot.Base.{
  Bool, false, not, ◌&&◌, ◌||◌, ℕ, List, [], ◌++◌, Str, Result, ok, err, codes, str_eq, is_empty,
  ltb, leb, wrap, refuse_if, ◌>>=◌, ◌>>◌,
}
use regbot.Config.Types.{Config}
use regbot.Config.Load.{LoadError}
use regbot.Factory.{Constructors, FactoryError, providers}
use regbot.Cli.{CommandError, invalid, other}

pub data StartError : Type 0 where
  no_config : LoadError → StartError
  no_providers : FactoryError → StartError
  bad_level bad_format : Str → StartError

-- The engine that a command runs: its configuration with the bytes, and the clients.
pub record Loaded (F : Type 0) (C : Type 0) : Type 0 where
  pub config : Config F
  pub bytes : Str
  pub clients : List (Str × C)

-- `is_level` is whether `slog.Level` reads a text.
unfoldable pub load_engine :
    {F C : Type 0}
    → Result LoadError (Config F × Str)
    → Constructors C
    → (Str → Bool)
    → Str
    → Str
    → Result StartError (Loaded F C)
load_engine read make is_level level format = do
  answer ← wrap no_config read
  clients ← wrap no_providers (providers make answer.0.registries [])
  refuse_if (not (is_level level)) (bad_level level)
  refuse_if (not (str_eq format (codes "text") || str_eq format (codes "json"))) (bad_format format)
  ok (record { config = answer.0; bytes = answer.1; clients = clients })

-- What `url.Parse` makes of the endpoint; the error text below leaves the endpoint out.
pub record Endpoint : Type 0 where
  pub scheme : Str
  pub host : Str

abbrev pub is_endpoint : Result Str Endpoint → Bool
is_endpoint (err e) = false
is_endpoint (ok u) =
    (str_eq u.scheme (codes "http") || str_eq u.scheme (codes "https")) && not (is_empty u.host)

-- The answer is the number and the text of its status.
unfoldable pub healthcheck :
    Result Str Endpoint → Result Str (ℕ × Str) → Result CommandError (Unit {0})
healthcheck endpoint answer = do
  refuse_if (not (is_endpoint endpoint)) (invalid (codes "invalid healthcheck URL"))
  response ← wrap (λ e. other (codes "healthcheck failed: " ++ e)) answer
  refuse_if (ltb response.0 200 || leb 300 response.0)
      (other (codes "healthcheck returned " ++ response.1))
  ok tt
