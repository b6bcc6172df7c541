-- ===== src/Examples/Configured.antt =====
-- A configuration that `Config.Validate` of internal/config/config.go accepts.
use regbot.Base.{
  str_eq, true, false, ℕ, [], ◌∷◌, Str, Option, none, some, ok, refl, ◌≡◌, codes, pos, here,
}
use regbot.Policy.Types.{Regexp}
use regbot.Config.Types.{Config, Registry}
use regbot.Config.Validate.{validate, policy_errors, registry_errors, parser_errors}
use regbot.Config.Valid.{IsUsable, validate-IsUsable}
use regbot.Engine.Planning.{find}
use regbot.Factory.{Constructors, providers, provider_of, oci_client}
use regbot.Factory.Clients.{providers-find}
use regbot.Examples.Sample.{hundredths, sample_target, sample_config, sample_policy}

abbrev hub_registry : Registry
hub_registry = record {
  provider = codes "oci";
  endpoint = codes "https://hub";
  owner = [];
  owner_type = [];
  token_env = [];
  token_file = [];
  repositories = [];
  credentials = record {
    username_env = [];
    username_file = [];
    password_env = [];
    password_file = [];
  };
  tls = record { ca_file = []; insecure_skip_verify = false };
  timeout = pos 0;
}

abbrev config : Config ℕ
config = record sample_config { registries = (codes "hub", hub_registry) ∷ [] }

abbrev no_regexp : Str → Option Regexp
no_regexp expression = none

accepted : validate hundredths no_regexp (λ s. true) (λ s. true) config ≡ []
unfolding str_eq validate policy_errors registry_errors parser_errors
accepted = refl

validate-IsUsable_example :
    IsUsable hundredths no_regexp (codes "hub" ∷ []) (codes "old") sample_policy
validate-IsUsable_example =
    validate-IsUsable hundredths no_regexp (λ s. true) (λ s. true) config (codes "old")
      sample_policy accepted (here refl)

-- Clients that are the names of their registries.
abbrev make : Constructors Str
make = record {
  secret_of = λ name file. ok [];
  oci = λ name r user password timeout. ok name;
  github = λ name r token timeout. ok name;
}

made : providers make config.registries [] ≡ ok ((codes "hub", codes "hub") ∷ [])
unfolding providers provider_of oci_client str_eq
made = refl

providers-find_example :
    (client : Str) × (find (codes "hub") ((codes "hub", codes "hub") ∷ []) ≡ some client)
providers-find_example =
    providers-find make hundredths no_regexp (λ s. true) (λ s. true) config
      ((codes "hub", codes "hub") ∷ []) (codes "old") sample_policy sample_target accepted made
      (here refl) (here refl)
