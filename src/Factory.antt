-- ===== src/Factory.antt =====
-- `Providers` of internal/factory/factory.go. The secrets, the constructors of the two clients and the
-- order in which Go visits the registries are given.
pub mod Clients
use regbot.Base.{
  Bool, true, false, ℕ, ◌*◌, ◌^◌, List, [], ◌∷◌, Str, Result, ok, err, codes, str_eq, if◌then◌else◌,
  pos, ◌>>=◌, wrap,
}
use regbot.Provider.{Duration, is_zero}
use regbot.Config.Types.{Registry}
use regbot.Config.Secrets.{SecretError}

pub data FactoryError : Type 0 where
  no_username no_password no_token : Str → SecretError → FactoryError
  bad_client : Str → FactoryError
  unsupported : Str → FactoryError

-- `C` is a client. `oci` takes the name, the configuration, the user name, the password and the timeout,
-- `github` the name, the configuration, the token and the timeout; the error is a text.
pub record Constructors (C : Type 0) : Type 0 where
  pub secret_of : Str → Str → Result SecretError Str
  pub oci : Str → Registry → Str → Str → Duration → Result Str C
  pub github : Str → Registry → Str → Duration → Result Str C

abbrev pub timeout_of : Registry → Duration
timeout_of r = if is_zero r.timeout then pos (30 * 10 ^ 9) else r.timeout

module _ {C : Type 0} (make : Constructors C) where
  unfoldable pub oci_client : Str → Registry → Result FactoryError C
  oci_client name r = do
    username ←
        wrap (no_username name)
          (make.secret_of r.credentials.username_env r.credentials.username_file)
    password ←
        wrap (no_password name)
          (make.secret_of r.credentials.password_env r.credentials.password_file)
    wrap bad_client (make.oci name r username password (timeout_of r))

  unfoldable pub github_client : Str → Registry → Result FactoryError C
  github_client name r = do
    token ← wrap (no_token name) (make.secret_of r.token_env r.token_file)
    wrap bad_client (make.github name r token (timeout_of r))

  unfoldable pub provider_of : Str → Registry → Result FactoryError C
  provider_of name r =
      if str_eq r.provider (codes "oci")
      then oci_client name r
      else if str_eq r.provider (codes "github")
      then github_client name r
      else err (unsupported r.provider)

  -- The loop over the registries, onto the clients so far.
  unfoldable pub providers :
      List (Str × Registry) → List (Str × C) → Result FactoryError (List (Str × C))
  providers [] result = ok result
  providers ((name, r) ∷ rest) result =
      provider_of name r >>= λ client. providers rest ((name, client) ∷ result)
