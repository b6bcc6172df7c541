-- ===== src/Engine/Preflight.antt =====
-- `Engine.Validate` of internal/engine/engine.go, on the providers in the order in which Go visits them.
pub mod Ready
use regbot.Base.{List, [], ◌∷◌, Str, Result, ok, not, ◌>>=◌, ◌>>◌, wrap, refuse_if}
use regbot.Provider.{Client, ProviderError}

pub data PreflightError : Type 0 where
  unreachable : Str → ProviderError → PreflightError
  cannot_delete : Str → PreflightError

unfoldable pub validate_clients : List (Str × Client) → Result PreflightError (Unit {0})
validate_clients [] = ok tt
validate_clients ((name, client) ∷ rest) = do
  capabilities ← wrap (unreachable name) client.preflight
  refuse_if (not capabilities.delete) (cannot_delete name)
  validate_clients rest
