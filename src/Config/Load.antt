-- ===== src/Config/Load.antt =====
-- `Load` of internal/config/config.go. What the file holds, and the YAML decoder, are given.
use regbot.Base.{List, [], ◌∷◌, Str, Result, ok, err, wrap, ◌>>=◌, ◌>>◌}
use regbot.Config.Types.{Config}
use regbot.Config.Validate.{ConfigError}

pub data LoadError : Type 0 where
  unreadable undecodable : Str → LoadError
  invalid : List ConfigError → LoadError

abbrev pub accept : List ConfigError → Result LoadError (Unit {0})
accept [] = ok tt
accept (e ∷ es) = err (invalid (e ∷ es))

-- `check` is `Config.Validate`; the bytes are returned with the configuration.
unfoldable pub load :
    {F : Type 0}
    → Result Str Str
    → (Str → Result Str (Config F))
    → (Config F → List ConfigError)
    → Result LoadError (Config F × Str)
load file decode check = do
  bytes ← wrap unreadable file
  config ← wrap undecodable (decode bytes)
  accept (check config)
  ok (config, bytes)
