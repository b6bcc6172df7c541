-- ===== src/Config/Secrets.antt =====
-- `Secret` of internal/config/config.go. The environment, the files and `bytes.TrimSpace` are
-- parameters.
use regbot.Base.{not, [], Str, Option, none, some, Result, ok, err, is_empty, if◌then◌else◌}

pub data SecretError : Type 0 where
  not_set : Str → SecretError
  unreadable : Str → SecretError

abbrev pub of_environment : Str → Option Str → Result SecretError Str
of_environment name none = err (not_set name)
of_environment name (some content) = if is_empty content then err (not_set name) else ok content

abbrev pub of_file : (Str → Str) → Str → Option Str → Result SecretError Str
of_file trim file none = err (unreadable file)
of_file trim file (some content) = ok (trim content)

unfoldable pub secret :
    (Str → Option Str) → (Str → Option Str) → (Str → Str) → Str → Str → Result SecretError Str
secret environment read trim name file =
    if not (is_empty name)
    then of_environment name (environment name)
    else if not (is_empty file)
    then of_file trim file (read file)
    else ok []
