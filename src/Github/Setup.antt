-- ===== src/Github/Setup.antt =====
-- `New` of internal/provider/github/github.go. Go's `url.Parse` is a parameter.
use regbot.Base.{
  not, Str, Result, ok, codes, is_empty, if◌then◌else◌, trim_right, refuse_if, ◌>>=◌, ◌>>◌,
}
use regbot.Provider.{Duration}
use regbot.Oci.Setup.{Url, is_absolute, timeout_or_default}

-- How a client reaches GitHub.
pub record Connection : Type 0 where
  pub name : Str
  pub base : Url
  pub owner : Str
  pub owner_type : Str
  pub token : Str
  pub timeout : Duration

abbrev pub endpoint_of : Str → Str
endpoint_of endpoint = if is_empty endpoint then codes "https://api.github.com" else endpoint

unfoldable pub new_client :
    (Str → Result Str Url) → Str → Str → Str → Str → Str → Duration → Result Str Connection
new_client parse name endpoint owner owner_type token timeout = do
  let parsed = parse (trim_right b'/' (endpoint_of endpoint))
  refuse_if (not (is_absolute parsed)) (codes "invalid GitHub API endpoint")
  base ← parsed
  ok (record {
    name = name;
    base = base;
    owner = owner;
    owner_type = owner_type;
    token = token;
    timeout = timeout_or_default timeout;
  })
