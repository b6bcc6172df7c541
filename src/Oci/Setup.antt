-- ===== src/Oci/Setup.antt =====
-- `New` of internal/provider/oci/oci.go. Go's `url.Parse`, files and certificates are parameters.
use regbot.Base.{
  Bool, false, not, ◌||◌, List, Str, Option, none, some, Result, ok, err, codes, ◌++◌, is_empty,
  pos, ◌*◌, ◌^◌, if◌then◌else◌, trim_right, wrap, refuse_if, require, ◌>>=◌, ◌>>◌,
}
use regbot.Provider.{Duration, is_zero}

pub record Url : Type 0 where
  pub scheme : Str
  pub host : Str
  pub path : Str

abbrev pub is_absolute : Result Str Url → Bool
is_absolute (err e) = false
is_absolute (ok u) = not (is_empty u.scheme || is_empty u.host)

-- `P` is a pool of certificates. `append` is `AppendCertsFromPEM`, `none` if there are none.
pub record Certificates (P : Type 0) : Type 0 where
  pub read : Str → Result Str Str
  pub system : Result Str P
  pub append : P → Str → Option P

-- How a client reaches its registry: `roots` are other root certificates than the host's, if any, and
-- `insecure` is whether certificates are not verified. The rest of Go's default transport is kept, with
-- TLS 1.2 at least.
pub record Connection (P : Type 0) : Type 0 where
  pub name : Str
  pub base : Url
  pub username : Str
  pub password : Str
  pub repositories : List Str
  pub roots : Option P
  pub insecure : Bool
  pub timeout : Duration

abbrev pub default_timeout : Duration
default_timeout = pos (30 * 10 ^ 9)

abbrev pub timeout_or_default : Duration → Duration
timeout_or_default timeout = if is_zero timeout then default_timeout else timeout

module _ {P : Type 0} (certificates : Certificates P) where
  -- The certificates of the CA file beside the system's.
  abbrev pub root_pool : Str → Result Str P
  root_pool ca_file = do
    pem ← wrap (λ e. codes "read CA file: " ++ e) (certificates.read ca_file)
    pool ← certificates.system
    require (certificates.append pool pem) (codes "CA file contains no certificates")

  abbrev pub roots_of : Str → Result Str (Option P)
  roots_of ca_file =
      let other = root_pool ca_file >>= λ pool. ok (some pool) in
      if is_empty ca_file then ok none else other

  unfoldable pub new_client :
      (Str → Result Str Url)
      → Str
      → Str
      → Str
      → Str
      → Str
      → Bool
      → Duration
      → List Str
      → Result Str (Connection P)
  new_client parse name endpoint username password ca_file insecure timeout repositories = do
    let parsed = parse (trim_right b'/' endpoint)
    refuse_if (not (is_absolute parsed)) (codes "invalid OCI endpoint " ++ endpoint)
    base ← parsed
    roots ← roots_of ca_file
    ok (record {
      name = name;
      base = base;
      username = username;
      password = password;
      repositories = repositories;
      roots = roots;
      insecure = insecure;
      timeout = timeout_or_default timeout;
    })
