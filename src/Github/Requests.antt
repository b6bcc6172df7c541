-- ===== src/Github/Requests.antt =====
-- `Client.do`, `retryDelay` and the small functions at the end of internal/provider/github/github.go.
-- Go's resolving of URLs, its JSON decoders, its random numbers and the cancellation of a context are
-- parameters.
pub mod Retries
use regbot.Base.{
  Bool, true, false, not, ◌&&◌, ◌||◌, ℕ, zero, suc, ◌+◌, ◌*◌, ◌^◌, List, [], ◌∷◌, ◌++◌, Str, Option,
  none, some, Result, ok, err, codes, is_empty, ◌==◌, if◌then◌else◌, ltb, leb, ◌%◌, ℤ, pos, sub_ℕ,
  has_prefix, contains, index_of, slice,
}
use regbot.Provider.{ProviderError, Time, Duration}
use regbot.Policy.Numbers.{atoi, split}
use regbot.Http.{
  Authorization, bearer, Request, Response, Answer, done, failed, endless, History, Web, ◌>>=◌,
  ◌>>◌, give, fail, lift, refuse_when, plain, wrapped, attempt, Oracle, send, response_error,
}
use regbot.Oci.Links.{raw_path, raw_query}

-- What GitHub says of a version of a package.
pub record PackageVersion : Type 0 where
  pub id : ℤ
  pub name : Str
  pub created_at : Time
  pub updated_at : Time
  pub tags : List Str

-- `Client`, with the parts of Go's libraries that its methods call. `absolute` resolves a path and a
-- query against the endpoint, `malformed` is the error of `http.NewRequestWithContext`, `jitter` is
-- `rand.IntN(250)`, and `cancelled` the error of a context that ends within a wait.
pub record Account : Type 0 where
  pub name : Str
  pub owner : Str
  pub owner_type : Str
  pub token : Str
  pub absolute : Str → Str → Str
  pub malformed : Str → Str → Option ProviderError
  pub jitter : History → ℕ
  pub cancelled : History → Duration → Option ProviderError
  pub format_int : ℤ → Str
  pub decode_version : Str → Result ProviderError PackageVersion
  pub decode_versions : Str → Result ProviderError (List PackageVersion)
  pub decode_names : Str → Result ProviderError (List Str)
  pub glob : Str → Str → Option Bool

abbrev pub github_error : Response → ProviderError
github_error = response_error (codes "GitHub returned ")

-- `time.Duration(seconds) * time.Second`, which wraps around in an int64.
abbrev pub wait_of_seconds : ℕ → Duration
wait_of_seconds seconds =
    let n = (seconds * 10 ^ 9) % 2 ^ 64 in if ltb n (2 ^ 63) then pos n else sub_ℕ n (2 ^ 64)

abbrev backoff : ℕ → ℕ → Duration
backoff attempt_number jitter = pos ((2 ^ attempt_number * 500 + jitter) * 10 ^ 6)

abbrev retry_after : Option ℤ → ℕ → ℕ → Duration
retry_after (some (pos (suc n))) attempt_number jitter = wait_of_seconds (suc n)
retry_after seconds attempt_number jitter = backoff attempt_number jitter

unfoldable pub retry_delay : Option Response → ℕ → ℕ → Duration
retry_delay none attempt_number jitter = backoff attempt_number jitter
retry_delay (some r) attempt_number jitter =
    retry_after (atoi (r.header (codes "Retry-After"))) attempt_number jitter

-- Whether a response is returned, not asked for again.
abbrev pub is_final : Response → Bool
is_final r =
    not (r.status == 429)
    && (ltb r.status 500
        && not (r.status == 403 && not (is_empty (r.header (codes "Retry-After")))))

abbrev pub settles : Result ProviderError Response → Bool
settles (ok r) = is_final r
settles (err e) = false

abbrev pub last_error : Result ProviderError Response → ProviderError
last_error (ok r) = github_error r
last_error (err e) = e

abbrev pub response_of : Result ProviderError Response → Option Response
response_of (ok r) = some r
response_of (err e) = none

-- `githubNext`: the text between the first angle brackets of the first link that names the next page.
abbrev link_between : Str → Option ℕ → Option ℕ → Option Str
link_between link (some start) (some end) =
    if ltb start end then some (slice (suc start) end link) else none
link_between link start end = none

abbrev next_of : List Str → Str
next_of [] = []
next_of (link ∷ links) =
    let rest = next_of links in
    if not (contains link (codes "rel=\"next\""))
    then rest
    else elim (link_between link (index_of b'<' link) (index_of b'>' link)) [
      | none ↦ rest
      | some next ↦ next
    ]

unfoldable pub github_next : Str → Str
github_next value = next_of (split b',' value)

-- An error that there may be.
unfoldable pub check : Option ProviderError → Web (Unit {0})
check none = give tt
check (some e) = fail e

module _ (oracle : Oracle) (account : Account) where
  -- The wait for a timer, unless the context ends before.
  unfoldable pub pause : Option Response → ℕ → Web (Unit {0})
  pause response attempt_number h =
      check (account.cancelled h (retry_delay response attempt_number (account.jitter h))) h

  -- The loop of `do`, with so many attempts left.
  unfoldable pub tries : ℕ → ℕ → ProviderError → Request → Web Response
  tries zero attempt_number last q = fail (wrapped (codes "GitHub request retries exhausted") last)
  tries (suc left) attempt_number last q =
      check (account.malformed q.method q.url)
      >> (attempt (send oracle q) >>= λ answer.
          if settles answer
          then lift answer
          else (pause (response_of answer) attempt_number
              >> tries left (suc attempt_number) (last_error answer) q))

  abbrev pub url_of : Str → Str
  url_of path =
      if has_prefix path (b'/' ∷ [])
      then account.absolute (raw_path path) (raw_query path)
      else path

  abbrev pub request_to : Str → Str → Request
  request_to method path = record {
    method = method;
    url = url_of path;
    accept = codes "application/vnd.github+json";
    authorization = bearer account.token;
  }

  -- `do`
  unfoldable pub request : Str → Str → Web Response
  request method path = tries 4 0 (plain []) (request_to method path)
