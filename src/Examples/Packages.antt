-- ===== src/Examples/Packages.antt =====
-- A package with one version: runs of internal/provider/github/github.go.
use regbot.Base.{
  true, ℕ, List, [], ◌∷◌, Str, some, none, ok, refl, ◌≡◌, ◌↔◌, codes, pos, str_eq, if◌then◌else◌,
  In, here, path_escape, occurs,
}
use regbot.Provider.{DeleteRequest}
use regbot.Http.{Request, Response, Oracle, ◌>>=◌, send, attempt, give, refuse_when, lift, fail}
use regbot.Oci.Links.{raw_path, raw_query}
use regbot.Policy.Numbers.{cut}
use regbot.Github.Tags.{same_tags, same_tags-occurs}
use regbot.Github.Requests.{Account, request, request_to, tries, check, pause}
use regbot.Github.Requests.Retries.{IsRetried, request-IsRetried}
use regbot.Github.Client.{
  get_method, delete_method, version, version_path, is_changed, delete_version, delete_current,
}
use regbot.Github.Client.Deletion.{IsPlanned, delete_version-IsPlanned}

abbrev a_b_a : List Str
a_b_a = codes "a" ∷ codes "b" ∷ codes "a" ∷ []

abbrev a_a_b : List Str
a_a_b = codes "a" ∷ codes "a" ∷ codes "b" ∷ []

same_tags-occurs_example :
    (same_tags a_b_a a_a_b ≡ true) ↔ ((t : Str) → occurs t a_b_a ≡ occurs t a_a_b)
same_tags-occurs_example = same_tags-occurs a_b_a a_a_b

abbrev answer : ℕ → Response
answer status = record {
  status = status;
  status_line = [];
  header = λ name. [];
  body = [];
  content_length = pos 0;
}

-- The first request is answered that the service is not available.
abbrev github : Oracle
github [] q = ok (answer 503)
github (r ∷ h) q = if str_eq q.method (codes "DELETE") then ok (answer 204) else ok (answer 200)

abbrev account : Account
account = record {
  name = codes "ghcr";
  owner = codes "o";
  owner_type = codes "organization";
  token = codes "t";
  absolute = λ path query. path;
  malformed = λ method url. none;
  jitter = λ h. 0;
  cancelled = λ h delay. none;
  format_int = λ n. codes "7";
  decode_version = λ body. ok (record {
    id = pos 7;
    name = codes "d";
    created_at = pos 1;
    updated_at = pos 2;
    tags = codes "x" ∷ [];
  });
  decode_versions = λ body. ok [];
  decode_names = λ body. ok [];
  glob = λ pattern name. some true;
}

request-IsRetried_example :
    IsRetried github
      (request_to github account get_method (codes "/user"))
      4
      []
      (request github account get_method (codes "/user") [])
request-IsRetried_example = request-IsRetried github account get_method (codes "/user") []

abbrev wanted : DeleteRequest
wanted = record {
  repository = codes "p";
  id = codes "7";
  digest = codes "d";
  tags = codes "x" ∷ [];
  updated_at = pos 2;
}

abbrev deletion : Request
deletion = request_to github account delete_method (version_path account wanted)

deletion_sent : In deletion (delete_version github account wanted []).1
unfolding delete_version version delete_current ◌>>=◌ request tries check pause attempt send
    raw_path raw_query cut path_escape give refuse_when lift fail is_changed same_tags str_eq
deletion_sent = here refl

delete_version-IsPlanned_example : IsPlanned github account wanted deletion
delete_version-IsPlanned_example =
    delete_version-IsPlanned github account wanted deletion deletion_sent refl
