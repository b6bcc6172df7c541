-- ===== src/Github/Client.antt =====
-- The operations of the client of internal/provider/github/github.go. `rounds` bounds the pages of a
-- listing.
pub mod Deletion
use regbot.Base.{
  Bool, true, false, not, ◌&&◌, ◌||◌, ℕ, List, [], ◌∷◌, ◌++◌, Str, Option, Result, ok, err, codes,
  str_eq, is_empty, ◌==◌, if◌then◌else◌, path_escape, map, pos,
}
use regbot.Provider.{Artifact, Target, Capabilities, DeleteRequest, ProviderError, is_zero, time_eq}
use regbot.Policy.Globs.{match_repository}
use regbot.Http.{
  Response, Web, ◌>>=◌, ◌>>◌, give, fail, lift, refuse_when, relabel, plain, wrapped, Oracle,
  not_found, precondition,
}
use regbot.Http.Paging.{pages}
use regbot.Github.Tags.{same_tags}
use regbot.Github.Requests.{Account, PackageVersion, github_error, github_next, request}

abbrev pub get_method : Str
get_method = codes "GET"

abbrev pub delete_method : Str
delete_method = codes "DELETE"

-- Whether the version that GitHub has now is another than the one that the request is about.
unfoldable pub is_changed : Artifact → DeleteRequest → Bool
is_changed current wanted =
    (not (is_empty wanted.digest) && not (str_eq current.digest wanted.digest))
    || ((not (is_zero wanted.updated_at) && not (time_eq current.updated_at wanted.updated_at))
        || not (same_tags current.tags wanted.tags))

abbrev pub version_changed : ProviderError
version_changed =
    wrapped precondition.text
      (record precondition { text = codes "GitHub package version changed" })

abbrev pub accepted : Response → Web (Unit {0})
accepted response =
    if response.status == 204
    then give tt
    else if response.status == 404
    then fail not_found
    else if response.status == 409
    then fail precondition
    else fail (github_error response)

module _ (account : Account) where
  abbrev pub organization_prefix : Str
  organization_prefix = codes "/orgs/" ++ path_escape account.owner

  abbrev pub is_organization : Bool
  is_organization = str_eq account.owner_type (codes "organization")

  abbrev pub owner_prefix : Str
  owner_prefix =
      if is_organization then organization_prefix else codes "/users/" ++ path_escape account.owner

  abbrev pub package_path : Str → Str
  package_path package_name =
      owner_prefix
      ++ (codes "/packages/container/" ++ (path_escape package_name ++ codes "/versions"))

  abbrev pub version_path : DeleteRequest → Str
  version_path wanted = package_path wanted.repository ++ b'/' ∷ path_escape wanted.id

  abbrev pub artifact_of : Str → PackageVersion → Artifact
  artifact_of package_name v = record {
    provider = codes "github";
    registry = account.name;
    repository = package_name;
    id = account.format_int v.id;
    digest = v.name;
    media_type = [];
    artifact_type = [];
    tags = v.tags;
    created_at = v.created_at;
    updated_at = v.updated_at;
    size = pos 0;
    child_digests = [];
    referrer_ids = [];
    parsed_versions = [];
  }

  abbrev pub decode_artifacts : Str → Str → Result ProviderError (List Artifact)
  decode_artifacts package_name body = decoded (account.decode_versions body)
    where
      decoded : Result ProviderError (List PackageVersion) → Result ProviderError (List Artifact)
      decoded (ok vs) = ok (map (artifact_of package_name) vs)
      decoded (err e) = err e

module _ (oracle : Oracle) (account : Account) where
  unfoldable pub preflight : Web Capabilities
  preflight = do
    response ←
        request oracle account get_method
          (if is_organization account then organization_prefix account else codes "/user")
    refuse_when (not (response.status == 200)) (github_error response)
    give (record { catalog = true; delete = true; referrers = false })

  unfoldable pub version : Str → Str → Web Artifact
  version path package_name = do
    response ← request oracle account get_method path
    refuse_when (response.status == 404) not_found
    refuse_when (not (response.status == 200)) (github_error response)
    found ← lift (account.decode_version response.body)
    give (artifact_of account package_name found)

  unfoldable pub delete_current : DeleteRequest → Artifact → Web (Unit {0})
  delete_current wanted current = do
    refuse_when (is_changed current wanted) version_changed
    response ← request oracle account delete_method (version_path account wanted)
    accepted response

  -- `Delete`: the version must still be the one that was planned.
  unfoldable pub delete_version : DeleteRequest → Web (Unit {0})
  unfolding delete_current
  delete_version wanted = do
    current ← version (version_path account wanted) wanted.repository
    delete_current wanted current

  abbrev pub listing : {A : Type 0} → (Str → Result ProviderError (List A)) → ℕ → Str → Web (List A)
  listing decode rounds path =
      pages (request oracle account get_method) github_error decode
        (λ r. github_next (r.header (codes "Link"))) rounds path []

  unfoldable pub packages : ℕ → Web (List Str)
  packages rounds =
      listing account.decode_names rounds
        (owner_prefix account ++ codes "/packages?package_type=container&per_page=100")

  unfoldable pub versions : ℕ → Str → Web (List Artifact)
  versions rounds package_name =
      listing (decode_artifacts account package_name) rounds
        (package_path account package_name ++ codes "?per_page=100")

  -- The loop over the packages.
  unfoldable pub list_all : ℕ → Target → List Str → List Artifact → Web (List Artifact)
  list_all rounds target [] artifacts = give artifacts
  list_all rounds target (package_name ∷ rest) artifacts =
      if not (match_repository account.glob package_name target.includes target.excludes)
      then list_all rounds target rest artifacts
      else (relabel (codes "list package " ++ package_name) (versions rounds package_name)
          >>= λ found. list_all rounds target rest (artifacts ++ found))

  unfoldable pub list : ℕ → Target → Web (List Artifact)
  list rounds target = do names ← packages rounds; list_all rounds target names []
