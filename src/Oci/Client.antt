-- ===== src/Oci/Client.antt =====
-- The operations of the client of internal/provider/oci/oci.go: `Preflight`, `List` and `Delete`, with
-- `catalog`, `listRepository` and `resolve`. `rounds` bounds the pages of a listing.
pub mod Grouping
pub mod Deletion
pub mod Success
use regbot.Base.{
  Bool, true, false, not, ◌&&◌, ◌||◌, ℕ, List, [], ◌∷◌, ◌++◌, Str, Option, none, some, Result, ok,
  err, codes, str_eq, str_lt, is_empty, ◌==◌, if◌then◌else◌, pos, slice_stable, path_escape, map,
}
use regbot.Provider.{Artifact, Target, Capabilities, DeleteRequest, ProviderError}
use regbot.Policy.Globs.{match_repository}
use regbot.Http.{
  Response, Web, ◌>>=◌, ◌>>◌, give, fail, lift, refuse_when, relabel, attempt, plain, wrapped,
  Oracle, not_found, precondition, Answer, done, failed, endless,
}
use regbot.Http.Paging.{pages}
use regbot.Oci.Links.{escape_repository, first_tag, next_link}
use regbot.Oci.Requests.{
  Site, request, registry_error, get_method, head_method, delete_method, manifest_accept,
}
use regbot.Oci.Referrers.{referrers}

abbrev pub manifest_path : Str → Str → Str
manifest_path repository reference =
    codes "/v2/" ++ (escape_repository repository ++ (codes "/manifests/" ++ path_escape reference))

abbrev pub link_of : Response → Str
link_of response = next_link (response.header (codes "Link"))

-- `byDigest[artifact.Digest]`: the tag goes to the artifact with the digest, or to a new one.
abbrev pub add_tagged : Artifact → Str → List Artifact → List Artifact
add_tagged artifact tag [] = record artifact { tags = tag ∷ [] } ∷ []
add_tagged artifact tag (a ∷ others) =
    if str_eq a.digest artifact.digest
    then record a { tags = a.tags ++ tag ∷ [] } ∷ others
    else a ∷ add_tagged artifact tag others

abbrev pub digest_before : Artifact → Artifact → Bool
digest_before a b = str_lt a.digest b.digest

abbrev pub wanted_error : ProviderError → ProviderError
wanted_error e = if e.is_not_found then not_found else e

abbrev pub resolved : Result ProviderError Artifact → Web Artifact
resolved (ok a) = give a
resolved (err e) = fail (wanted_error e)

abbrev pub changed : Str → Str → ProviderError
changed before now = wrapped precondition.text (record precondition {
  text = codes "digest changed from " ++ (before ++ (codes " to " ++ now));
})

abbrev pub accepted : Response → Web (Unit {0})
accepted response =
    if response.status == 202
    then give tt
    else if response.status == 404
    then fail not_found
    else if response.status == 405 || response.status == 400
    then fail (wrapped (codes "manifest deletion is disabled") (registry_error response))
    else fail (registry_error response)

abbrev has_catalog : Result ProviderError Response → Bool
has_catalog (ok r) = r.status == 200
has_catalog (err e) = false

abbrev capable : Bool → Capabilities
capable has = record { catalog = has; delete = true; referrers = true }

module _ (oracle : Oracle) (site : Site) where
  -- The request for the catalog, whose errors say that there is none.
  abbrev probe : Web Capabilities
  probe = do
    answer ← attempt (request oracle site get_method (codes "/v2/_catalog?n=1") [])
    refuse_when (not (has_catalog answer))
        (plain (codes "registry catalog is unavailable; configure repositories explicitly"))
    give (capable true)

  unfoldable pub preflight : Web Capabilities
  preflight = do
    response ← request oracle site get_method (codes "/v2/") []
    refuse_when (not (response.status == 200)) (registry_error response)
    if is_empty site.repositories then probe else give (capable false)

  unfoldable pub resolve : Str → Str → Web Artifact
  resolve repository reference = do
    refuse_when (is_empty reference) not_found
    response ← request oracle site head_method (manifest_path repository reference) manifest_accept
    refuse_when (response.status == 404) not_found
    refuse_when (not (response.status == 200)) (registry_error response)
    refuse_when (is_empty (response.header (codes "Docker-Content-Digest"))) (
        plain (
          codes "registry omitted Docker-Content-Digest for "
          ++ (repository ++ (b':' ∷ reference))))
    give (record {
      provider = codes "oci";
      registry = site.name;
      repository = repository;
      id = response.header (codes "Docker-Content-Digest");
      digest = response.header (codes "Docker-Content-Digest");
      media_type = response.header (codes "Content-Type");
      artifact_type = [];
      tags = [];
      created_at = pos 0;
      updated_at = pos 0;
      size = response.content_length;
      child_digests = [];
      referrer_ids = [];
      parsed_versions = [];
    })

  unfoldable pub delete_current : DeleteRequest → Artifact → Web (Unit {0})
  delete_current wanted current = do
    refuse_when (not (str_eq current.digest wanted.digest)) (changed wanted.digest current.digest)
    response ← request oracle site delete_method (manifest_path wanted.repository wanted.digest) []
    accepted response

  -- `Delete`: the manifest of the first tag must still be the one that was planned.
  unfoldable pub delete_manifest : DeleteRequest → Web (Unit {0})
  unfolding delete_current
  delete_manifest wanted = do
    answer ← attempt (resolve wanted.repository (first_tag wanted.tags))
    current ← resolved answer
    delete_current wanted current

  abbrev pub listing : ℕ → Str → Web (List Str)
  listing rounds path =
      pages (λ p. request oracle site get_method p []) registry_error site.decode_names link_of
        rounds path []

  unfoldable pub catalog : ℕ → Web (List Str)
  catalog rounds = do
    repositories ← listing rounds (codes "/v2/_catalog?n=100")
    give (slice_stable str_lt repositories)

  -- The loop over the tags.
  unfoldable pub resolve_tags : Str → List Str → List Artifact → Web (List Artifact)
  resolve_tags repository [] by_digest = give by_digest
  resolve_tags repository (tag ∷ tags) by_digest = do
    artifact ← resolve repository tag
    resolve_tags repository tags (add_tagged artifact tag by_digest)

  abbrev pub completed : Artifact → List Str → Artifact
  completed artifact ids = record artifact {
    referrer_ids = ids;
    tags = slice_stable str_lt artifact.tags;
  }

  -- The loop over the map, in the order of the visit.
  unfoldable pub add_referrers : Str → List Artifact → List Artifact → Web (List Artifact)
  add_referrers repository [] result = give result
  add_referrers repository (artifact ∷ others) result = do
    ids ← referrers oracle site repository artifact.digest
    add_referrers repository others (result ++ completed artifact ids ∷ [])

  unfoldable pub list_repository : ℕ → Str → Web (List Artifact)
  list_repository rounds repository = do
    tags ←
        listing rounds (codes "/v2/" ++ (escape_repository repository ++ codes "/tags/list?n=100"))
    by_digest ← resolve_tags repository tags []
    result ← add_referrers repository (site.visit_order by_digest) []
    give (slice_stable digest_before result)

  -- The loop over the repositories.
  unfoldable pub list_all : ℕ → Target → List Str → List Artifact → Web (List Artifact)
  list_all rounds target [] artifacts = give artifacts
  list_all rounds target (repository ∷ rest) artifacts =
      if not (match_repository site.glob repository target.includes target.excludes)
      then list_all rounds target rest artifacts
      else (relabel (codes "list repository " ++ repository) (list_repository rounds repository)
          >>= λ found. list_all rounds target rest (artifacts ++ found))

  unfoldable pub list : ℕ → Target → Web (List Artifact)
  list rounds target = do
    repositories ← if is_empty site.repositories then catalog rounds else give site.repositories
    list_all rounds target repositories []
