-- ===== src/Oci/Requests.antt =====
-- `do` and `bearerToken` of internal/provider/oci/oci.go, and the requests that go through them. Go's
-- resolving of URLs, its JSON decoders and MIME parser are parameters.
use regbot.Base.{
  Bool, not, ◌&&◌, List, [], ◌∷◌, ◌++◌, Str, Option, none, some, Result, ok, err, codes, is_empty,
  ◌==◌, if◌then◌else◌, drop, trim_space, to_lower, has_prefix, ℤ, length,
}
use regbot.Provider.{ProviderError, Artifact}
use regbot.Http.{
  Authorization, anonymous, basic, bearer, Request, Response, Web, ◌>>=◌, ◌>>◌, give, lift,
  refuse_when, plain, Oracle, send, response_error,
}
use regbot.Oci.Links.{Params, param, parse_challenge, raw_path, raw_query}

pub record Index : Type 0 where
  pub schema_version : ℤ
  pub media_type : Str
  pub digests : List Str

-- `Client`, with the parts of Go's libraries that its methods call. `absolute` resolves a path and a
-- query against the endpoint; `malformed` is the error of `http.NewRequestWithContext`; `token_url` adds parameters to a realm; `visit_order` is the order in which
-- `range` visits the artifacts of a map.
pub record Site : Type 0 where
  pub name : Str
  pub username : Str
  pub password : Str
  pub repositories : List Str
  pub absolute : Str → Str → Str
  pub malformed : Str → Str → Option ProviderError
  pub token_url : Str → Params → Result ProviderError Str
  pub decode_token : Str → Result ProviderError (Str × Str)
  pub decode_names : Str → Result ProviderError (List Str)
  pub decode_index : Str → Result ProviderError Index
  pub media_type_of : Str → Option Str
  pub glob : Str → Str → Option Bool
  pub visit_order : List Artifact → List Artifact

abbrev pub registry_error : Response → ProviderError
registry_error = response_error (codes "registry returned ")

abbrev pub manifest_accept : Str
manifest_accept =
    codes "application/vnd.oci.image.index.v1+json, application/vnd.oci.image.manifest.v1+json, "
    ++ codes "application/vnd.docker.distribution.manifest.list.v2+json, "
    ++ codes "application/vnd.docker.distribution.manifest.v2+json"

abbrev pub index_media_type : Str
index_media_type = codes "application/vnd.oci.image.index.v1+json"

abbrev pub get_method : Str
get_method = codes "GET"

abbrev pub head_method : Str
head_method = codes "HEAD"

abbrev pub delete_method : Str
delete_method = codes "DELETE"

-- `if payload.Token == "" { payload.Token = payload.AccessToken }`
abbrev token_of : Str × Str → Str
token_of (token, access_token) = if is_empty token then access_token else token

abbrev when_given : Str → Params → Params
when_given key params = if is_empty (param key params) then [] else (key, param key params) ∷ []

abbrev pub built : Option ProviderError → Result ProviderError (Unit {0})
built none = ok tt
built (some e) = err e

module _ (oracle : Oracle) (site : Site) where
  -- `http.NewRequestWithContext`, and `http.Client.Do`.
  abbrev pub build_and_send : Request → Web Response
  build_and_send q = lift (built (site.malformed q.method q.url)) >> send oracle q

  abbrev pub credentials : Authorization
  credentials = if is_empty site.username then anonymous else basic site.username site.password

  unfoldable pub bearer_token : Str → Web Str
  bearer_token challenge = do
    let params = parse_challenge (trim_space (drop (length (codes "Bearer ")) challenge))
    refuse_when (is_empty (param (codes "realm") params))
        (plain (codes "bearer challenge has no realm"))
    url ← lift (
        site.token_url (param (codes "realm") params)
          (when_given (codes "service") params ++ when_given (codes "scope") params))
    response ←
        build_and_send
          (record { method = get_method; url = url; accept = []; authorization = credentials })
    refuse_when (not (response.status == 200)) (registry_error response)
    payload ← lift (site.decode_token response.body)
    refuse_when (is_empty (token_of payload))
        (plain (codes "token service returned an empty token"))
    give (token_of payload)

  abbrev pub is_challenged : Response → Bool
  is_challenged r =
      r.status == 401
      && has_prefix (to_lower (r.header (codes "WWW-Authenticate"))) (codes "bearer ")

  abbrev pub request_to : Str → Str → Str → Authorization → Request
  request_to method path accept authorization = record {
    method = method;
    url = site.absolute (raw_path path) (raw_query path);
    accept = accept;
    authorization = authorization;
  }

  -- `do`: a request, and once more with a token if the registry asks for one.
  unfoldable pub request : Str → Str → Str → Web Response
  request method path accept = do
    response ← build_and_send (request_to method path accept credentials)
    let again = bearer_token (response.header (codes "WWW-Authenticate")) >>= λ token.
        build_and_send (request_to method path accept (bearer token))
    if is_challenged response then again else give response
