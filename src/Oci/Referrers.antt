-- ===== src/Oci/Referrers.antt =====
-- `referrers`, `referrersByTag` and `decodeReferrersIndex` of internal/provider/oci/oci.go. The values that
-- some error texts quote at their end are left out.
pub mod Distinct
use regbot.Base.{
  Bool, false, not, ◌&&◌, List, [], ◌∷◌, ◌++◌, Str, Option, none, some, ok, err, codes, str_eq,
  str_lt, str_mem, is_empty, ◌==◌, if◌then◌else◌, pos, slice_stable, path_escape,
}
use regbot.Provider.{ProviderError}
use regbot.Policy.Calendar.{eq_ℤ}
use regbot.Http.{Response, Web, ◌>>=◌, ◌>>◌, give, fail, lift, refuse_when, plain, wrapped, Oracle}
use regbot.Oci.Digest.{valid_digest, referrers_tag}
use regbot.Oci.Links.{escape_repository}
use regbot.Oci.Requests.{Site, request, registry_error, get_method, index_media_type}

-- The loop over the descriptors, onto the digests so far; `none` at an invalid one.
unfoldable pub distinct_digests : List Str → List Str → Option (List Str)
distinct_digests [] result = some result
distinct_digests (d ∷ ds) result =
    let rest = distinct_digests ds (if str_mem d result then result else result ++ d ∷ []) in
    if valid_digest d then rest else none

abbrev pub sorted_result : ProviderError → Option (List Str) → Web (List Str)
sorted_result e none = fail e
sorted_result e (some digests) = give (slice_stable str_lt digests)

abbrev pub is_index_type : Option Str → Bool
is_index_type none = false
is_index_type (some t) = str_eq t index_media_type

module _ (oracle : Oracle) (site : Site) (repository subject : Str) where
  abbrev named : Str → Str → ProviderError
  named source complaint =
      plain (source ++ (codes " for " ++ (repository ++ (b'@' ∷ (subject ++ complaint)))))

  unfoldable pub decode_referrers_index : Response → Str → Web (List Str)
  decode_referrers_index response source = do
    refuse_when (not (is_index_type (site.media_type_of (response.header (codes "Content-Type")))))
        (named source (codes " returned invalid content type"))
    index ← lift (elim (site.decode_index response.body) [
      | ok index ↦ ok index
      | err e ↦ err (wrapped (codes "decode " ++ (named source []).text) e)
    ])
    refuse_when (not (eq_ℤ index.schema_version (pos 2)))
        (named source (codes " has invalid schemaVersion"))
    refuse_when (not (is_empty index.media_type) && not (str_eq index.media_type index_media_type))
        (named source (codes " has invalid mediaType"))
    sorted_result (named source (codes " contains invalid descriptor digest"))
        (distinct_digests index.digests [])

  abbrev manifest_path : Str → Str
  manifest_path reference =
      codes "/v2/"
      ++ (escape_repository repository ++ (codes "/manifests/" ++ path_escape reference))

  abbrev underivable : ProviderError
  underivable =
      wrapped (codes "derive referrers tag for " ++ (repository ++ (b'@' ∷ subject)))
        (plain (codes "invalid digest"))

  abbrev with_tag : (Str → Web (List Str)) → Option Str → Web (List Str)
  with_tag next none = fail underivable
  with_tag next (some tag) = next tag

  unfoldable pub referrers_by_tag : Web (List Str)
  referrers_by_tag =
      with_tag
        (λ tag. do
          response ← request oracle site get_method (manifest_path tag) index_media_type
          let fetch = wrapped (codes "fetch referrers tag for " ++ (repository ++ (b'@' ∷ subject)))
          let decoded =
              refuse_when (not (response.status == 200)) (fetch (registry_error response))
              >> decode_referrers_index response (codes "referrers tag")
          if response.status == 404 then give [] else decoded)
        (referrers_tag subject)

  unfoldable pub referrers : Web (List Str)
  referrers = do
    response ←
        request oracle site get_method
          (codes "/v2/"
            ++ (escape_repository repository ++ (codes "/referrers/" ++ path_escape subject)))
          index_media_type
    let decoded =
        refuse_when (not (response.status == 200)) (registry_error response)
        >> decode_referrers_index response (codes "referrers API")
    if response.status == 404 then referrers_by_tag else decoded
