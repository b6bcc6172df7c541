-- ===== src/Examples/Registry.antt =====
-- A registry with one image that has two tags: runs of internal/provider/oci/oci.go.
use regbot.Base.{
  none, true, ℕ, List, [], ◌∷◌, ◌++◌, Str, some, Result, ok, err, arith, refl, ◌≡◌, codes, pos,
  str_eq, if◌then◌else◌, In, here, slice_stable, path_escape, str_lt,
}
use regbot.Provider.{Artifact, DeleteRequest, ProviderError}
use regbot.Http.{
  Request, Response, Oracle, plain, History, Answer, done, anonymous, Web, ◌>>=◌, send, attempt,
  fail, give, refuse_when, lift,
}
use regbot.Oci.Requests.{Site, registry_error, index_media_type, request}
use regbot.Oci.Referrers.{referrers, decode_referrers_index, distinct_digests}
use regbot.Oci.Links.{escape_repository, raw_path, raw_query, next_link}
use regbot.Oci.Client.{
  list_repository, delete_manifest, resolve, resolve_tags, add_referrers, delete_current, listing,
}
use regbot.Http.Paging.{page, pages, Lists, end, more, pages-Lists}
use regbot.Oci.Client.Grouping.{VisitsEach, IsGrouped, list_repository-IsGrouped}
use regbot.Oci.Client.Deletion.{IsPlanned, delete_manifest-IsPlanned}
use regbot.Policy.Numbers.{cut, split}

abbrev image_digest : Str
image_digest = codes "d:1"

abbrev pub answer : ℕ → Str → Response
answer status body = record {
  status = status;
  status_line = [];
  header = λ name. if str_eq name (codes "Docker-Content-Digest") then image_digest else [];
  body = body;
  content_length = pos 1;
}

abbrev pub registry : Oracle
registry h q =
    if str_eq q.method (codes "HEAD")
    then ok (answer 200 [])
    else if str_eq q.method (codes "DELETE")
    then ok (answer 202 [])
    else ok (answer 200 [])

abbrev pub site : Site
site = record {
  name = codes "hub";
  username = [];
  password = [];
  repositories = [];
  absolute = λ path query. path;
  malformed = λ method url. none;
  token_url = λ realm params. err (plain []);
  decode_token = λ body. err (plain []);
  decode_names = λ body. ok (codes "x" ∷ codes "y" ∷ []);
  decode_index = λ body. ok (record { schema_version = pos 2; media_type = []; digests = [] });
  media_type_of = λ value. some index_media_type;
  glob = λ pattern name. some true;
  visit_order = λ artifacts. artifacts;
}

abbrev wanted : DeleteRequest
wanted = record {
  repository = codes "app";
  id = image_digest;
  digest = image_digest;
  tags = codes "x" ∷ [];
  updated_at = pos 0;
}

abbrev run_listing : Answer (List Artifact) × History
run_listing = list_repository registry site 2 (codes "app") []

abbrev run_deletion : Answer (Unit {0}) × History
run_deletion = delete_manifest registry site wanted []

abbrev image : Artifact
image = record {
  provider = codes "oci";
  registry = codes "hub";
  repository = codes "app";
  id = image_digest;
  digest = image_digest;
  media_type = [];
  artifact_type = [];
  tags = codes "x" ∷ codes "y" ∷ [];
  created_at = pos 0;
  updated_at = pos 0;
  size = pos 1;
  child_digests = [];
  referrer_ids = [];
  parsed_versions = [];
}

listed : run_listing ≡ (done (image ∷ []), run_listing.1)
unfolding list_repository ◌>>=◌ pages page request send str_eq raw_path raw_query cut
    escape_repository split give refuse_when lift next_link resolve_tags resolve add_referrers
    slice_stable path_escape str_lt decode_referrers_index distinct_digests referrers
listed = refl

visits : VisitsEach site.visit_order
visits p artifacts = refl

list_repository-IsGrouped_example :
    (tags : List Str) × (h1 : History) × (listing registry site 2
        (codes "/v2/" ++ (escape_repository (codes "app") ++ codes "/tags/list?n=100"))
        []
      ≡ (done tags, h1))
    × IsGrouped tags (image ∷ [])
list_repository-IsGrouped_example =
    list_repository-IsGrouped registry site visits 2 (codes "app") [] run_listing.1 (image ∷ [])
      listed

abbrev deletion : Request
deletion = record {
  method = codes "DELETE";
  url = codes "/v2/app/manifests/d:1";
  accept = [];
  authorization = anonymous;
}

deletion_sent : In deletion run_deletion.1
unfolding delete_manifest resolve ◌>>=◌ request send str_eq raw_path raw_query cut escape_repository
    split give refuse_when lift path_escape attempt fail delete_current
deletion_sent = here refl

delete_manifest-IsPlanned_example : IsPlanned registry site wanted deletion
delete_manifest-IsPlanned_example =
    delete_manifest-IsPlanned registry site wanted deletion deletion_sent refl

-- A listing of two pages.
abbrev get_page : Str → Web Response
get_page path = give (answer 200 path)

abbrev decode_page : Str → Result ProviderError (List Str)
decode_page body = ok (body ∷ [])

abbrev first_link : Response → Str
first_link r = if str_eq r.body (codes "1") then codes "2" else []

two_pages :
    Lists get_page registry_error decode_page first_link 2
      (codes "1")
      []
      (codes "1" ∷ codes "2" ∷ [])
      []
unfolding give str_eq
two_pages = more refl refl refl refl (more refl refl refl refl (end refl))

pages-Lists_example :
    pages get_page registry_error decode_page first_link 3 (codes "1") [] []
    ≡ (done (codes "1" ∷ codes "2" ∷ []), [])
pages-Lists_example =
    pages-Lists get_page registry_error decode_page first_link two_pages 3 (omega arith) []
