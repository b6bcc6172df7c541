-- ===== src/Oci/Client/Deletion.antt =====
-- Which requests `Client.Delete` of internal/provider/oci/oci.go sends.
use regbot.Base.{◌||◌, [], Str, codes, str_eq→eq, ◌≡◌, ◌≢◌, refl, sym, ◌∙◌, In, arith, ◌==◌}
use regbot.Provider.{Artifact, DeleteRequest}
use regbot.Http.{
  Authorization, Request, Response, Answer, done, failed, endless, History, ◌>>=◌, continue,
  attempted, attempt, give, fail, Oracle, not_found, wrapped,
}
use regbot.Http.Sends.{
  Extends, Sends, Extends-trans, Extends-mono, Extends-In, >>=-Sends, give-Sends, lift-Sends,
  refuse_when-Sends, send-Sends, if-Sends, fail-Sends, guard-Sends,
}
use regbot.Oci.Links.{first_tag, raw_path, raw_query}
use regbot.Oci.Requests.{
  Site, built, build_and_send, registry_error, request, bearer_token, request_to, get_method,
  head_method, delete_method,
}
use regbot.Oci.Client.{manifest_path, resolve, resolved, delete_current, delete_manifest, accepted}

-- All but the request that deletes.
abbrev IsRead : Request → Type 0
IsRead q = q.method ≢ delete_method

module _ (oracle : Oracle) (site : Site) where
  build_and_send-Sends :
      (P : Request → Type 0) (q : Request) → P q → Sends P (build_and_send oracle site q)
  build_and_send-Sends P q p =
      >>=-Sends P (lift-Sends P (built (site.malformed q.method q.url)))
        λ u. send-Sends P oracle q p

  bearer_token-Sends :
      (P : Request → Type 0)
      → ((q : Request) → q.method ≡ get_method → P q)
      → (challenge : Str) → Sends P (bearer_token oracle site challenge)
  unfolding bearer_token
  bearer_token-Sends P gets challenge = >>=-Sends P (refuse_when-Sends P _ _) λ u.
      >>=-Sends P (lift-Sends P _) λ url.
        >>=-Sends P (build_and_send-Sends P _ (gets _ refl)) λ response.
          >>=-Sends P (refuse_when-Sends P _ _) λ v.
            >>=-Sends P (lift-Sends P _)
              λ payload. >>=-Sends P (refuse_when-Sends P _ _) λ w. give-Sends P _

  -- A request is sent as it is asked for, with requests for a token between.
  pub request-Sends :
      (P : Request → Type 0)
      → ((q : Request) → q.method ≡ get_method → P q)
      → (method path accept : Str)
      → ((a : Authorization) → P (request_to oracle site method path accept a))
      → Sends P (request oracle site method path accept)
  unfolding request
  request-Sends P gets method path accept asked =
      >>=-Sends P (build_and_send-Sends P _ (asked _)) λ response.
        if-Sends P _
          (>>=-Sends P (bearer_token-Sends P gets _) λ token. build_and_send-Sends P _ (asked _))
          (give-Sends P response)

  resolve-Sends :
      (repository reference : Str) → Sends IsRead (resolve oracle site repository reference)
  unfolding resolve
  resolve-Sends repository reference = >>=-Sends IsRead (refuse_when-Sends IsRead _ _) λ u.
      >>=-Sends IsRead
        (request-Sends IsRead (λ q e n. not_delete_get (sym e ∙ n)) head_method _ _
          (λ a e. not_delete_head e))
        λ response. >>=-Sends IsRead (refuse_when-Sends IsRead _ _) λ v.
          >>=-Sends IsRead (refuse_when-Sends IsRead _ _)
            λ w. >>=-Sends IsRead (refuse_when-Sends IsRead _ _) λ x. give-Sends IsRead _
    where
      not_delete_get : get_method ≡ delete_method → ⊥
      not_delete_get e = cc

      not_delete_head : head_method ≡ delete_method → ⊥
      not_delete_head e = cc

  -- The request names the manifest that was planned, and the first tag of the plan stood for just that
  -- manifest before.
  abbrev pub IsPlanned : DeleteRequest → Request → Type 0
  IsPlanned wanted q =
      (current : Artifact) × (before : History) × (resolve oracle site wanted.repository
          (first_tag wanted.tags) []
        ≡ (done current, before))
      × (current.digest ≡ wanted.digest)
      × (q.url
          ≡ site.absolute (raw_path (manifest_path wanted.repository wanted.digest))
              (raw_query (manifest_path wanted.repository wanted.digest)))

  abbrev IsChecked : DeleteRequest → Request → Type 0
  IsChecked wanted q = q.method ≡ delete_method → IsPlanned wanted q

  accepted-Sends : (P : Request → Type 0) (r : Response) → Sends P (accepted r)
  accepted-Sends P r = if-Sends P (r.status == 202) (give-Sends P tt) (
      if-Sends P (r.status == 404) (fail-Sends P not_found) (
        if-Sends P (r.status == 405 || r.status == 400)
          (fail-Sends P (wrapped (codes "manifest deletion is disabled") (registry_error r)))
          (fail-Sends P (registry_error r))))

  delete_current-Sends :
      (wanted : DeleteRequest) (current : Artifact) (before : History)
      → resolve oracle site wanted.repository (first_tag wanted.tags) [] ≡ (done current, before)
      → Sends (IsChecked wanted) (delete_current oracle site wanted current)
  unfolding delete_current
  delete_current-Sends wanted current before e = guard-Sends (IsChecked wanted) _ _ λ same.
      >>=-Sends (IsChecked wanted)
        (request-Sends (IsChecked wanted) (λ q get del. absurd (not_both q get del)) _ _ _
          (λ a del.
            (current, before, e, str_eq→eq current.digest wanted.digest (ground arith), refl)))
        (accepted-Sends (IsChecked wanted))
    where
      not_both : (q : Request) → q.method ≡ get_method → q.method ≡ delete_method → ⊥
      not_both q e e' = clash (sym e ∙ e')
        where
          clash : get_method ≡ delete_method → ⊥
          clash x = cc

  after_resolve :
      (wanted : DeleteRequest) (r : Answer Artifact × History)
      → resolve oracle site wanted.repository (first_tag wanted.tags) [] ≡ r
      → Extends (IsChecked wanted) [] r.1
      → Extends
          (IsChecked wanted)
          []
          (continue
            (attempted r)
            (λ answer. resolved answer >>= delete_current oracle site wanted)).1
  unfolding ◌>>=◌ give fail
  after_resolve wanted (done current, h) e x =
      Extends-trans (IsChecked wanted) [] h _ x ((delete_current-Sends wanted current h e).from h)
  after_resolve wanted (failed f, h) e x = x
  after_resolve wanted (endless, h) e x = x

  -- `Delete` sends a request to delete only for the digest that was planned, and only if the registry
  -- resolved the first planned tag to that digest.
  pub delete_manifest-IsPlanned :
      (wanted : DeleteRequest) (q : Request)
      → In q (delete_manifest oracle site wanted []).1
      → q.method ≡ delete_method
      → IsPlanned wanted q
  unfolding delete_manifest ◌>>=◌ attempt
  delete_manifest-IsPlanned wanted q sent deletes =
      Extends-In (IsChecked wanted) _
        (after_resolve wanted _ refl (
          Extends-mono IsRead (IsChecked wanted) (λ q read del. absurd (read del)) [] _
            ((resolve-Sends wanted.repository (first_tag wanted.tags)).from [])))
        q sent deletes
