-- ===== src/Github/Client/Deletion.antt =====
-- Which requests `Client.Delete` of internal/provider/github/github.go sends.
use regbot.Base.{
  ◌⊎◌, inl, inr, occurs, pos, Bool-cases, is_empty, is_empty→nil, eq_of_parts, str_eq→eq, arith,
  false, ℕ, zero, suc, [], ◌∷◌, Str, ◌≡◌, ◌≢◌, refl, ap, sym, subst, In, ◌==◌,
}
use regbot.Provider.{is_zero, Artifact, DeleteRequest}
use regbot.Http.{
  Request, Response, Answer, done, failed, endless, History, ◌>>=◌, continue, Oracle, not_found,
  precondition,
}
use regbot.Http.Sends.{
  Extends, Sends, Extends-refl, Extends-trans, Extends-mono, Extends-In, >>=-Sends, give-Sends,
  lift-Sends, refuse_when-Sends, if-Sends, fail-Sends, guard-Sends,
}
use regbot.Github.Tags.{same_tags-occurs}
use regbot.Github.Requests.{Account, github_error, request, request_to}
use regbot.Github.Requests.Retries.{repeat, request-IsRetried}
use regbot.Github.Client.{
  get_method, delete_method, is_changed, accepted, version_path, version, delete_current,
  delete_version,
}

-- The version is as it was planned: it has the digest and the time of the plan, unless the plan has
-- none, and the tags of the plan, each as often.
pub record IsAsPlanned (wanted : DeleteRequest) (current : Artifact) : Type 0 where
  pub digest : (wanted.digest ≡ []) ⊎ (current.digest ≡ wanted.digest)
  pub time : (wanted.updated_at ≡ pos 0) ⊎ (current.updated_at ≡ wanted.updated_at)
  pub tags : (t : Str) → occurs t current.tags ≡ occurs t wanted.tags

unchanged :
    (current : Artifact) (wanted : DeleteRequest)
    → is_changed current wanted ≡ false
    → IsAsPlanned wanted current
unfolding is_changed
unchanged current wanted h = record {
  digest = elim (Bool-cases (is_empty wanted.digest)) [
    | inl e ↦ inl (is_empty→nil wanted.digest e)
    | inr e ↦ inr (str_eq→eq current.digest wanted.digest (ground (arith, h, e)))
  ];
  time = elim (Bool-cases (is_zero wanted.updated_at)) [
    | inl e ↦ inl (eq_of_parts wanted.updated_at (pos 0) (ground (arith, e)))
    | inr e ↦ inr (eq_of_parts current.updated_at wanted.updated_at (ground (arith, h, e)))
  ];
  tags = (same_tags-occurs current.tags wanted.tags).0 (ground arith);
}

module _ (oracle : Oracle) (account : Account) where
  repeat-Extends :
      (P : Request → Type 0) (q : Request)
      → P q
      → (n : ℕ) (h : History) → Extends P h (repeat n q h)
  repeat-Extends P q p zero h = Extends-refl P h
  repeat-Extends P q p (suc n) h =
      let (new, e, all) = repeat-Extends P q p n h in (q ∷ new, ap (λ t. q ∷ t) e, (p, all))

  request-Sends :
      (P : Request → Type 0) (method path : Str)
      → P (request_to oracle account method path)
      → Sends P (request oracle account method path)
  request-Sends P method path p = record {
    from = λ h.
        let (n, le, e, first) = request-IsRetried oracle account method path h in
        subst (Extends P h) (sym e)
          (repeat-Extends P (request_to oracle account method path) p n h);
  }

  abbrev IsRead : Request → Type 0
  IsRead q = q.method ≢ delete_method

  version-Sends : (path name : Str) → Sends IsRead (version oracle account path name)
  unfolding version
  version-Sends path name =
      >>=-Sends IsRead (request-Sends IsRead get_method path (λ e. not_delete e)) λ response.
        >>=-Sends IsRead (refuse_when-Sends IsRead _ _) λ u.
          >>=-Sends IsRead (refuse_when-Sends IsRead _ _)
            λ v. >>=-Sends IsRead (lift-Sends IsRead _) λ w. give-Sends IsRead _
    where
      not_delete : get_method ≡ delete_method → ⊥
      not_delete e = cc

  -- The request is for the version that was planned, which was as planned before.
  abbrev pub IsPlanned : DeleteRequest → Request → Type 0
  IsPlanned wanted q =
      (current : Artifact) × (before : History) × (version oracle account
          (version_path account wanted) wanted.repository []
        ≡ (done current, before))
      × IsAsPlanned wanted current
      × (q ≡ request_to oracle account delete_method (version_path account wanted))

  abbrev IsChecked : DeleteRequest → Request → Type 0
  IsChecked wanted q = q.method ≡ delete_method → IsPlanned wanted q

  accepted-Sends : (P : Request → Type 0) (r : Response) → Sends P (accepted r)
  accepted-Sends P r = if-Sends P (r.status == 204) (give-Sends P tt) (
      if-Sends P (r.status == 404) (fail-Sends P not_found)
        (if-Sends P (r.status == 409) (fail-Sends P precondition) (fail-Sends P (github_error r))))

  delete_current-Sends :
      (wanted : DeleteRequest) (current : Artifact) (before : History)
      → version oracle account (version_path account wanted) wanted.repository []
        ≡ (done current, before)
      → Sends (IsChecked wanted) (delete_current oracle account wanted current)
  unfolding delete_current
  delete_current-Sends wanted current before e = guard-Sends (IsChecked wanted) _ _ λ same.
      >>=-Sends (IsChecked wanted)
        (request-Sends (IsChecked wanted) delete_method _
          (λ del. (current, before, e, unchanged current wanted same, refl)))
        (accepted-Sends (IsChecked wanted))

  after_version :
      (wanted : DeleteRequest) (r : Answer Artifact × History)
      → version oracle account (version_path account wanted) wanted.repository [] ≡ r
      → Extends (IsChecked wanted) [] r.1
      → Extends (IsChecked wanted) [] (continue r (delete_current oracle account wanted)).1
  after_version wanted (done current, h) e x =
      Extends-trans (IsChecked wanted) [] h _ x ((delete_current-Sends wanted current h e).from h)
  after_version wanted (failed f, h) e x = x
  after_version wanted (endless, h) e x = x

  -- `Delete` sends a request to delete only for the version that was planned, and only if GitHub answered
  -- before that its tags are those of the plan, each as often, and so are its digest, unless the plan has an
  -- empty one, and its time, unless the plan has the zero time.
  pub delete_version-IsPlanned :
      (wanted : DeleteRequest) (q : Request)
      → In q (delete_version oracle account wanted []).1
      → q.method ≡ delete_method
      → IsPlanned wanted q
  unfolding delete_version ◌>>=◌
  delete_version-IsPlanned wanted q sent deletes =
      Extends-In (IsChecked wanted) _
        (after_version wanted _ refl (
          Extends-mono IsRead (IsChecked wanted) (λ q read del. absurd (read del)) [] _
            ((version-Sends (version_path account wanted) wanted.repository).from [])))
        q sent deletes
