-- ===== src/Oci/Client/Grouping.antt =====
-- What `listRepository` of internal/provider/oci/oci.go makes of the tags of a repository.
use regbot.Base.{
  Bool, true, false, ◌||◌, ℕ, ◌+◌, ◌≤◌, List, [], ◌∷◌, ◌++◌, Str, str_eq, str_lt, str_mem, is_empty,
  ◌≡◌, refl, arith, ap, sym, ◌∙◌, any, count, Bool-cases, inl, inr, ltb, str_mem-append, str_eq_iff,
  slice_stable, count-slice_stable, count-append, codes, occurs-zero, occurs-pos, length, ◌==◌,
  length-slice_stable, subst, append-nil, append_assoc,
}
use regbot.Provider.{Artifact}
use regbot.Http.{done, History, >>=-eq-done, Oracle, give}
use regbot.Oci.Links.{escape_repository}
use regbot.Oci.Requests.{Site}
use regbot.Oci.Referrers.{referrers}
use regbot.Oci.Client.{
  add_tagged, digest_before, resolve, resolve_tags, listing, completed, add_referrers,
  list_repository,
}

abbrev pub has_tag : Str → Artifact → Bool
has_tag t a = str_mem t a.tags

abbrev pub has_digest : Str → Artifact → Bool
has_digest d a = str_eq d a.digest

abbrev pub untagged : Artifact → Bool
untagged a = is_empty a.tags

-- The artifacts stand for these tags: each has a digest of its own and some tag, and together they have
-- just these.
pub record IsGrouped (tags : List Str) (artifacts : List Artifact) : Type 0 where
  pub same_tags : (t : Str) → any (has_tag t) artifacts ≡ str_mem t tags
  pub own_digest : (d : Str) → count (has_digest d) artifacts ≤ 1
  pub tagged : count untagged artifacts ≡ 0

any-add_tagged :
    (t tag : Str) (a : Artifact) (acc : List Artifact)
    → any (has_tag t) (add_tagged a tag acc) ≡ (any (has_tag t) acc || str_eq t tag)
any-add_tagged t tag a [] = ground arith
any-add_tagged t tag a (x ∷ acc) = elim (Bool-cases (str_eq x.digest a.digest)) [
  | inl e ↦ rw e (ground (arith, str_mem-append t x.tags (tag ∷ [])))
  | inr e ↦ rw e (ground (arith, any-add_tagged t tag a acc))
]

count_own :
    (d tag : Str) (a : Artifact) (acc : List Artifact)
    → str_eq d a.digest ≡ true
    → count (has_digest d) acc ≤ 1
    → count (has_digest d) (add_tagged a tag acc) ≤ 1
count_own d tag a [] h le = ground arith
count_own d tag a (x ∷ acc) h le = elim (Bool-cases (str_eq x.digest a.digest)) [
  | inl e ↦ rw e (ground arith)
  | inr e ↦ rw e (
      ground (
        arith,
        count_own d tag a acc,
        str_eq_iff d a.digest,
        str_eq_iff d x.digest,
        str_eq_iff x.digest a.digest,
      ))
]

count_other :
    (d tag : Str) (a : Artifact) (acc : List Artifact)
    → str_eq d a.digest ≡ false
    → count (has_digest d) (add_tagged a tag acc) ≡ count (has_digest d) acc
count_other d tag a [] h = ground arith
count_other d tag a (x ∷ acc) h = elim (Bool-cases (str_eq x.digest a.digest)) [
  | inl e ↦ rw e (ground arith)
  | inr e ↦ rw e (ground (arith, count_other d tag a acc))
]

is_empty-append : (tags : List Str) (tag : Str) → is_empty (tags ++ tag ∷ []) ≡ false
is_empty-append [] tag = refl
is_empty-append (t ∷ tags) tag = refl

count-untagged :
    (tag : Str) (a : Artifact) (acc : List Artifact)
    → count untagged (add_tagged a tag acc) ≤ count untagged acc
count-untagged tag a [] = omega arith
count-untagged tag a (x ∷ acc) = elim (Bool-cases (str_eq x.digest a.digest)) [
  | inl e ↦ rw (e, is_empty-append x.tags tag) (omega arith)
  | inr e ↦ rw e (omega (arith, count-untagged tag a acc))
]

add_tagged-IsGrouped :
    (tags : List Str) (acc : List Artifact) (a : Artifact) (tag : Str)
    → IsGrouped tags acc
    → IsGrouped (tags ++ tag ∷ []) (add_tagged a tag acc)
add_tagged-IsGrouped tags acc a tag g = record {
  same_tags = λ t.
      ground (arith, any-add_tagged t tag a acc, g.same_tags t, str_mem-append t tags (tag ∷ []));
  own_digest = λ d. elim (Bool-cases (str_eq d a.digest)) [
    | inl e ↦ count_own d tag a acc e (g.own_digest d)
    | inr e ↦ rw (count_other d tag a acc e) (g.own_digest d)
  ];
  tagged = omega (arith, g.tagged, count-untagged tag a acc);
}

str_mem-slice_stable :
    (t : Str) (tags : List Str) → str_mem t (slice_stable str_lt tags) ≡ str_mem t tags
str_mem-slice_stable t tags = ground (
  arith,
  count-slice_stable str_lt (str_eq t) tags,
  occurs-zero t tags,
  occurs-pos t tags,
  occurs-zero t (slice_stable str_lt tags),
  occurs-pos t (slice_stable str_lt tags),
)

is_empty-length : (tags : List Str) → is_empty tags ≡ (length tags == 0)
is_empty-length [] = refl
is_empty-length (t ∷ tags) = ground arith

is_empty-slice_stable : (tags : List Str) → is_empty (slice_stable str_lt tags) ≡ is_empty tags
is_empty-slice_stable tags =
    is_empty-length (slice_stable str_lt tags)
    ∙ (ap (λ n. n == 0) (length-slice_stable str_lt tags) ∙ sym (is_empty-length tags))

any-count : (p : Artifact → Bool) (xs : List Artifact) → any p xs ≡ ltb 0 (count p xs)
any-count p [] = ground arith
any-count p (x ∷ xs) = ground (arith, any-count p xs)

-- The order of the visit is one of all artifacts.
abbrev pub VisitsEach : (List Artifact → List Artifact) → Type 0
VisitsEach visit_order =
    (p : Artifact → Bool) (artifacts : List Artifact)
    → count p (visit_order artifacts) ≡ count p artifacts

give-done :
    {A : Type 0} (x : A) (h : History) {y : A} {h' : History} → give x h ≡ (done y, h') → x ≡ y
unfolding give
give-done x h e = cc

module _ (oracle : Oracle) (site : Site) where
  resolve_tags-IsGrouped :
      (repository : Str) (before tags : List Str) (acc : List Artifact) (h : History)
      {result : List Artifact} {h' : History}
      → IsGrouped before acc
      → resolve_tags oracle site repository tags acc h ≡ (done result, h')
      → IsGrouped (before ++ tags) result
  unfolding resolve_tags give
  resolve_tags-IsGrouped repository before [] acc h {result} g e =
      subst (λ ts. IsGrouped ts result) (sym (append-nil before))
        (subst (IsGrouped before) (give-done acc h e) g)
  resolve_tags-IsGrouped repository before (tag ∷ tags) acc h {result} g e =
      let (a, h1, found, rest) = >>=-eq-done (resolve oracle site repository tag) _ h e in
      subst (λ ts. IsGrouped ts result) (append_assoc before (tag ∷ []) tags)
        (resolve_tags-IsGrouped repository (before ++ tag ∷ []) tags (add_tagged a tag acc) h1
          (add_tagged-IsGrouped before acc a tag g) rest)

  add_referrers-count :
      (p : Artifact → Bool)
      → ((a : Artifact) (ids : List Str) → p (completed oracle site a ids) ≡ p a)
      → (repository : Str) (artifacts result : List Artifact) (h : History) {found : List Artifact}
        {h' : History}
      → add_referrers oracle site repository artifacts result h ≡ (done found, h')
      → count p found ≡ count p result + count p artifacts
  unfolding add_referrers give
  add_referrers-count p same repository [] result h e =
      omega (arith, ap (count p) (give-done result h e))
  add_referrers-count p same repository (a ∷ others) result h e =
      let (ids, h1, answered, rest) =
        >>=-eq-done (referrers oracle site repository a.digest) _ h e in
      ground (
        arith,
        add_referrers-count p same repository others (result ++ completed oracle site a ids ∷ []) h1
            rest,
        count-append p result (completed oracle site a ids ∷ []),
        same a ids,
      )

  -- Sorting, completing and visiting the artifacts changes none of these counts.
  stand_for :
      {tags : List Str} {by_digest artifacts : List Artifact}
      → IsGrouped tags by_digest
      → ((p : Artifact → Bool)
          → ((a : Artifact) (ids : List Str) → p (completed oracle site a ids) ≡ p a)
          → count p artifacts ≡ count p by_digest)
      → IsGrouped tags artifacts
  stand_for {tags} {by_digest} {artifacts} g counts = record {
    same_tags = λ t. rw any-count (
        rw (counts (has_tag t) (λ a ids. str_mem-slice_stable t a.tags))
          (sym (any-count (has_tag t) by_digest) ∙ g.same_tags t));
    own_digest = λ d. rw (counts (has_digest d) (λ a ids. refl)) (g.own_digest d);
    tagged = counts untagged (λ a ids. is_empty-slice_stable a.tags) ∙ g.tagged;
  }

  -- What `listRepository` returns stands for the tags that the registry lists: together the artifacts have
  -- just these tags, each has one at least, and no two have the same digest.
  pub list_repository-IsGrouped :
      (visits : VisitsEach site.visit_order) (rounds : ℕ) (repository : Str) (h h' : History)
      (artifacts : List Artifact)
      → list_repository oracle site rounds repository h ≡ (done artifacts, h')
      → (tags : List Str) × (h1 : History) × (listing oracle site rounds
            (codes "/v2/" ++ (escape_repository repository ++ codes "/tags/list?n=100"))
            h
          ≡ (done tags, h1))
        × IsGrouped tags artifacts
  unfolding list_repository give
  list_repository-IsGrouped visits rounds repository h h' artifacts e =
      let (tags, h1, listed, e1) = >>=-eq-done (listing oracle site rounds _) _ h e in
      let (by_digest, h2, grouped, e2) =
        >>=-eq-done (resolve_tags oracle site repository tags []) _ h1 e1 in
      let (found, h3, completes, e3) =
        >>=-eq-done (add_referrers oracle site repository (site.visit_order by_digest) []) _ h2
          e2 in
      let g = resolve_tags-IsGrouped repository [] tags [] h1 nothing grouped in
      (
        tags,
        h1,
        listed,
        stand_for (resolve_tags-IsGrouped repository [] tags [] h1 nothing grouped) (λ p same.
            omega (
              arith,
              ap (count p) (give-done (slice_stable digest_before found) h3 e3),
              count-slice_stable digest_before p found,
              add_referrers-count p same repository (site.visit_order by_digest) [] h2 completes,
              visits p by_digest,
            )),
      )
    where
      nothing : IsGrouped [] []
      nothing = record { same_tags = λ t. refl; own_digest = λ d. omega arith; tagged = refl }
