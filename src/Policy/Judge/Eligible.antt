-- ===== src/Policy/Judge/Eligible.antt =====
-- What it takes for `Evaluate` of pkg/policy/policy.go to choose an artifact for deletion, as
-- propositions about the artifact, the rule, the time and the rank.
use regbot.Base.{
  Bool, true, false, ◌&&◌, ◌||◌, not, ℕ, List, [], ◌∷◌, ℤ, pos, ltb_ℤ, is_empty, str_mem, ◌≡◌, refl,
  arith, sym, ◌∙◌, ◌≢◌, ◌↔◌, In, here, there, Bool-cases, inl, inr, any, any-false→, any-false←,
  str_mem→In, In→str_mem, is_empty-ne, ne→is_empty, length, str_eq, str_eq→eq, eq→str_eq, ne→str_eq,
  subst, ◌≤ℤ◌, ◌<ℤ◌, ◌≤◌, Str, is_empty→nil, ap,
}
use regbot.Provider.{Artifact, Time, Version}
use regbot.Policy.Types.{Reason, Regexp, Rule, Decision}
use regbot.Policy.Order.{has_multiple_apps, protected_tag, artifact_age, group_app, collect_apps}
use regbot.Policy.Judge.{settle, judge}
use regbot.Policy.Judge.Laws.{
  protections, AreClear, fires_any→AreClear, AreClear→fires_any, is_old, judge_lem,
}

-- No tag is protected by its text or by a pattern.
abbrev pub TagsAreFree : {F : Type 0} → Rule F → List Str → Type 0
TagsAreFree rule tags =
    (t : Str)
    → In t tags
    → (¬ In t rule.protected_tags)
      × ((p : Regexp) → In p rule.protected_patterns → p.match_string t ≡ false)

-- All versions belong to one app.
abbrev pub HasOneApp : List Version → Type 0
HasOneApp vs = (v w : Version) → In v vs → In w vs → group_app v ≡ group_app w

pub record IsEligible {F : Type 0} (rule : Rule F) (now : Time) (rank : ℕ) (a : Artifact)
    : Type 0 where
  pub tagged : rule.require_tagged ≡ true → a.tags ≢ []
  pub parsed : rule.protect_unparsed ≡ true → a.parsed_versions ≢ []
  pub tags_free : TagsAreFree rule a.tags
  pub digest_free : a.digest ≢ [] → ¬ In a.digest rule.protected_digests
  pub unreferred : a.referrer_ids ≡ []
  pub one_app : HasOneApp a.parsed_versions
  pub not_recent : pos 0 <ℤ rule.keep_newer_than → rule.keep_newer_than ≤ℤ artifact_age a now
  pub not_latest : rule.keep_latest ≤ℤ pos rank
  pub not_minimum : rule.keep_at_least ≤ℤ pos rank
  pub selects : pos 0 <ℤ rule.delete_older_than
  pub is_old_enough : rule.delete_older_than ≤ℤ artifact_age a now

collect_apps-length :
    (apps : List Str) (vs : List Version) → length apps ≤ length (collect_apps apps vs)
collect_apps-length apps [] = omega arith
collect_apps-length apps (v ∷ vs) = elim (Bool-cases (str_mem (group_app v) apps)) [
  | inl e ↦ rw e (collect_apps-length apps vs)
  | inr e ↦ rw e (omega (arith, collect_apps-length (group_app v ∷ apps) vs))
]

one_app→ :
    (x : Str) (vs : List Version)
    → length (collect_apps (x ∷ []) vs) ≤ 1
    → (v : Version) → In v vs
    → group_app v ≡ x
one_app→ x [] h v m = elim m [ ]
one_app→ x (w ∷ vs) h v m = elim (Bool-cases (str_eq (group_app w) x)) [
  | inl e ↦ first_or_rest e m (one_app→ x vs (rw e at h) v)
  | inr e ↦ absurd (omega (arith, collect_apps-length (group_app w ∷ x ∷ []) vs, many e))
]
  where
    many : str_eq (group_app w) x ≡ false → length (collect_apps (group_app w ∷ x ∷ []) vs) ≤ 1
    many e = rw e at h

    first_or_rest :
        str_eq (group_app w) x ≡ true
        → In v (w ∷ vs)
        → (In v vs → group_app v ≡ x)
        → group_app v ≡ x
    first_or_rest e (here p) rest = ap group_app p ∙ str_eq→eq (group_app w) x e
    first_or_rest e (there m') rest = rest m'

one_app← :
    (x : Str) (vs : List Version)
    → ((v : Version) → In v vs → group_app v ≡ x)
    → length (collect_apps (x ∷ []) vs) ≡ 1
one_app← x [] h = refl
one_app← x (w ∷ vs) h =
    rw (eq→str_eq (group_app w) x (h w (here refl))) (one_app← x vs (λ v m. h v (there m)))

pub multiple→HasOneApp : (vs : List Version) → has_multiple_apps vs ≡ false → HasOneApp vs
unfolding has_multiple_apps
multiple→HasOneApp [] h v w m n = elim m [ ]
multiple→HasOneApp (x ∷ vs) h v w m n = like_first v m ∙ sym (like_first w n)
  where
    like_first : (u : Version) → In u (x ∷ vs) → group_app u ≡ group_app x
    like_first u (here p) = ap group_app p
    like_first u (there k) = one_app→ (group_app x) vs (ground arith) u k

pub HasOneApp→multiple : (vs : List Version) → HasOneApp vs → has_multiple_apps vs ≡ false
unfolding has_multiple_apps
HasOneApp→multiple [] h = refl
HasOneApp→multiple (x ∷ vs) h = rw (one_app← (group_app x) vs (λ v m. h v x (there m) (here refl)))

module _ {F : Type 0} (rule : Rule F) where
  protected_tag→TagsAreFree :
      (tags : List Str) → protected_tag tags rule ≡ false → TagsAreFree rule tags
  unfolding protected_tag
  protected_tag→TagsAreFree tags h t m =
      (not_listed, any-false→ _ rule.protected_patterns none_match)
    where
      neither :
          (any (λ wanted. str_eq t wanted) rule.protected_tags
            || any (λ (pattern : Regexp). pattern.match_string t) rule.protected_patterns)
          ≡ false
      neither = any-false→ _ tags h t m

      none_listed : any (λ wanted. str_eq t wanted) rule.protected_tags ≡ false
      none_listed = ground (arith, neither)

      none_match :
          any (λ (pattern : Regexp). pattern.match_string t) rule.protected_patterns ≡ false
      none_match = ground (arith, neither)

      not_listed : ¬ In t rule.protected_tags
      not_listed k = cc (any-false→ _ rule.protected_tags none_listed t k, eq→str_eq t t refl)

  TagsAreFree→protected_tag :
      (tags : List Str) → TagsAreFree rule tags → protected_tag tags rule ≡ false
  unfolding protected_tag
  TagsAreFree→protected_tag tags h = any-false← _ tags λ t m. ground (
    arith,
    any-false← (λ wanted. str_eq t wanted) rule.protected_tags
        (λ w k. ne→str_eq t w (λ e. (h t m).0 (subst (λ u. In u rule.protected_tags) (sym e) k))),
    any-false← (λ (pattern : Regexp). pattern.match_string t) rule.protected_patterns (h t m).1,
  )

nand : (p q : Bool) → p && q ≡ false → q ≡ true → p ≡ false
nand p q h e = ground arith

nand' : (p q : Bool) → (p ≡ true → q ≡ true → ⊥) → p && q ≡ false
nand' true true h = absurd (h refl refl)
nand' true false h = refl
nand' false q h = refl

at_least : (a b : ℤ) → ltb_ℤ a b ≡ false → b ≤ℤ a
at_least a b h = ground arith

not_below : (a b : ℤ) → b ≤ℤ a → ltb_ℤ a b ≡ false
not_below a b h = ground arith

window : (k age : ℤ) → ltb_ℤ (pos 0) k && ltb_ℤ age k ≡ false → pos 0 <ℤ k → k ≤ℤ age
window k age h p = ground arith

window' : (k age : ℤ) → (pos 0 <ℤ k → k ≤ℤ age) → ltb_ℤ (pos 0) k && ltb_ℤ age k ≡ false
window' k age h = ground arith

settle-delete :
    (eligible : Bool) (d : Decision) (rs : List Reason) (p : Bool)
    → d.delete ≡ false
    → (settle eligible d (rs, p)).delete ≡ true
    → (p ≡ false) × (eligible ≡ true)
settle-delete eligible d rs true fresh h = cc
settle-delete true d rs false fresh h = (refl, refl)
settle-delete false d rs false fresh h = cc

module _ {F : Type 0} (rule : Rule F) (now : Time) (rank : ℕ) where
  pub clear→IsEligible :
      (a : Artifact)
      → AreClear (protections rule now rank a)
      → is_old rule now a ≡ true
      → IsEligible rule now rank a
  clear→IsEligible a (c1, (c2, (c3, (c4, (c5, (c6, (c7, (c8, (c9, (c10, _)))))))))) old = record {
    tagged = λ r. is_empty-ne a.tags (nand _ _ c1 r);
    parsed = λ r. is_empty-ne a.parsed_versions (nand _ _ c2 r);
    tags_free = protected_tag→TagsAreFree rule a.tags c3;
    digest_free = λ e m. cc (
      In→str_mem a.digest rule.protected_digests m,
      nand (str_mem a.digest rule.protected_digests) (not (is_empty a.digest)) c4
          (ap not (ne→is_empty a.digest e)),
    );
    unreferred = is_empty→nil a.referrer_ids (ground (arith, c5));
    one_app = multiple→HasOneApp a.parsed_versions c6;
    not_recent = window rule.keep_newer_than (artifact_age a now) c7;
    not_latest = at_least (pos rank) rule.keep_latest c8;
    not_minimum = at_least (pos rank) rule.keep_at_least c9;
    selects = ground (arith, old);
    is_old_enough = ground (arith, old);
  }

  pub IsEligible→clear :
      (a : Artifact) → IsEligible rule now rank a → AreClear (protections rule now rank a)
  IsEligible→clear a e = (
    nand' _ _ (λ none r. e.tagged r (is_empty→nil a.tags none)),
    (
      nand' _ _ (λ none r. e.parsed r (is_empty→nil a.parsed_versions none)),
      (
        TagsAreFree→protected_tag rule a.tags e.tags_free,
        (
          nand' _ _ (λ m full.
              e.digest_free (is_empty-ne a.digest (ground (arith, full)))
                (str_mem→In a.digest rule.protected_digests m)),
          (
            rw e.unreferred,
            (
              HasOneApp→multiple a.parsed_versions e.one_app,
              (
                window' rule.keep_newer_than (artifact_age a now) e.not_recent,
                (
                  not_below (pos rank) rule.keep_latest e.not_latest,
                  (
                    not_below (pos rank) rule.keep_at_least e.not_minimum,
                    (
                      window' rule.delete_older_than (artifact_age a now) (λ _. e.is_old_enough),
                      tt,
                    ),
                  ),
                ),
              ),
            ),
          ),
        ),
      ),
    ),
  )

  IsEligible→is_old : (a : Artifact) → IsEligible rule now rank a → is_old rule now a ≡ true
  IsEligible→is_old a e = ground (arith, e.selects, e.is_old_enough)

  -- The loop body chooses an artifact for deletion exactly when it is eligible: it meets none of
  -- the ten protections, and `delete_older_than` is positive and reached by its age.
  pub judge-IsEligible :
      (d : Decision)
      → d.delete ≡ false
      → ((judge rule now rank d).delete ≡ true) ↔ IsEligible rule now rank d.artifact
  judge-IsEligible d fresh = rw judge_lem (
    λ chosen.
        let (clear, old) = settle-delete (is_old rule now d.artifact) d _ _ fresh chosen in
        clear→IsEligible d.artifact
          (fires_any→AreClear (protections rule now rank d.artifact) clear) old,
    λ e. rw (
      AreClear→fires_any (protections rule now rank d.artifact) (IsEligible→clear d.artifact e),
      IsEligible→is_old d.artifact e,
    ),
  )
