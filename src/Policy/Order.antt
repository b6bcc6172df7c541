-- ===== src/Policy/Order.antt =====
-- The helpers of `Evaluate` in pkg/policy/policy.go: `hasMultipleApps`, `protectedTag`,
-- `artifactAge` and `newer`.
use regbot.Base.{
  Bool, ◌||◌, List, [], ◌∷◌, Str, ltb, if◌then◌else◌, length, any, is_empty, str_eq, str_lt,
  str_mem, not, ◌==◌,
}
use regbot.Provider.{Artifact, Version, Time, Duration, is_zero, time_eq, after, sub_time}
use regbot.Policy.Types.{Regexp, Rule, default_group}

-- The app of a version, `_default` for none.
abbrev pub group_app : Version → Str
group_app v = if is_empty v.app then default_group else v.app

-- A set of texts, as `map[string]struct{}`.
abbrev pub insert_app : Str → List Str → List Str
insert_app app apps = if str_mem app apps then apps else app ∷ apps

abbrev pub collect_apps : List Str → List Version → List Str
collect_apps apps [] = apps
collect_apps apps (v ∷ vs) = collect_apps (insert_app (group_app v) apps) vs

unfoldable pub has_multiple_apps : List Version → Bool
has_multiple_apps versions = ltb 1 (length (collect_apps [] versions))

module _ {F : Type 0} where
  unfoldable pub protected_tag : List Str → Rule F → Bool
  protected_tag tags rule =
      any
        (λ tag.
          any (λ wanted. str_eq tag wanted) rule.protected_tags
          || any (λ (pattern : Regexp). pattern.match_string tag) rule.protected_patterns)
        tags

unversioned_age : Artifact → Time → Duration
unversioned_age a now =
    if not (is_zero a.updated_at) then sub_time now a.updated_at else sub_time now a.created_at

abbrev age_of : List Version → Artifact → Time → Duration
age_of [] a now = unversioned_age a now
age_of (v ∷ vs) a now = sub_time now v.date

unfoldable pub artifact_age : Artifact → Time → Duration
unfolding unversioned_age
artifact_age a now = age_of a.parsed_versions a now

-- What is left to compare when the versions do not decide.
abbrev newer_version : Version → Version → Bool → Bool
newer_version av bv by_id =
    if not (time_eq av.date bv.date)
    then after av.date bv.date
    else if not (av.sequence == bv.sequence)
    then ltb bv.sequence av.sequence
    else if not (str_eq av.tag bv.tag)
    then str_lt bv.tag av.tag
    else by_id

abbrev pub newer_of : List Version → List Version → Bool → Bool
newer_of (av ∷ avs) (bv ∷ bvs) by_id = newer_version av bv by_id
newer_of avs bvs by_id = by_id

unfoldable pub newer : Artifact → Artifact → Bool
newer a b = newer_of a.parsed_versions b.parsed_versions (str_lt b.id a.id)
