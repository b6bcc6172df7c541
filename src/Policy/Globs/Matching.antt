-- ===== src/Policy/Globs/Matching.antt =====
-- `MatchRepository` of pkg/policy/policy.go, without its loops.
use regbot.Base.{
  Bool, true, not, ◌&&◌, ◌||◌, List, [], ◌∷◌, Str, Option, ◌≡◌, refl, arith, is_empty, any,
  Bool-cases, inl, inr,
}
use regbot.Policy.Globs.{matched, include_from, exclude_from, match_repository}

module _ (glob : Str → Str → Option Bool) (repository : Str) where
  abbrev pub matches : Str → Bool
  matches pattern = matched (glob pattern repository)

  include_from-any :
      (included : Bool) (patterns : List Str)
      → include_from glob repository included patterns ≡ (included || any matches patterns)
  include_from-any included [] = ground arith
  include_from-any included (p ∷ ps) = elim (Bool-cases (matches p)) [
    | inl e ↦ rw (e, include_from-any true ps) (ground arith)
    | inr e ↦ rw (e, include_from-any included ps) (ground arith)
  ]

  exclude_from-any :
      (included : Bool) (patterns : List Str)
      → exclude_from glob repository included patterns ≡ (included && not (any matches patterns))
  exclude_from-any included [] = ground arith
  exclude_from-any included (p ∷ ps) = elim (Bool-cases (matches p)) [
    | inl e ↦ rw e (ground arith)
    | inr e ↦ rw (e, exclude_from-any included ps) (ground arith)
  ]

  -- A repository matches if there are no includes or one of them matches, and no exclude matches.
  match_repository-any :
      (includes excludes : List Str)
      → match_repository glob repository includes excludes
        ≡ ((is_empty includes || any matches includes) && not (any matches excludes))
  unfolding match_repository
  match_repository-any includes excludes =
      rw
        (
          exclude_from-any (include_from glob repository (is_empty includes) includes) excludes,
          include_from-any (is_empty includes) includes,
        )
        refl
