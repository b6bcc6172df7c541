-- ===== src/Policy/Globs.antt =====
-- `MatchRepository` of pkg/policy/policy.go. `glob` is Go's `path.Match`, `none` for a bad pattern.
pub mod Matching
use regbot.Base.{Bool, true, false, List, [], ◌∷◌, Str, Option, none, some, is_empty, if◌then◌else◌}

-- `ok, _ := path.Match(pattern, repository)`
abbrev pub matched : Option Bool → Bool
matched none = false
matched (some b) = b

module _ (glob : Str → Str → Option Bool) (repository : Str) where
  abbrev pub include_from : Bool → List Str → Bool
  include_from included [] = included
  include_from included (pattern ∷ rest) =
      include_from (if matched (glob pattern repository) then true else included) rest

  abbrev pub exclude_from : Bool → List Str → Bool
  exclude_from included [] = included
  exclude_from included (pattern ∷ rest) =
      let others = exclude_from included rest in
      if matched (glob pattern repository) then false else others

  unfoldable pub match_repository : List Str → List Str → Bool
  match_repository includes excludes =
      exclude_from (include_from (is_empty includes) includes) excludes
