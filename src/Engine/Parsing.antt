-- ===== src/Engine/Parsing.antt =====
-- `parseArtifact` and `patternAllows` of internal/engine/engine.go.
use regbot.Base.{
  Bool, false, ◌&&◌, ◌||◌, not, List, [], ◌∷◌, ◌++◌, Str, Option, none, some, Result, ok, err,
  codes, str_eq, is_empty, if◌then◌else◌, ltb, slice_stable,
}
use regbot.Provider.{Artifact, Version, time_eq, after}
use regbot.Policy.Types.{Regexp}
use regbot.Policy.Calendar.{ParseError, parse_calendar}
use regbot.Policy.Regex.{parse_regex}
use regbot.Config.Types.{Tags}
use regbot.Config.Validate.{untagged_pattern, app_pattern}

abbrev allows : Version → List Str → Bool
allows version [] = false
allows version (p ∷ ps) =
    (str_eq p untagged_pattern && is_empty version.app)
    || (str_eq p app_pattern && not (is_empty version.app))
    || allows version ps

unfoldable pub pattern_allows : Version → List Str → Bool
pattern_allows version patterns = is_empty patterns || allows version patterns

-- The order of the parsed versions: the newest date first, then the highest sequence.
abbrev pub later : Version → Version → Bool
later a b = if not (time_eq a.date b.date) then after a.date b.date else ltb b.sequence a.sequence

module _ (compile : Str → Option Regexp) where
  -- `none` is the error of a parser that there is not.
  unfoldable pub parse_tag : Tags → Str → Option (Result ParseError Version)
  parse_tag tags tag =
      if str_eq tags.parser (codes "calendar")
      then some (parse_calendar tag)
      else if str_eq tags.parser (codes "custom_regex")
      then some (parse_regex compile tag tags.regex)
      else none

  abbrev keep_version : Tags → Result ParseError Version → List Version → List Version
  keep_version tags (ok v) vs = if pattern_allows v tags.patterns then vs ++ v ∷ [] else vs
  keep_version tags (err e) vs = vs

  parse_tags : Tags → List Str → List Version → Option (List Version)
  parse_tags tags [] vs = some vs
  parse_tags tags (t ∷ ts) vs = elim (parse_tag tags t) [
    | none ↦ none
    | some r ↦ parse_tags tags ts (keep_version tags r vs)
  ]

  unfoldable pub parse_artifact : Artifact → Tags → Option Artifact
  unfolding parse_tags parse_tag
  parse_artifact a tags = elim (parse_tags tags a.tags []) [
    | none ↦ none
    | some vs ↦ some (record a { parsed_versions = slice_stable later vs })
  ]
