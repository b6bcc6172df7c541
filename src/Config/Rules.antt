-- ===== src/Config/Rules.antt =====
-- `Policy.Rule` of internal/config/config.go. `compile` is Go's `regexp.Compile`.
use regbot.Base.{
  Bool, true, List, [], ◌∷◌, Str, Option, none, some, codes, str_eq, str_mem, if◌then◌else◌,
}
use regbot.Policy.Types.{Regexp, Rule}
use regbot.Config.Types.{Policy}

abbrev pub or_default : Bool → Option Bool → Bool
or_default b none = b
or_default b (some c) = c

-- A set of texts, as `map[string]struct{}`.
abbrev pub to_set : List Str → List Str → List Str
to_set seen [] = seen
to_set seen (d ∷ ds) = to_set (if str_mem d seen then seen else d ∷ seen) ds

-- The rule with its compiled patterns.
abbrev pub rule_with : {F : Type 0} → Policy F → Str → List Regexp → Rule F
rule_with p name patterns = record {
  name = name;
  keep_newer_than = p.retention.keep_newer_than;
  delete_older_than = p.retention.delete_older_than;
  keep_latest = p.retention.keep_latest;
  keep_at_least = p.retention.keep_at_least;
  group_by_app = str_eq p.retention.group_by (codes "app");
  protected_tags = p.protect.tags;
  protected_patterns = patterns;
  protected_digests = to_set [] p.protect.digests;
  protect_unparsed = or_default true p.protect.unparsed_tags;
  require_tagged = or_default true p.safety.require_tagged;
  max_delete_count = p.safety.max_delete_count;
  max_delete_percent = p.safety.max_delete_percent;
}

module _ (compile : Str → Option Regexp) where
  -- The loop over the tag patterns; the first that does not compile ends it.
  unfoldable pub compile_all : List Str → Option (List Regexp)
  compile_all [] = some []
  compile_all (expression ∷ rest) = elim (compile expression) [
    | none ↦ none
    | some compiled ↦ elim (compile_all rest) [ none ↦ none | some more ↦ some (compiled ∷ more) ]
  ]

  -- `none` is the error of a pattern that does not compile.
  unfoldable pub rule_of : {F : Type 0} → Policy F → Str → Option (Rule F)
  rule_of p name = elim (compile_all p.protect.tag_patterns) [
    | none ↦ none
    | some patterns ↦ some (rule_with p name patterns)
  ]
