-- ===== src/Config/Validate.antt =====
-- `Config.Validate` of internal/config/config.go: the list of its errors, empty for a valid
-- configuration. `compile` is Go's `regexp.Compile`; `parses_cron` and `has_zone` say whether the
-- cron parser and `time.LoadLocation` accept a text.
use regbot.Base.{
  Bool, ◌&&◌, ◌||◌, not, List, [], ◌∷◌, ◌++◌, Str, Option, none, some, ok, err, codes, str_eq,
  str_mem, is_empty, if◌then◌else◌, Float64, pos, ltb_ℤ, leb_ℤ,
}
use regbot.Policy.Types.{Regexp}
use regbot.Policy.Calendar.{ParseError}
use regbot.Policy.Regex.{validate_regex_parser}
use regbot.Config.Types.{Registry, Target, Tags, Policy, Schedule, Webhook, Config}

pub data ConfigError : Type 0 where
  version_must_be_v1 no_registries : ConfigError
  endpoint_required owner_required bad_owner_type unsupported_provider : Str → ConfigError
  no_targets regex_not_allowed bad_pattern bad_parser : Str → ConfigError
  regex_parser : Str → ParseError → ConfigError
  delete_older_than_not_positive keep_newer_than_too_long keep_at_least_too_small :
      Str → ConfigError
  keep_latest_negative bad_group_by bad_count bad_percent : Str → ConfigError
  unknown_registry bad_tag_pattern : Str → Str → ConfigError
  bad_hook_type no_cron bad_cron no_timezone bad_timezone bad_timeout : ConfigError

-- `if bad { errs = append(errs, e) }`
abbrev pub when : Bool → ConfigError → List ConfigError
when bad e = if bad then e ∷ [] else []

abbrev pub is : Str → Str → Bool
is s t = str_eq s t

unfoldable pub registry_errors : Str → Registry → List ConfigError
registry_errors name r =
    if is r.provider (codes "oci")
    then when (is_empty r.endpoint) (endpoint_required name)
    else if is r.provider (codes "github")
    then when (is_empty r.owner || (is_empty r.token_env && is_empty r.token_file))
        (owner_required name)
      ++ when (not (is r.owner_type (codes "organization")) && not (is r.owner_type (codes "user")))
          (bad_owner_type name)
    else unsupported_provider name ∷ []

abbrev pub untagged_pattern : Str
untagged_pattern = codes "vYYYY.MM.DD.x"

abbrev pub app_pattern : Str
app_pattern = codes "vYYYY.MM.DD.x-{app}"

abbrev pattern_errors : Str → List Str → List ConfigError
pattern_errors name [] = []
pattern_errors name (p ∷ ps) =
    when (not (is p untagged_pattern) && not (is p app_pattern)) (bad_pattern name)
    ++ pattern_errors name ps

abbrev pub target_errors : Str → List Str → List Target → List ConfigError
target_errors name registries [] = []
target_errors name registries (t ∷ ts) =
    when (not (str_mem t.registry registries)) (unknown_registry name t.registry)
    ++ target_errors name registries ts

abbrev pub names {ℓ} : {A : Type ℓ} → List (Str × A) → List Str
names [] = []
names ((k, v) ∷ kvs) = k ∷ names kvs

module _ {F : Type 0} (f : Float64 F) (compile : Str → Option Regexp) where
  abbrev pub compile_errors : Str → List Str → List ConfigError
  compile_errors name [] = []
  compile_errors name (e ∷ es) =
      elim (compile e) [ none ↦ bad_tag_pattern name e ∷ [] | some r ↦ [] ]
      ++ compile_errors name es

  unfoldable pub parser_errors : Str → Tags → List ConfigError
  parser_errors name tags =
      if is tags.parser (codes "calendar")
      then when (not (is_empty tags.regex)) (regex_not_allowed name)
        ++ pattern_errors name tags.patterns
      else if is tags.parser (codes "custom_regex")
      then elim (validate_regex_parser compile tags.regex) [
        | ok _ ↦ []
        | err e ↦ regex_parser name e ∷ []
      ]
      else bad_parser name ∷ []

  -- `registries` holds the names of the configured registries.
  unfoldable pub policy_errors : List Str → Str → Policy F → List ConfigError
  policy_errors registries name p =
      when (is_empty p.targets) (no_targets name)
      ++ (parser_errors name p.tags
          ++ (when (leb_ℤ p.retention.delete_older_than (pos 0))
                (delete_older_than_not_positive name)
              ++ (when (ltb_ℤ p.retention.delete_older_than p.retention.keep_newer_than)
                    (keep_newer_than_too_long name)
                  ++ (when (ltb_ℤ p.retention.keep_at_least (pos 1)) (keep_at_least_too_small name)
                      ++ (when (ltb_ℤ p.retention.keep_latest (pos 0)) (keep_latest_negative name)
                          ++ (when
                                (not (is_empty p.retention.group_by)
                                  && not (is p.retention.group_by (codes "app")))
                                (bad_group_by name)
                              ++ (when (leb_ℤ p.safety.max_delete_count (pos 0)) (bad_count name)
                                  ++ (when
                                        (f.le p.safety.max_delete_percent (f.of_int (pos 0))
                                          || f.lt (f.of_int (pos 100)) p.safety.max_delete_percent)
                                        (bad_percent name)
                                      ++ (target_errors name registries p.targets
                                          ++ compile_errors name p.protect.tag_patterns)))))))))

  abbrev pub all_registry_errors : List (Str × Registry) → List ConfigError
  all_registry_errors [] = []
  all_registry_errors ((name, r) ∷ rs) = registry_errors name r ++ all_registry_errors rs

  abbrev pub all_policy_errors : List Str → List (Str × Policy F) → List ConfigError
  all_policy_errors registries [] = []
  all_policy_errors registries ((name, p) ∷ ps) =
      policy_errors registries name p ++ all_policy_errors registries ps

  abbrev hook_errors : Option Webhook → List ConfigError
  hook_errors none = []
  hook_errors (some w) = when (not (is w.type (codes "webhook"))) bad_hook_type

  module _ (parses_cron : Str → Bool) (has_zone : Str → Bool) where
    abbrev schedule_errors : Option Schedule → List ConfigError
    schedule_errors none = []
    schedule_errors (some s) =
        (if is_empty s.cron then no_cron ∷ [] else when (not (parses_cron s.cron)) bad_cron)
        ++ ((if is_empty s.timezone
              then no_timezone ∷ []
              else when (not (has_zone s.timezone)) bad_timezone)
            ++ when (ltb_ℤ s.timeout (pos 0)) bad_timeout)

    unfoldable pub validate : Config F → List ConfigError
    unfolding policy_errors registry_errors parser_errors
    validate c =
        when (not (is c.version (codes "v1"))) version_must_be_v1
        ++ (when (is_empty c.registries) no_registries
            ++ (all_registry_errors c.registries
                ++ (all_policy_errors (names c.registries) c.policies
                    ++ (hook_errors c.hooks.after_apply ++ schedule_errors c.schedule))))
