-- ===== src/Engine/Planning.antt =====
-- `Engine.Plan` of internal/engine/engine.go. A Go map of actions is an
-- association list, a set a list, each with distinct keys.
pub mod Trace
pub mod Sound
pub mod Unanimous
pub mod Numbers
pub mod Limits
pub mod Exact
use regbot.Base.{
  Bool, true, false, not, ℕ, suc, ◌*◌, ◌^◌, List, [], ◌∷◌, ◌++◌, Str, Option, none, some, Result,
  ok, err, codes, str_eq, str_lt, str_mem, is_empty, if◌then◌else◌, ◌>>=◌, Float64, ℤ, pos, ◌+ℤ◌,
  length, slice_stable, ◌>>◌, refuse_if, require, wrap,
}
use regbot.Provider.{Artifact, Time, Client, Capabilities, ProviderError}
use regbot.Plan.{Action, Plan, format_version}
use regbot.Policy.Types.{Regexp, Rule, Decision, reason_code}
use regbot.Policy.Evaluate.{evaluate}
use regbot.Config.Types.{Policy, Target, Tags, Config}
use regbot.Config.Rules.{rule_of}
use regbot.Config.Validate.{names}
use regbot.Engine.Parsing.{parse_artifact}
use regbot.Engine.Safety.{SafetyLimit, SafetyError, validate_limit}
use regbot.Engine.State.{
  Actions, PlanState, Tally, mark_all, unprotect, actions_of, key_before, no_state, consider_all,
  no_tally,
}

pub data PlanError : Type 0 where
  bad_rule : Str → PlanError
  -- A registry that is not configured: a call of a nil interface.
  nil_client : Str → PlanError
  discovery : Str → Str → ProviderError → PlanError
  no_artifacts : Str → Str → PlanError
  unsupported_parser : Str → PlanError
  unsafe : SafetyError → PlanError

abbrev pub sorted_keys {ℓ} : {A : Type ℓ} → List (Str × A) → List Str
sorted_keys values = slice_stable str_lt (names values)

abbrev pub find {ℓ} : {A : Type ℓ} → Str → List (Str × A) → Option A
find key [] = none
find key ((k, a) ∷ kvs) = if str_eq k key then some a else find key kvs

abbrev pub one_hour : ℤ
one_hour = pos (3600 * 10 ^ 9)

abbrev pub hour_after : Time → Time
hour_after t = t +ℤ one_hour

-- What the engine is given: Go's `regexp.Compile`, its choice of an order for `range` over a map,
-- SHA-256 in hexadecimal, and the configured providers.
pub record Env : Type 0 where
  pub compile : Str → Option Regexp
  pub visit_order : List Str → List Str
  pub fingerprint : Str → Str
  pub clients : List (Str × Client)

-- `if err := limit.validate(); err != nil { return err }`
abbrev pub pass : Option SafetyError → Result PlanError (Unit {0})
pass none = ok tt
pass (some e) = err (unsafe e)

module _ (env : Env) where
  abbrev pub discover_all : Tags → List Artifact → Option (List Artifact)
  discover_all tags [] = some []
  discover_all tags (a ∷ rest) = elim (parse_artifact env.compile a tags) [
    | none ↦ none
    | some a' ↦ elim (discover_all tags rest) [ none ↦ none | some more ↦ some (a' ∷ more) ]
  ]

module _ {F : Type 0} (f : Float64 F) (env : Env) (now : Time) where
  -- The body of the loop over the targets, behind a successful discovery.
  unfoldable pub plan_artifacts : Str → Rule F → List Artifact → PlanState F → PlanState F
  plan_artifacts policy_name rule artifacts s =
      let decisions = evaluate env.visit_order artifacts rule now in
      let s1 = record s { discovered = mark_all artifacts s.discovered } in
      let (s2, t) = consider_all policy_name decisions (s1, no_tally) in
      record s2 {
        limits =
            s2.limits
            ++ record {
              policy = policy_name;
              total = length decisions;
              deletes = t.deletes;
              max_count = rule.max_delete_count;
              max_percent = rule.max_delete_percent;
              repository_totals = t.repository_totals;
              repository_deletes = t.repository_deletes;
            }
              ∷ [];
      }

  plan_target : Str → Rule F → Tags → Target → PlanState F → Result PlanError (PlanState F)
  plan_target policy_name rule tags target s = do
    client ← require (find target.registry env.clients) (nil_client target.registry)
    found ← wrap (discovery policy_name target.registry) (
        client.list s.calls (record {
          registry = target.registry;
          includes = target.repositories.include;
          excludes = target.repositories.exclude;
        }))
    refuse_if (is_empty found) (no_artifacts policy_name target.registry)
    artifacts ← require (discover_all env tags found) (unsupported_parser policy_name)
    ok (plan_artifacts policy_name rule artifacts (record s { calls = suc s.calls }))

  plan_targets : Str → Rule F → Tags → List Target → PlanState F → Result PlanError (PlanState F)
  plan_targets policy_name rule tags [] s = ok s
  plan_targets policy_name rule tags (t ∷ ts) s = do
    s' ← plan_target policy_name rule tags t s
    plan_targets policy_name rule tags ts s'

  plan_policy : Str → Policy F → PlanState F → Result PlanError (PlanState F)
  plan_policy policy_name configured s = do
    rule ← require (rule_of env.compile configured policy_name) (bad_rule policy_name)
    plan_targets policy_name rule configured.tags configured.targets s

  abbrev plan_found : Str → Option (Policy F) → PlanState F → Result PlanError (PlanState F)
  plan_found policy_name none s = ok s
  plan_found policy_name (some p) s = plan_policy policy_name p s

  -- The loop over the sorted names, each of which is a key of the map.
  plan_policies : List (Str × Policy F) → List Str → PlanState F → Result PlanError (PlanState F)
  plan_policies policies [] s = ok s
  plan_policies policies (policy_name ∷ rest) s = do
    s' ← plan_found policy_name (find policy_name policies) s
    plan_policies policies rest s'

  -- The loop over the limits: the first that is exceeded is the error.
  check_limits : List (SafetyLimit F) → Result PlanError (Unit {0})
  check_limits [] = ok tt
  check_limits (limit ∷ rest) = do pass (validate_limit f env.visit_order limit); check_limits rest

  abbrev pub finish : Str → PlanState F → Plan
  finish config_bytes s = record {
    version = format_version;
    created_at = now;
    expires_at = hour_after now;
    config_fingerprint = env.fingerprint config_bytes;
    actions = slice_stable key_before (actions_of (unprotect s.protected s.actions));
    protected_count = length s.protected;
    discovered_count = length s.discovered;
  }

  unfoldable pub make_plan : Config F → Str → Result PlanError Plan
  unfolding plan_policies check_limits plan_policy plan_targets plan_target
  make_plan config config_bytes = do
    s ← plan_policies config.policies (sorted_keys config.policies) no_state
    check_limits s.limits
    ok (finish config_bytes s)
