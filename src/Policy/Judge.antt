-- ===== src/Policy/Judge.antt =====
-- The body of the innermost loop of `Evaluate` in pkg/policy/policy.go: what becomes of one decision
-- at its rank in its group.
pub mod Laws
pub mod Eligible
pub mod Explained
use regbot.Base.{
  Bool, true, false, ◌&&◌, ◌||◌, not, ℕ, List, [], ◌∷◌, ◌++◌, pos, ltb_ℤ, leb_ℤ, is_empty, str_mem,
  if◌then◌else◌,
}
use regbot.Provider.{Artifact, Time}
use regbot.Policy.Types.{
  Rule, Decision, Reason, recent, latest, minimum, tag, digest, shared_digest, unparsed, referrer,
  too_young, old, not_selected,
}
use regbot.Policy.Order.{has_multiple_apps, protected_tag, artifact_age}

-- The reasons so far, and the flag `protected`.
abbrev pub Verdict : Type 0
Verdict = List Reason × Bool

-- `if fires { d.Reasons = append(d.Reasons, reason); protected = true }`
abbrev pub check : Bool → Reason → Verdict → Verdict
check fires reason v = if fires then (v.0 ++ reason ∷ [], true) else v

-- The last two branches.
abbrev pub settle : Bool → Decision → Verdict → Decision
settle eligible d (reasons, true) = record d { reasons = reasons }
settle true d (reasons, false) = record d { delete = true; reasons = reasons ++ old ∷ [] }
settle false d (reasons, false) = record d { reasons = reasons ++ not_selected ∷ [] }

module _ {F : Type 0} (rule : Rule F) (now : Time) (rank : ℕ) where
  unfoldable pub judge : Decision → Decision
  judge d =
      let a = d.artifact in
      let age = artifact_age a now in
      let v1 = check (is_empty a.tags && rule.require_tagged) unparsed (d.reasons, false) in
      let v2 = check (is_empty a.parsed_versions && rule.protect_unparsed) unparsed v1 in
      let v3 = check (protected_tag a.tags rule) tag v2 in
      let v4 =
        check (str_mem a.digest rule.protected_digests && not (is_empty a.digest)) digest v3 in
      let v5 = check (not (is_empty a.referrer_ids)) referrer v4 in
      let v6 = check (has_multiple_apps a.parsed_versions) shared_digest v5 in
      let v7 =
        check (ltb_ℤ (pos 0) rule.keep_newer_than && ltb_ℤ age rule.keep_newer_than) recent v6 in
      let v8 = check (ltb_ℤ (pos rank) rule.keep_latest) latest v7 in
      let v9 = check (ltb_ℤ (pos rank) rule.keep_at_least) minimum v8 in
      let v10 =
        check (ltb_ℤ (pos 0) rule.delete_older_than && ltb_ℤ age rule.delete_older_than) too_young
          v9 in
      settle (ltb_ℤ (pos 0) rule.delete_older_than && leb_ℤ rule.delete_older_than age) d v10
