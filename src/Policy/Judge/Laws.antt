-- ===== src/Policy/Judge/Laws.antt =====
-- What the loop body of `Evaluate` in pkg/policy/policy.go decides, by its conditions.
use regbot.Base.{
  Bool, true, false, ◌&&◌, ◌||◌, not, ℕ, List, [], ◌∷◌, ◌++◌, pos, ltb_ℤ, leb_ℤ, is_empty, str_mem,
  if◌then◌else◌, ◌≡◌, refl, ap, append_assoc, append-nil, All,
}
use regbot.Provider.{Artifact, Time}
use regbot.Policy.Types.{
  Rule, Decision, Reason, recent, latest, minimum, tag, digest, shared_digest, unparsed, referrer,
  too_young,
}
use regbot.Policy.Order.{has_multiple_apps, protected_tag, artifact_age}
use regbot.Policy.Judge.{Verdict, check, settle, judge}

abbrev pub Check : Type 0
Check = Bool × Reason

-- The reasons that apply, in order.
abbrev pub firing : List Check → List Reason
firing [] = []
firing ((fires, r) ∷ cs) = if fires then r ∷ firing cs else firing cs

abbrev pub fires_any : List Check → Bool
fires_any [] = false
fires_any ((fires, r) ∷ cs) = fires || fires_any cs

abbrev pub AreClear : List Check → Type 0
AreClear = All (λ c. c.0 ≡ false)

pub fires_any→AreClear : (cs : List Check) → fires_any cs ≡ false → AreClear cs
fires_any→AreClear [] h = tt
fires_any→AreClear ((false, r) ∷ cs) h = (refl, fires_any→AreClear cs h)
fires_any→AreClear ((true, r) ∷ cs) h = cc

pub AreClear→fires_any : (cs : List Check) → AreClear cs → fires_any cs ≡ false
AreClear→fires_any [] h = refl
AreClear→fires_any ((fires, r) ∷ cs) (h, hs) = rw h (AreClear→fires_any cs hs)

abbrev run_checks : List Check → Verdict → Verdict
run_checks [] v = v
run_checks ((fires, r) ∷ cs) v = run_checks cs (check fires r v)

run_checks_lem :
    (cs : List Check) (rs : List Reason) (p : Bool)
    → run_checks cs (rs, p) ≡ (rs ++ firing cs, p || fires_any cs)
run_checks_lem [] rs true = rw append-nil
run_checks_lem [] rs false = rw append-nil
run_checks_lem ((true, r) ∷ cs) rs true = rw (run_checks_lem cs (rs ++ r ∷ []) true, append_assoc)
run_checks_lem ((true, r) ∷ cs) rs false = rw (run_checks_lem cs (rs ++ r ∷ []) true, append_assoc)
run_checks_lem ((false, r) ∷ cs) rs p = run_checks_lem cs rs p

module _ {F : Type 0} (rule : Rule F) (now : Time) where
  abbrev pub is_old : Artifact → Bool
  is_old a =
      ltb_ℤ (pos 0) rule.delete_older_than && leb_ℤ rule.delete_older_than (artifact_age a now)

module _ {F : Type 0} (rule : Rule F) (now : Time) (rank : ℕ) where
  -- The ten conditions of the loop body, each with its reason.
  abbrev pub protections : Artifact → List Check
  protections a =
      let age = artifact_age a now in
      (is_empty a.tags && rule.require_tagged, unparsed)
      ∷ (is_empty a.parsed_versions && rule.protect_unparsed, unparsed)
      ∷ (protected_tag a.tags rule, tag)
      ∷ (str_mem a.digest rule.protected_digests && not (is_empty a.digest), digest)
      ∷ (not (is_empty a.referrer_ids), referrer)
      ∷ (has_multiple_apps a.parsed_versions, shared_digest)
      ∷ (ltb_ℤ (pos 0) rule.keep_newer_than && ltb_ℤ age rule.keep_newer_than, recent)
      ∷ (ltb_ℤ (pos rank) rule.keep_latest, latest)
      ∷ (ltb_ℤ (pos rank) rule.keep_at_least, minimum)
      ∷ (ltb_ℤ (pos 0) rule.delete_older_than && ltb_ℤ age rule.delete_older_than, too_young)
      ∷ []

  pub judge_lem :
      (d : Decision)
      → judge rule now rank d
        ≡ settle
            (is_old rule now d.artifact)
            d
            (d.reasons ++ firing (protections d.artifact), fires_any (protections d.artifact))
  unfolding judge
  judge_lem d =
      ap (settle (is_old rule now d.artifact) d)
        (run_checks_lem (protections d.artifact) d.reasons false)
