-- ===== src/Policy/Judge/Explained.antt =====
-- The reasons that `Evaluate` of pkg/policy/policy.go attaches to a decision.
use regbot.Base.{Bool, true, false, ℕ, List, [], ◌∷◌, ◌++◌, ◌≡◌, ◌≢◌, ◌↔◌, refl, arith, All, ap}
use regbot.Provider.{Artifact, Time}
use regbot.Policy.Types.{Rule, Decision, Reason, old}
use regbot.Policy.Judge.{settle, judge}
use regbot.Policy.Judge.Laws.{Check, protections, fires_any, firing, is_old, judge_lem}

-- No check of the list gives the reason `old`.
abbrev NeverOld : List Check → Type 0
NeverOld = All (λ c. c.1 ≢ old)

firing-ne-nil : (cs : List Check) → fires_any cs ≡ true → firing cs ≢ []
firing-ne-nil [] h = cc
firing-ne-nil ((true, r) ∷ cs) h = λ e. cc
firing-ne-nil ((false, r) ∷ cs) h = firing-ne-nil cs h

firing-ne-old : (cs : List Check) → NeverOld cs → firing cs ≢ old ∷ []
firing-ne-old [] n = λ e. cc
firing-ne-old ((true, r) ∷ cs) (n, ns) = λ e. n (cc)
firing-ne-old ((false, r) ∷ cs) (n, ns) = firing-ne-old cs ns

firing-nil : (cs : List Check) → fires_any cs ≡ false → firing cs ≡ []
firing-nil [] h = refl
firing-nil ((true, r) ∷ cs) h = cc
firing-nil ((false, r) ∷ cs) h = firing-nil cs h

abbrev pub IsExplained : Decision → Type 0
IsExplained d = (d.reasons ≢ []) × ((d.delete ≡ true) ↔ (d.reasons ≡ old ∷ []))

settle-IsExplained :
    (eligible : Bool) (d : Decision) (rs : List Reason) (p : Bool)
    → d.delete ≡ false
    → (p ≡ true → (rs ≢ []) × (rs ≢ old ∷ []))
    → (p ≡ false → rs ≡ [])
    → IsExplained (settle eligible d (rs, p))
settle-IsExplained eligible d rs true fresh some bare =
    ((some refl).0, (λ h. cc, λ e. absurd ((some refl).1 e)))
settle-IsExplained true d rs false fresh some bare =
    rw (bare refl) ((λ e. cc), ((λ h. refl), (λ e. refl)))
settle-IsExplained false d rs false fresh some bare =
    rw (bare refl) ((λ e. cc), ((λ h. cc), (λ e. cc)))

module _ {F : Type 0} (rule : Rule F) (now : Time) (rank : ℕ) where
  protections-NeverOld : (a : Artifact) → NeverOld (protections rule now rank a)
  protections-NeverOld a = ground arith

  -- Every decision is explained: a decision without reasons gets one at least, and it is to delete
  -- exactly when its only reason is that the artifact is old.
  pub judge-IsExplained :
      (d : Decision) → d.delete ≡ false → d.reasons ≡ [] → IsExplained (judge rule now rank d)
  judge-IsExplained d fresh bare =
      let cs = protections rule now rank d.artifact in
      rw judge_lem (
        settle-IsExplained (is_old rule now d.artifact) d (d.reasons ++ firing cs) (fires_any cs)
          fresh
          (λ p.
            rw (ap (λ rs. rs ++ firing cs) bare)
              (firing-ne-nil cs p, firing-ne-old cs (protections-NeverOld d.artifact)))
          (λ p. rw (ap (λ rs. rs ++ firing cs) bare) (firing-nil cs p)))
