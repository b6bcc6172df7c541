-- ===== src/Engine/Planning/Sound.antt =====
-- What a plan of `Engine.Plan` in internal/engine/engine.go promises: each of its actions is
-- justified by the rule of its policy.
use regbot.Base.{
  true, ℕ, suc, List, [], ◌∷◌, Str, Option, none, some, ok, ◌≡◌, refl, Float64, In, here, there, ap,
  sym, ◌∙◌, subst, get_elem?, ◌⊎◌, inl, inr, Option-cases, slice_stable, In-slice_stable,
}
use regbot.Provider.{Artifact, Time}
use regbot.Plan.{Action, Plan}
use regbot.Policy.Types.{Rule, Decision}
use regbot.Policy.Judge.Eligible.{IsEligible}
use regbot.Policy.Evaluate.{evaluate, VisitsAll}
use regbot.Policy.Evaluate.Positions.{rank_of, evaluate-IsEligible, evaluate-get_elem?}
use regbot.Config.Types.{Config}
use regbot.Engine.State.{
  Actions, PlanState, no_tally, actions_of, unprotect, mark_all, artifact_key, key_before,
}
use regbot.Engine.State.Origins.{In-unprotect, consider_all-In, ActionOf}
use regbot.Engine.Planning.{Env, plan_artifacts, make_plan}
use regbot.Engine.Planning.Trace.{Batch, IsBatch, Trace, start, step, make_plan-Traced}

In-get_elem? : {A : Type 0} {x : A} (xs : List A) → In x xs → (i : ℕ) × (get_elem? xs i ≡ some x)
In-get_elem? [] m = elim m [ ]
In-get_elem? (y ∷ xs) (here e) = (0, ap some (sym e))
In-get_elem? (y ∷ xs) (there m) = let (i, e) = In-get_elem? xs m in (suc i, e)

pub In-actions_of :
    {a : Action} (actions : Actions) → In a (actions_of actions) → (k : Str) × In (k, a) actions
In-actions_of [] m = elim m [ ]
In-actions_of ((k, b) ∷ more) (here e) = (k, here (ap (λ c. (k, c)) e))
In-actions_of ((k, b) ∷ more) (there m) = let (l, n) = In-actions_of more m in (l, there n)

pub planned-In :
    {F : Type 0} (s : PlanState F) (action : Action)
    → In action (slice_stable key_before (actions_of (unprotect s.protected s.actions)))
    → (k : Str) × In (k, action) (unprotect s.protected s.actions)
planned-In s action m = In-actions_of _ (In-slice_stable key_before _ m)

module _ {F : Type 0} (f : Float64 F) (env : Env) (now : Time) (config : Config F) where
  -- The artifact stands in the batch, and the rule of the batch deletes it at its rank.
  abbrev pub IsJustifiedBy : Action → Batch F → Type 0
  IsJustifiedBy action b =
      (i : ℕ) × (get_elem? b.artifacts i ≡ some action.artifact)
      × (action.policy ≡ b.policy_name)
      × IsEligible b.rule now (rank_of b.artifacts b.rule action.artifact i) action.artifact

  decided-IsEligible :
      (visits : VisitsAll env.visit_order) (artifacts : List Artifact) (rule : Rule F)
      (d : Decision)
      → In d (evaluate env.visit_order artifacts rule now)
      → d.delete ≡ true
      → (i : ℕ) × (get_elem? artifacts i ≡ some d.artifact)
        × IsEligible rule now (rank_of artifacts rule d.artifact i) d.artifact
  decided-IsEligible visits artifacts rule d m chosen =
      let ds = evaluate env.visit_order artifacts rule now in
      let (i, at_i) = In-get_elem? ds m in
      let table = evaluate-get_elem? env.visit_order visits artifacts rule now i in
      elim (Option-cases (get_elem? artifacts i)) [
        | inl gone ↦ absurd (not_there at_i (table ∙ rw gone refl))
        | inr (a, found) ↦
            let (d', at_i', own, eligible) =
              evaluate-IsEligible env.visit_order visits artifacts rule now i a found in
            let same = some-inj (sym at_i' ∙ at_i) in
            let a_is : a ≡ d.artifact = sym own ∙ ap (λ (u : Decision). u.artifact) same in
            (
              i,
              found ∙ ap some a_is,
              subst (λ b. IsEligible rule now (rank_of artifacts rule b i) b) a_is
                  (eligible.0 (ap (λ (u : Decision). u.delete) same ∙ chosen)),
            )
      ]
    where
      some-inj : {c d : Decision} → some c ≡ some d → c ≡ d
      some-inj h = cc

      not_there : {o : Option Decision} → o ≡ some d → o ≡ none → ⊥
      not_there h h' = cc

  abbrev pub Justified : List (Batch F) → Str × Action → Type 0
  Justified bs x =
      (b : Batch F) × In b bs
      × IsBatch f env now config b
      × IsJustifiedBy x.1 b
      × (x.0 ≡ artifact_key x.1.artifact)

  plan_artifacts-actions :
      (x : Str × Action) (b : Batch F) (s : PlanState F)
      → In x (plan_artifacts f env now b.policy_name b.rule b.artifacts s).actions
      → In x s.actions ⊎ ActionOf b.policy_name (evaluate env.visit_order b.artifacts b.rule now) x
  unfolding plan_artifacts
  plan_artifacts-actions x b s m =
      consider_all-In b.policy_name (evaluate env.visit_order b.artifacts b.rule now)
        (record s { discovered = mark_all b.artifacts s.discovered }) no_tally m

  pub Trace-Justified :
      (visits : VisitsAll env.visit_order) (x : Str × Action) (bs : List (Batch F))
      (s : PlanState F)
      → Trace f env now config bs s
      → In x s.actions
      → Justified bs x
  Trace-Justified visits x [] s start m = elim m [ ]
  Trace-Justified visits x _ t (step {bs = bs} {s = s} b run is e) m =
      let s' = record s { calls = suc s.calls } in
      elim (plan_artifacts-actions x b s' (subst (λ (u : PlanState F). In x u.actions) e m)) [
        | inl n ↦
            let (c, o, is_c, j, k) = Trace-Justified visits x bs s run n in (c, there o, is_c, j, k)
        | inr (d, n, chosen, own) ↦ (
          b,
          here refl,
          is,
          subst (λ y. IsJustifiedBy y.1 b) (sym own)
              (let (i, found, eligible) = decided-IsEligible visits b.artifacts b.rule d n chosen in
                (i, found, refl, eligible)),
          subst (λ (y : Str × Action). y.0 ≡ artifact_key y.1.artifact) (sym own) refl,
        )
      ]

  -- Each action of a plan is one that the rule of a policy asks for: an artifact that a registry
  -- answered for a target of the policy, eligible at its rank in its group.
  pub make_plan-Justified :
      (visits : VisitsAll env.visit_order) (config_bytes : Str) (plan : Plan)
      → make_plan f env now config config_bytes ≡ ok plan
      → (action : Action) → In action plan.actions
      → (b : Batch F) × IsBatch f env now config b × IsJustifiedBy action b
  make_plan-Justified visits config_bytes plan h action m =
      let (s, bs, run, covers, kept, e) = make_plan-Traced f env now config config_bytes plan h in
      let (k, n) = planned-In s action (subst (λ (p : Plan). In action p.actions) e m) in
      let (b, o, is, justified, key) =
        Trace-Justified visits (k, action) bs s run (In-unprotect s.protected s.actions n).0 in
      (b, is, justified)
