-- ===== src/Engine/Planning/Unanimous.antt =====
-- Protection in a plan of `Engine.Plan` in internal/engine/engine.go: an artifact that any policy keeps
-- is not deleted for another.
use regbot.Base.{
  true, false, ℕ, suc, List, [], ◌∷◌, Str, some, ok, ◌≡◌, refl, Float64, In, here, there, ap, sym,
  ◌∙◌, subst, get_elem?, zero, ◌⊎◌, inl, inr, Bool-cases, str_mem,
}
use regbot.Provider.{Artifact, Time}
use regbot.Plan.{Action, Plan}
use regbot.Policy.Types.{Rule, Decision}
use regbot.Policy.Judge.Eligible.{IsEligible}
use regbot.Policy.Evaluate.{evaluate, VisitsAll}
use regbot.Policy.Evaluate.Positions.{rank_of, evaluate-IsEligible}
use regbot.Config.Types.{Config, Policy, Target}
use regbot.Engine.State.{PlanState, no_tally, mark_all, artifact_key}
use regbot.Engine.State.Origins.{In-unprotect, consider_all-protected}
use regbot.Engine.Planning.{Env, find, plan_artifacts, make_plan}
use regbot.Engine.Planning.Trace.{Batch, IsBatch, Trace, start, step, make_plan-Traced}
use regbot.Engine.Planning.Sound.{planned-In, Trace-Justified}

get_elem?-In : {A : Type 0} {x : A} (xs : List A) (i : ℕ) → get_elem? xs i ≡ some x → In x xs
get_elem?-In [] i h = cc
get_elem?-In {x = x} (y ∷ xs) zero h = here (first h)
  where
    first : some y ≡ some x → x ≡ y
    first e = cc
get_elem?-In (y ∷ xs) (suc i) h = there (get_elem?-In xs i h)

module _ {F : Type 0} (f : Float64 F) (env : Env) (now : Time) (config : Config F) where
  pub Trace-IsBatch :
      (bs : List (Batch F)) (s : PlanState F)
      → Trace f env now config bs s
      → (b : Batch F) → In b bs
      → IsBatch f env now config b
  Trace-IsBatch [] s start b m = elim m [ ]
  Trace-IsBatch _ t (step c run is e) b (here p) = subst (IsBatch f env now config) (sym p) is
  Trace-IsBatch _ t (step {bs = bs} {s = s} c run is e) b (there m) = Trace-IsBatch bs s run b m

  plan_artifacts-protected :
      (j name : Str) (rule : Rule F) (artifacts : List Artifact) (s : PlanState F)
      → (str_mem j s.protected ≡ true)
        ⊎ ((d : Decision) × In d (evaluate env.visit_order artifacts rule now)
            × (d.delete ≡ false)
            × (j ≡ artifact_key d.artifact))
      → str_mem j (plan_artifacts f env now name rule artifacts s).protected ≡ true
  unfolding plan_artifacts
  plan_artifacts-protected j name rule artifacts s h =
      consider_all-protected name j (evaluate env.visit_order artifacts rule now)
        (record s { discovered = mark_all artifacts s.discovered }) no_tally h

  -- What a batch keeps is protected at the end.
  Trace-protected :
      (bs : List (Batch F)) (s : PlanState F)
      → Trace f env now config bs s
      → (b : Batch F) → In b bs
      → (d : Decision) → In d (evaluate env.visit_order b.artifacts b.rule now)
      → d.delete ≡ false
      → str_mem (artifact_key d.artifact) s.protected ≡ true
  Trace-protected [] s start b m d n kept = elim m [ ]
  Trace-protected _ t (step {s = s} c run is e) b (here p) d n kept =
      let k = artifact_key d.artifact in
      ap (λ (u : PlanState F). str_mem k u.protected) e
      ∙ plan_artifacts-protected k c.policy_name c.rule c.artifacts
          (record s { calls = suc s.calls })
          (inr (
            d,
            subst (λ (u : Batch F). In d (evaluate env.visit_order u.artifacts u.rule now)) p n,
            kept,
            refl,
          ))
  Trace-protected _ t (step {bs = bs} {s = s} c run is e) b (there m) d n kept =
      let k = artifact_key d.artifact in
      ap (λ (u : PlanState F). str_mem k u.protected) e
      ∙ plan_artifacts-protected k c.policy_name c.rule c.artifacts
          (record s { calls = suc s.calls }) (inl (Trace-protected bs s run b m d n kept))

  -- Whatever has the key of an action and stands in the batch is eligible there.
  abbrev pub Agrees : Batch F → Action → Type 0
  Agrees b action =
      (i : ℕ) (a : Artifact)
      → get_elem? b.artifacts i ≡ some a
      → artifact_key a ≡ artifact_key action.artifact
      → IsEligible b.rule now (rank_of b.artifacts b.rule a i) a

  -- An action is planned only if no target of any policy keeps its artifact: each target of each
  -- policy was asked for its artifacts, and whichever of them has the action's key is eligible there.
  pub make_plan-unanimous :
      (visits : VisitsAll env.visit_order) (config_bytes : Str) (plan : Plan)
      → make_plan f env now config config_bytes ≡ ok plan
      → (action : Action) → In action plan.actions
      → (name : Str) (p : Policy F) (target : Target) → find name config.policies ≡ some p
      → In target p.targets
      → (b : Batch F) × IsBatch f env now config b
        × (b.policy_name ≡ name)
        × (b.target ≡ target)
        × Agrees b action
  make_plan-unanimous visits config_bytes plan h action m name p target found targeted =
      let (s, bs, run, covers, kept, e) = make_plan-Traced f env now config config_bytes plan h in
      let (b, o, of_policy, at_target) = covers name p target found targeted in
      let (k, n) = planned-In s action (subst (λ (q : Plan). In action q.actions) e m) in
      let (listed, free) = In-unprotect s.protected s.actions n in
      let (b0, o0, is0, j0, key) =
        Trace-Justified f env now config visits (k, action) bs s run listed in
      (
        b,
        Trace-IsBatch bs s run b o,
        of_policy,
        at_target,
        λ i a at_i same.
            let (d, at_i', own, eligible) =
              evaluate-IsEligible env.visit_order visits b.artifacts b.rule now i a at_i in
            elim (Bool-cases d.delete) [
              | inl chosen ↦ eligible.0 chosen
              | inr kept_there ↦ absurd (
                  cc (
                    Trace-protected bs s run b o d (get_elem?-In _ i at_i') kept_there,
                    ap (λ j. str_mem j s.protected) (ap artifact_key own ∙ (same ∙ sym key)),
                    free,
                  ))
            ],
      )
