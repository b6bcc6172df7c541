-- ===== src/Engine/Planning/Numbers.antt =====
-- The counts of a plan of `Engine.Plan` in internal/engine/engine.go.
use regbot.Base.{
  ℕ, suc, ◌+◌, List, [], ◌∷◌, Str, ok, ◌≡◌, refl, Float64, ap, sym, ◌∙◌, subst, arith, get_elem?,
  get_elem?-ext, get_elem?-map, inl, inr, Option-cases, length, map, length-slice_stable,
}
use mathlib.Core.Option
use regbot.Provider.{Artifact, Time}
use regbot.Plan.{Plan}
use regbot.Policy.Types.{Rule}
use regbot.Policy.Evaluate.{evaluate, VisitsAll}
use regbot.Policy.Evaluate.Positions.{rank_of, evaluate-get_elem?}
use regbot.Policy.Evaluate.Ranks.{judge-artifact}
use regbot.Config.Types.{Config}
use regbot.Engine.State.{
  PlanState, no_tally, mark_all, artifact_key, actions_of, unprotect, key_before,
}
use regbot.Engine.State.Accounts.{
  Accounts, consider_all-Accounts, mark_all-AreDistinct, str_mem-mark_all, no_state-Accounts,
  Accounts-length, decision_key,
}
use regbot.Engine.Planning.{Env, plan_artifacts, make_plan}
use regbot.Engine.Planning.Trace.{Batch, Trace, start, step, make_plan-Traced}

module _ {F : Type 0} (visit_order : List Str → List Str) (visits : VisitsAll visit_order)
    (artifacts : List Artifact) (rule : Rule F) (now : Time) where
  evaluate-keys :
      map decision_key (evaluate visit_order artifacts rule now) ≡ map artifact_key artifacts
  evaluate-keys = get_elem?-ext _ _ λ i.
      get_elem?-map decision_key (evaluate visit_order artifacts rule now) i
      ∙ (same_key i ∙ sym (get_elem?-map artifact_key artifacts i))
    where
      same_key :
          (i : ℕ)
          → Option.map decision_key (get_elem? (evaluate visit_order artifacts rule now) i)
            ≡ Option.map artifact_key (get_elem? artifacts i)
      same_key i = elim (Option-cases (get_elem? artifacts i)) [
        | inl gone ↦ rw (evaluate-get_elem? visit_order visits artifacts rule now i, gone) refl
        | inr (a, found) ↦
            rw
              (
                evaluate-get_elem? visit_order visits artifacts rule now i,
                found,
                judge-artifact rule now (rank_of artifacts rule a i),
              )
              refl
      ]

  length-map : {A B : Type 0} (g : A → B) (xs : List A) → length (map g xs) ≡ length xs
  length-map g [] = refl
  length-map g (x ∷ xs) = ap suc (length-map g xs)

  -- There is a decision for each artifact.
  pub evaluate-length : length (evaluate visit_order artifacts rule now) ≡ length artifacts
  evaluate-length =
      sym (length-map decision_key (evaluate visit_order artifacts rule now))
      ∙ (ap length evaluate-keys ∙ length-map artifact_key artifacts)

module _ {F : Type 0} (f : Float64 F) (env : Env) (now : Time) (config : Config F) where
  marked-Accounts :
      (artifacts : List Artifact) (s : PlanState F)
      → Accounts s []
      → Accounts
          (record s { discovered = mark_all artifacts s.discovered })
          (map artifact_key artifacts)
  marked-Accounts artifacts s h = record {
    discovered_once = mark_all-AreDistinct artifacts s.discovered h.discovered_once;
    protected_once = h.protected_once;
    actions_once = h.actions_once;
    covered = λ j. rw (str_mem-mark_all j artifacts s.discovered, h.covered j) (ground arith);
  }

  plan_artifacts-Accounts :
      (visits : VisitsAll env.visit_order) (name : Str) (rule : Rule F) (artifacts : List Artifact)
      (s : PlanState F)
      → Accounts s []
      → Accounts (plan_artifacts f env now name rule artifacts s) []
  unfolding plan_artifacts
  plan_artifacts-Accounts visits name rule artifacts s h =
      let ds = evaluate env.visit_order artifacts rule now in
      let s' = record s { discovered = mark_all artifacts s.discovered } in
      let done = consider_all-Accounts name ds s' no_tally (
        subst (Accounts s') (sym (evaluate-keys env.visit_order visits artifacts rule now))
          (marked-Accounts artifacts s h)) in
      record {
        discovered_once = done.discovered_once;
        protected_once = done.protected_once;
        actions_once = done.actions_once;
        covered = done.covered;
      }

  called-Accounts : (s : PlanState F) (n : ℕ) → Accounts s [] → Accounts (record s { calls = n }) []
  called-Accounts s n h = record {
    discovered_once = h.discovered_once;
    protected_once = h.protected_once;
    actions_once = h.actions_once;
    covered = h.covered;
  }

  pub Trace-Accounts :
      (visits : VisitsAll env.visit_order) (bs : List (Batch F)) (s : PlanState F)
      → Trace f env now config bs s
      → Accounts s []
  Trace-Accounts visits [] s start = no_state-Accounts
  Trace-Accounts visits _ t (step {bs = bs} {s = s} b run is e) =
      subst (λ (u : PlanState F). Accounts u []) (sym e)
        (plan_artifacts-Accounts visits b.policy_name b.rule b.artifacts _
          (called-Accounts s (suc s.calls) (Trace-Accounts visits bs s run)))

  -- Every artifact that was discovered, told apart by its key, is either protected or the object of
  -- exactly one action.
  pub make_plan-counts :
      (visits : VisitsAll env.visit_order) (config_bytes : Str) (plan : Plan)
      → make_plan f env now config config_bytes ≡ ok plan
      → plan.discovered_count ≡ plan.protected_count + length plan.actions
  make_plan-counts visits config_bytes plan h =
      let (s, bs, run, covers, kept, e) = make_plan-Traced f env now config config_bytes plan h in
      let left = actions_of (unprotect s.protected s.actions) in
      ap (λ (p : Plan). p.discovered_count) e
      ∙ (Accounts-length s (Trace-Accounts visits bs s run)
          ∙ (ap (λ n. length s.protected + n) (sym (length-slice_stable key_before left))
              ∙ sym (ap (λ (p : Plan). p.protected_count + length p.actions) e)))
