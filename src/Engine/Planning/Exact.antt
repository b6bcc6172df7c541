-- ===== src/Engine/Planning/Exact.antt =====
-- `Engine.Plan` of internal/engine/engine.go against an abstract view of it, which knows no maps and no
-- order of calls: what some decision chooses and no decision keeps, sorted.
use regbot.Base.{
  Bool, true, false, not, ◌&&◌, ◌||◌, suc, ◌≤◌, List, [], ◌∷◌, Str, ok, str_eq, str_mem, ◌≡◌, refl,
  arith, any, ap, sym, ◌∙◌, subst, Float64, In, here, there, map, count, occurs, occurs-zero,
  occurs-pos, if◌then◌else◌, slice_stable, count-slice_stable, StrictlyAscends, strictly,
  slice_stable-Ascends, str_lt_irrefl, str_lt_trans,
}
use regbot.Provider.{Artifact, Time}
use regbot.Plan.{Action, Plan}
use regbot.Policy.Types.{Rule}
use regbot.Policy.Evaluate.{evaluate, VisitsAll}
use regbot.Config.Types.{Config}
use regbot.Config.Validate.{names}
use regbot.Engine.State.{
  Actions, PlanState, no_tally, mark_all, artifact_key, actions_of, unprotect, key_before,
}
use regbot.Engine.State.Keys.{unprotect-str_mem, unprotect-AreDistinct}
use regbot.Engine.State.Exact.{
  keeps_key, chooses_key, holds_key, consider_all-keeps, consider_all-holds,
}
use regbot.Engine.State.Origins.{In-unprotect}
use regbot.Engine.Planning.{Env, plan_artifacts, make_plan}
use regbot.Engine.Planning.Trace.{Batch, IsBatch, Trace, start, step, CoversAll, make_plan-Traced}
use regbot.Engine.Planning.Sound.{Trace-Justified}
use regbot.Engine.Planning.Unanimous.{Trace-IsBatch}
use regbot.Engine.Planning.Numbers.{Trace-Accounts}

abbrev pub action_key : Action → Str
action_key a = artifact_key a.artifact

names-actions_of :
    (actions : Actions)
    → ((x : Str × Action) → In x actions → x.0 ≡ action_key x.1)
    → names actions ≡ map action_key (actions_of actions)
names-actions_of [] own = refl
names-actions_of ((k, a) ∷ more) own =
    rw (own (k, a) (here refl), names-actions_of more (λ x m. own x (there m))) refl

occurs-map :
    {A : Type 0} (g : A → Str) (k : Str) (xs : List A)
    → occurs k (map g xs) ≡ count (λ x. str_eq k (g x)) xs
occurs-map g k [] = refl
occurs-map g k (x ∷ xs) = rw (occurs-map g k xs) refl

occurs-once :
    (k : Str) (ks : List Str) → occurs k ks ≤ 1 → occurs k ks ≡ (if str_mem k ks then 1 else 0)
occurs-once k ks once = ground (arith, occurs-zero k ks, occurs-pos k ks)

key_before-IsAsymmetric : (a b : Action) → key_before a b ≡ true → key_before b a ≡ false
key_before-IsAsymmetric a b h =
    ground (
      arith,
      str_lt_irrefl (action_key a),
      str_lt_trans (action_key a) (action_key b) (action_key a),
    )

module _ {F : Type 0} (env : Env) (now : Time) where
  -- The rule of some batch keeps what has the key.
  abbrev pub is_kept : List (Batch F) → Str → Bool
  is_kept bs k = any (λ b. any (keeps_key k) (evaluate env.visit_order b.artifacts b.rule now)) bs

  -- The rule of some batch chooses what has the key for deletion.
  abbrev pub is_chosen : List (Batch F) → Str → Bool
  is_chosen bs k =
      any (λ b. any (chooses_key k) (evaluate env.visit_order b.artifacts b.rule now)) bs

module _ {F : Type 0} (f : Float64 F) (env : Env) (now : Time) (config : Config F) where
  plan_artifacts-keeps :
      (k name : Str) (rule : Rule F) (artifacts : List Artifact) (s : PlanState F)
      → str_mem k (plan_artifacts f env now name rule artifacts s).protected
        ≡ (any (keeps_key k) (evaluate env.visit_order artifacts rule now) || str_mem k s.protected)
  unfolding plan_artifacts
  plan_artifacts-keeps k name rule artifacts s =
      consider_all-keeps name k (evaluate env.visit_order artifacts rule now)
        (record s { discovered = mark_all artifacts s.discovered }) no_tally

  plan_artifacts-holds :
      (k name : Str) (rule : Rule F) (artifacts : List Artifact) (s : PlanState F)
      → holds_key k (plan_artifacts f env now name rule artifacts s) ≡ (
          not (
            any (keeps_key k) (evaluate env.visit_order artifacts rule now)
            || str_mem k s.protected)
          && (any (chooses_key k) (evaluate env.visit_order artifacts rule now)
              || str_mem k (names s.actions)))
  unfolding plan_artifacts
  plan_artifacts-holds k name rule artifacts s =
      consider_all-holds name k (evaluate env.visit_order artifacts rule now)
        (record s { discovered = mark_all artifacts s.discovered }) no_tally

  Trace-keeps :
      (k : Str) (bs : List (Batch F)) (s : PlanState F)
      → Trace f env now config bs s
      → str_mem k s.protected ≡ is_kept env now bs k
  Trace-keeps k [] s start = refl
  Trace-keeps k _ t (step {bs = bs} {s = s} b run is e) =
      ap (λ (u : PlanState F). str_mem k u.protected) e
      ∙ (plan_artifacts-keeps k b.policy_name b.rule b.artifacts (record s { calls = suc s.calls })
          ∙ rw (Trace-keeps k bs s run) refl)

  Trace-holds :
      (k : Str) (bs : List (Batch F)) (s : PlanState F)
      → Trace f env now config bs s
      → holds_key k s ≡ (not (is_kept env now bs k) && is_chosen env now bs k)
  Trace-holds k [] s start = refl
  Trace-holds k _ t (step {bs = bs} {s = s} b run is e) =
      ap (holds_key k) e
      ∙ (plan_artifacts-holds k b.policy_name b.rule b.artifacts (record s { calls = suc s.calls })
          ∙ ground (arith, Trace-keeps k bs s run, Trace-holds k bs s run))

  planned-keys :
      (visits : VisitsAll env.visit_order) (bs : List (Batch F)) (s : PlanState F)
      → Trace f env now config bs s
      → names (unprotect s.protected s.actions)
        ≡ map action_key (actions_of (unprotect s.protected s.actions))
  planned-keys visits bs s run = names-actions_of _ λ x m.
      let (b, o, is, justified, key) =
        Trace-Justified f env now config visits x bs s run
          (In-unprotect s.protected s.actions m).0 in
      key

  planned-occurs :
      (visits : VisitsAll env.visit_order) (k : Str) (bs : List (Batch F)) (s : PlanState F)
      → Trace f env now config bs s
      → occurs k
          (map action_key (slice_stable key_before (actions_of (unprotect s.protected s.actions))))
        ≡ (if is_chosen env now bs k && not (is_kept env now bs k) then 1 else 0)
  planned-occurs visits k bs s run =
      let left = unprotect s.protected s.actions in
      let once =
        unprotect-AreDistinct s.protected s.actions
          (Trace-Accounts f env now config visits bs s run).actions_once k in
      occurs-map action_key k (slice_stable key_before (actions_of left))
      ∙ (count-slice_stable key_before (λ a. str_eq k (action_key a)) (actions_of left)
          ∙ (sym (occurs-map action_key k (actions_of left))
              ∙ (ap (occurs k) (sym (planned-keys visits bs s run))
                  ∙ (occurs-once k (names left) once
                      ∙ ground (
                        arith,
                        unprotect-str_mem k s.protected s.actions,
                        Trace-holds k bs s run,
                      )))))

  -- The actions of the plan against batches of the configuration.
  pub record IsExact (plan : Plan) : Type 0 where
    pub batches : List (Batch F)
    pub are_batches : (b : Batch F) → In b batches → IsBatch f env now config b
    pub covers : CoversAll f env now config batches
    pub exact :
        (k : Str)
        → occurs k (map action_key plan.actions)
          ≡ (if is_chosen env now batches k && not (is_kept env now batches k) then 1 else 0)
    pub ascending : StrictlyAscends (map action_key plan.actions)

  -- The actions of a plan are, by their keys, just those that the decisions of some batch choose and no
  -- decision of any batch keeps, each once and in ascending order, where each batch is what a registry
  -- answered for a target of a policy, and each target of each policy has one.
  pub make_plan-IsExact :
      (visits : VisitsAll env.visit_order) (config_bytes : Str) (plan : Plan)
      → make_plan f env now config config_bytes ≡ ok plan
      → IsExact plan
  make_plan-IsExact visits config_bytes plan h =
      let (s, bs, run, covers, kept, e) = make_plan-Traced f env now config config_bytes plan h in
      let left = actions_of (unprotect s.protected s.actions) in
      record {
        batches = bs;
        are_batches = Trace-IsBatch f env now config bs s run;
        covers = covers;
        exact = λ k.
            ap (λ (p : Plan). occurs k (map action_key p.actions)) e
            ∙ planned-occurs visits k bs s run;
        ascending =
            subst (λ (p : Plan). StrictlyAscends (map action_key p.actions)) (sym e)
              (strictly action_key (slice_stable key_before left)
                (slice_stable-Ascends key_before key_before-IsAsymmetric left)
                (λ k. subst (λ n. n ≤ 1) (sym (planned-occurs visits k bs s run)) (ground arith)));
      }
