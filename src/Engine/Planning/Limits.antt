-- ===== src/Engine/Planning/Limits.antt =====
-- The safety limits of a plan of `Engine.Plan` in internal/engine/engine.go, as numbers of decisions.
use regbot.Base.{
  Bool, true, false, ◌&&◌, ℕ, ℤ, suc, is_empty, IsRounded, quotient, ◌≤◌, List, [], ◌∷◌, Str,
  Option, none, some, ok, ◌≡◌, refl, Float64, sym, ap, ◌∙◌, subst, arith, length, count, In, here,
  there, In-append_left, In-append_right,
}
use regbot.Provider.{Artifact, Time}
use regbot.Plan.{Plan}
use regbot.Policy.Types.{Regexp, Rule, Decision}
use regbot.Policy.Evaluate.{evaluate, VisitsAll}
use regbot.Config.Types.{Config, Policy, Target, Tags}
use regbot.Config.Rules.{rule_with, compile_all, rule_of}
use regbot.Engine.Parsing.{parse_artifact}
use regbot.Engine.Safety.{count_of, SafetyLimit, validate_limit}
use regbot.Engine.Safety.Kept.{IsWithin, IsWithin-cong, validate_limit-IsWithin}
use regbot.Engine.State.{PlanState, Tally, no_tally, mark_all, consider_all}
use regbot.Engine.State.Counting.{in_repository, Counted, consider_all-Counted, consider_all-limits}
use regbot.Engine.Planning.{Env, find, discover_all, plan_artifacts, make_plan}
use regbot.Engine.Planning.Trace.{Batch, IsBatch, Trace, start, step, make_plan-Traced}
use regbot.Engine.Planning.Unanimous.{Trace-IsBatch}
use regbot.Engine.Planning.Numbers.{evaluate-length}

-- The limit of a loop over some decisions.
record IsLimitOf {F : Type 0} (rule : Rule F) (ds : List Decision) (l : SafetyLimit F)
    : Type 0 where
  pub max_count : l.max_count ≡ rule.max_delete_count
  pub max_percent : l.max_percent ≡ rule.max_delete_percent
  pub total : l.total ≡ length ds
  pub deletes : l.deletes ≡ count (λ d. d.delete) ds
  pub totals : (r : Str) → count_of r l.repository_totals ≡ count (in_repository r) ds
  pub repository_deletes :
      (r : Str) → count_of r l.repository_deletes ≡ count (λ d. d.delete && in_repository r d) ds

count_le_length : (q : Decision → Bool) (ds : List Decision) → count q ds ≤ length ds
count_le_length q [] = omega arith
count_le_length q (d ∷ ds) = ground (arith, count_le_length q ds)

count_and_le :
    (q q' : Decision → Bool) (ds : List Decision) → count (λ d. q d && q' d) ds ≤ count q' ds
count_and_le q q' [] = omega arith
count_and_le q q' (d ∷ ds) = ground (arith, count_and_le q q' ds)

some-inj : {A : Type 0} {x y : A} → some x ≡ some y → x ≡ y
some-inj e = cc

is_empty-length : (xs : List Artifact) → is_empty xs ≡ false → 1 ≤ length xs
is_empty-length [] h = cc
is_empty-length (x ∷ xs) h = omega arith

discover_all-length :
    (env : Env) (tags : Tags) (listed artifacts : List Artifact)
    → discover_all env tags listed ≡ some artifacts
    → length artifacts ≡ length listed
discover_all-length env tags [] artifacts h = ap length (sym (some-inj h))
discover_all-length env tags (a ∷ rest) artifacts h =
    more (parse_artifact env.compile a tags) (discover_all env tags rest) h
      (discover_all-length env tags rest)
  where
    more :
        (o : Option Artifact) (m : Option (List Artifact))
        → elim o [ none ↦ none | some a' ↦ elim m [ none ↦ none | some more ↦ some (a' ∷ more) ] ]
          ≡ some artifacts
        → ((found : List Artifact) → m ≡ some found → length found ≡ length rest)
        → length artifacts ≡ suc (length rest)
    more none m h' ih = cc
    more (some a') none h' ih = cc
    more (some a') (some found) h' ih = ap length (sym (some-inj h')) ∙ ap suc (ih found refl)

module _ {F : Type 0} (f : Float64 F) (env : Env) (now : Time) where
  abbrev decisions_of : Rule F → List Artifact → List Decision
  decisions_of rule artifacts = evaluate env.visit_order artifacts rule now

  Counted-limit :
      (name : Str) (rule : Rule F) (ds : List Decision) (t : Tally)
      → Counted ds no_tally t
      → IsLimitOf rule ds (record {
        policy = name;
        total = length ds;
        deletes = t.deletes;
        max_count = rule.max_delete_count;
        max_percent = rule.max_delete_percent;
        repository_totals = t.repository_totals;
        repository_deletes = t.repository_deletes;
      })
  Counted-limit name rule ds t h = record {
    max_count = refl;
    max_percent = refl;
    total = refl;
    deletes = omega (arith, h.deletes);
    totals = λ r. omega (arith, h.totals r);
    repository_deletes = λ r. omega (arith, h.repository_deletes r);
  }

  plan_artifacts-limit :
      (name : Str) (rule : Rule F) (artifacts : List Artifact) (s : PlanState F)
      → (l : SafetyLimit F) × In l (plan_artifacts f env now name rule artifacts s).limits
        × IsLimitOf rule (decisions_of rule artifacts) l
  unfolding plan_artifacts
  plan_artifacts-limit name rule artifacts s =
      let ds = decisions_of rule artifacts in
      let s' = record s { discovered = mark_all artifacts s.discovered } in
      (
        _,
        In-append_right (consider_all name ds (s', no_tally)).0.limits (here refl),
        Counted-limit name rule ds (consider_all name ds (s', no_tally)).1
            (consider_all-Counted name ds s' no_tally),
      )

  plan_artifacts-earlier :
      (name : Str) (rule : Rule F) (artifacts : List Artifact) (s : PlanState F) (l : SafetyLimit F)
      → In l s.limits
      → In l (plan_artifacts f env now name rule artifacts s).limits
  unfolding plan_artifacts
  plan_artifacts-earlier name rule artifacts s l m =
      let ds = decisions_of rule artifacts in
      let s' = record s { discovered = mark_all artifacts s.discovered } in
      In-append_left _ (subst (In l) (sym (consider_all-limits name ds s' no_tally)) m)

  module _ (config : Config F) where
    Trace-limit :
        (bs : List (Batch F)) (s : PlanState F)
        → Trace f env now config bs s
        → (b : Batch F) → In b bs
        → (l : SafetyLimit F) × In l s.limits × IsLimitOf b.rule (decisions_of b.rule b.artifacts) l
    Trace-limit [] s start b m = elim m [ ]
    Trace-limit _ t (step {s = s} c run is e) b (here p) =
        let (l, m, h) =
          plan_artifacts-limit c.policy_name c.rule c.artifacts
            (record s { calls = suc s.calls }) in
        (
          l,
          subst (λ (u : PlanState F). In l u.limits) (sym e) m,
          subst (λ (u : Batch F). IsLimitOf u.rule (decisions_of u.rule u.artifacts) l) (sym p) h,
        )
    Trace-limit _ t (step {bs = bs} {s = s} c run is e) b (there n) =
        let (l, m, h) = Trace-limit bs s run b n in
        (
          l,
          subst (λ (u : PlanState F). In l u.limits) (sym e)
              (plan_artifacts-earlier c.policy_name c.rule c.artifacts
                (record s { calls = suc s.calls }) l m),
          h,
        )

    -- The decisions of a batch keep the limits, in all and for each repository.
    pub record KeepsLimits (max_count : ℤ) (n : ℕ) (b : Batch F) : Type 0 where
      pub overall :
          IsWithin max_count n
            (count (λ d. d.delete) (decisions_of b.rule b.artifacts))
            (length b.artifacts)
      pub per_repository :
          (r : Str)
          → 1 ≤ count (λ d. d.delete && in_repository r d) (decisions_of b.rule b.artifacts)
          → IsWithin max_count n
              (count (λ d. d.delete && in_repository r d) (decisions_of b.rule b.artifacts))
              (count (in_repository r) (decisions_of b.rule b.artifacts))

    limit-KeepsLimits :
        (laws : IsRounded f) (n : ℕ) (small : n ≤ 10000) (visits : VisitsAll env.visit_order)
        (b : Batch F) (l : SafetyLimit F)
        → IsLimitOf b.rule (decisions_of b.rule b.artifacts) l
        → f.le b.rule.max_delete_percent (quotient f n 100) ≡ true
        → 1 ≤ length b.artifacts
        → validate_limit f env.visit_order l ≡ none
        → KeepsLimits b.rule.max_delete_count n b
    limit-KeepsLimits laws n small visits b l h limit some_artifacts kept =
        let ds = decisions_of b.rule b.artifacts in
        let same = evaluate-length env.visit_order visits b.artifacts b.rule now in
        let (all, each) =
          validate_limit-IsWithin f env.visit_order laws n small visits l
            (subst (λ x. f.le x (quotient f n 100) ≡ true) (sym h.max_percent) limit)
            (omega (arith, h.total, same, some_artifacts))
            (omega (arith, h.total, h.deletes, count_le_length (λ d. d.delete) ds))
            (λ r. omega (
              arith,
              h.totals r,
              h.repository_deletes r,
              count_and_le (λ d. d.delete) (in_repository r) ds,
            ))
            kept in
        record {
          overall = IsWithin-cong h.max_count h.deletes (h.total ∙ same) all;
          per_repository = λ r some_deletes.
              IsWithin-cong h.max_count (h.repository_deletes r) (h.totals r)
                (each r (subst (λ m. 1 ≤ m) (sym (h.repository_deletes r)) some_deletes));
        }

    -- The limits of a rule are those of its policy.
    rule_of-limits :
        (p : Policy F) (name : Str) (rule : Rule F)
        → rule_of env.compile p name ≡ some rule
        → (rule.max_delete_count ≡ p.safety.max_delete_count)
          × (rule.max_delete_percent ≡ p.safety.max_delete_percent)
    unfolding rule_of
    rule_of-limits p name rule h = of_patterns (compile_all env.compile p.protect.tag_patterns) h
      where
        of_patterns :
            (o : Option (List Regexp))
            → elim o [ none ↦ none | some patterns ↦ some (rule_with p name patterns) ] ≡ some rule
            → (rule.max_delete_count ≡ p.safety.max_delete_count)
              × (rule.max_delete_percent ≡ p.safety.max_delete_percent)
        of_patterns none e = cc
        of_patterns (some patterns) e = (
          ap (λ (r : Rule F). r.max_delete_count) (sym (some-inj e)),
          ap (λ (r : Rule F). r.max_delete_percent) (sym (some-inj e)),
        )

    IsBatch-nonempty : (b : Batch F) → IsBatch f env now config b → 1 ≤ length b.artifacts
    IsBatch-nonempty b is = omega (
      arith,
      discover_all-length env b.policy.tags b.listed b.artifacts is.parsed,
      is_empty-length b.listed is.nonempty,
    )

    -- A plan keeps the safety limits, for each target of each policy: it was asked for its artifacts,
    -- and of the decisions on them those to delete are no more than the policy's max_delete_count and,
    -- where max_delete_percent is at most n hundredths of a percent, less than n and a half hundredths
    -- of a percent of all, by the exact numbers, unless all are more than 2^53 / 10000; and so for the
    -- decisions on each repository that loses an artifact. Floating-point arithmetic is to follow the
    -- laws of `IsRounded`.
    pub make_plan-KeepsLimits :
        (laws : IsRounded f) (visits : VisitsAll env.visit_order) (config_bytes : Str) (plan : Plan)
        → make_plan f env now config config_bytes ≡ ok plan
        → (name : Str) (p : Policy F) (target : Target) → find name config.policies ≡ some p
        → In target p.targets
        → (n : ℕ) → n ≤ 10000
        → f.le p.safety.max_delete_percent (quotient f n 100) ≡ true
        → (b : Batch F) × IsBatch f env now config b
          × (b.policy_name ≡ name)
          × (b.target ≡ target)
          × KeepsLimits p.safety.max_delete_count n b
    make_plan-KeepsLimits laws visits config_bytes plan h name p target found targeted n small
          limit =
        let (s, bs, run, covers, kept, e) = make_plan-Traced f env now config config_bytes plan h in
        let (b, o, of_policy, at_target) = covers name p target found targeted in
        let (l, m, is_limit) = Trace-limit bs s run b o in
        let is = Trace-IsBatch f env now config bs s run b o in
        let same : b.policy ≡ p =
          some-inj (sym is.named ∙ ap (λ k. find k config.policies) of_policy ∙ found) in
        let of_rule : rule_of env.compile p name ≡ some b.rule =
          sym (ap (λ q. rule_of env.compile q name) same)
          ∙ sym (ap (rule_of env.compile b.policy) of_policy)
          ∙ is.ruled in
        let (max_count, max_percent) = rule_of-limits p name b.rule of_rule in
        (
          b,
          is,
          of_policy,
          at_target,
          subst (λ c. KeepsLimits c n b) max_count
              (limit-KeepsLimits laws n small visits b l is_limit
                (subst (λ x. f.le x (quotient f n 100) ≡ true) (sym max_percent) limit)
                (IsBatch-nonempty b is) (kept l m)),
        )
