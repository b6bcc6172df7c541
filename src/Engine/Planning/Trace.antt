-- ===== src/Engine/Planning/Trace.antt =====
-- A run of the loops of `Engine.Plan` in internal/engine/engine.go as the list of its batches: each
-- target's artifacts, evaluated by the rule of its policy.
use regbot.Base.{
  true, false, ℕ, suc, List, [], ◌∷◌, Str, none, some, ok, ◌≡◌, refl, refuse_if, is_empty, Float64,
  In, here, there, >>=-eq-ok, Bool-cases, inl, inr, require, wrap, require-eq-ok, wrap-eq-ok,
  refuse_if-eq-ok, subst, ap, ◌∙◌, sym, str_eq, str_lt, str_mem, str_mem→In, str_eq_comm,
  occurs-zero, occurs-pos, count-slice_stable, arith,
}
use mathlib.Core.Option.{Option}
use regbot.Provider.{Artifact, Time, Client}
use regbot.Plan.{Plan}
use regbot.Policy.Types.{Rule}
use regbot.Config.Types.{Policy, Target, Config}
use regbot.Config.Rules.{rule_of}
use regbot.Config.Validate.{names}
use regbot.Engine.Safety.{SafetyLimit, SafetyError, validate_limit}
use regbot.Engine.State.{PlanState, no_state}
use regbot.Engine.Planning.{
  Env, pass, find, plan_artifacts, plan_target, plan_targets, plan_found, plan_policy,
  plan_policies, check_limits, make_plan, finish, sorted_keys, discover_all,
}

pub record Batch (F : Type 0) : Type 0 where
  pub policy_name : Str
  pub policy : Policy F
  pub rule : Rule F
  pub target : Target
  pub client : Client
  pub calls : ℕ
  pub listed : List Artifact
  pub artifacts : List Artifact

pass-eq-ok : (o : Option SafetyError) {u : Unit {0}} → pass o ≡ ok u → o ≡ none
pass-eq-ok none h = refl
pass-eq-ok (some e) h = cc

module _ {F : Type 0} (f : Float64 F) (env : Env) (now : Time) (config : Config F) where
  -- The batch is what the configuration and the registry say: the target of a policy, the answer to
  -- the call of `List`, not empty, and its artifacts with their parsed versions.
  pub record IsBatch (b : Batch F) : Type 0 where
    pub named : find b.policy_name config.policies ≡ some b.policy
    pub ruled : rule_of env.compile b.policy b.policy_name ≡ some b.rule
    pub targeted : In b.target b.policy.targets
    pub configured : find b.target.registry env.clients ≡ some b.client
    pub answered :
        b.client.list b.calls (record {
          registry = b.target.registry;
          includes = b.target.repositories.include;
          excludes = b.target.repositories.exclude;
        })
        ≡ ok b.listed
    pub nonempty : is_empty b.listed ≡ false
    pub parsed : discover_all env b.policy.tags b.listed ≡ some b.artifacts

  pub data Trace : List (Batch F) → PlanState F → Type 0 where
    start : Trace [] no_state
    step :
        {bs : List (Batch F)} {s t : PlanState F} (b : Batch F)
        → Trace bs s
        → IsBatch b
        → t
          ≡ plan_artifacts f env now b.policy_name b.rule b.artifacts
              (record s { calls = suc s.calls })
        → Trace (b ∷ bs) t

  abbrev pub Includes : List (Batch F) → List (Batch F) → Type 0
  Includes bs bs' = (b : Batch F) → In b bs → In b bs'

  abbrev pub HasTarget : Str → Target → List (Batch F) → Type 0
  HasTarget name target bs = (b : Batch F) × In b bs × (b.policy_name ≡ name) × (b.target ≡ target)

  HasTarget-Includes :
      (name : Str) (target : Target) (bs bs' : List (Batch F))
      → Includes bs bs'
      → HasTarget name target bs
      → HasTarget name target bs'
  HasTarget-Includes name target bs bs' more (b, m, n, e) = (b, more b m, n, e)

  -- A run goes on to the state `t`, through batches that hold a property of the list of batches.
  abbrev pub Traced : List (Batch F) → PlanState F → (List (Batch F) → Type 0) → Type 0
  Traced bs t P = (bs' : List (Batch F)) × Trace bs' t × Includes bs bs' × P bs'

  plan_target-Traced :
      (name : Str) (policy : Policy F) (rule : Rule F) (target : Target) (s t : PlanState F)
      → find name config.policies ≡ some policy
      → rule_of env.compile policy name ≡ some rule
      → In target policy.targets
      → plan_target f env now name rule policy.tags target s ≡ ok t
      → (bs : List (Batch F)) → Trace bs s
      → Traced bs t (HasTarget name target)
  unfolding plan_target
  plan_target-Traced name policy rule target s t named ruled targeted h bs run =
      let (client, c, h1) = >>=-eq-ok (require (find target.registry env.clients) _) _ h in
      let (found, l, h2) = >>=-eq-ok (wrap _ (client.list s.calls _)) _ h1 in
      let (u, n, h3) = >>=-eq-ok (refuse_if (is_empty found) _) _ h2 in
      let (artifacts, p, h4) = >>=-eq-ok (require (discover_all env policy.tags found) _) _ h3 in
      let b : Batch F = record {
        policy_name = name;
        policy = policy;
        rule = rule;
        target = target;
        client = client;
        calls = s.calls;
        listed = found;
        artifacts = artifacts;
      } in
      (
        b ∷ bs,
        step b run
            (record {
              named = named;
              ruled = ruled;
              targeted = targeted;
              configured = require-eq-ok (find target.registry env.clients) _ c;
              answered = wrap-eq-ok _ (client.list s.calls _) l;
              nonempty = refuse_if-eq-ok (is_empty found) _ n;
              parsed = require-eq-ok (discover_all env policy.tags found) _ p;
            })
            (cc),
        λ c m. there m,
        (b, here refl, refl, refl),
      )

  plan_targets-Traced :
      (name : Str) (policy : Policy F) (rule : Rule F) (targets : List Target) (s t : PlanState F)
      → find name config.policies ≡ some policy
      → rule_of env.compile policy name ≡ some rule
      → ((target : Target) → In target targets → In target policy.targets)
      → plan_targets f env now name rule policy.tags targets s ≡ ok t
      → (bs : List (Batch F)) → Trace bs s
      → Traced bs t (λ bs'. (target : Target) → In target targets → HasTarget name target bs')
  unfolding plan_targets
  plan_targets-Traced name policy rule [] s t named ruled all h bs run =
      (bs, subst (Trace bs) (cc) run, (λ b m. m), λ target m. elim m [ ])
  plan_targets-Traced name policy rule (target ∷ rest) s t named ruled all h bs run =
      let (s', h1, h2) = >>=-eq-ok (plan_target f env now name rule policy.tags target s) _ h in
      let (bs1, run1, more1, own) =
        plan_target-Traced name policy rule target s s' named ruled (all target (here refl)) h1 bs
          run in
      let (bs2, run2, more2, others) =
        plan_targets-Traced name policy rule rest s' t named ruled (λ u m. all u (there m)) h2 bs1
          run1 in
      (
        bs2,
        run2,
        (λ b m. more2 b (more1 b m)),
        λ u m. either u (HasTarget-Includes name target bs1 bs2 more2 own) (others u) m,
      )
    where
      either :
          {bs2 : List (Batch F)} (u : Target)
          → HasTarget name target bs2
          → (In u rest → HasTarget name u bs2)
          → In u (target ∷ rest)
          → HasTarget name u bs2
      either {bs2} u own others (here e) = subst (λ v. HasTarget name v bs2) (sym e) own
      either u own others (there m) = others m

  plan_found-Traced :
      (name : Str) (o : Option (Policy F)) (s t : PlanState F)
      → find name config.policies ≡ o
      → plan_found f env now name o s ≡ ok t
      → (bs : List (Batch F)) → Trace bs s
      → Traced bs t (λ bs'.
        (p : Policy F) (target : Target)
        → o ≡ some p
        → In target p.targets
        → HasTarget name target bs')
  unfolding plan_policy
  plan_found-Traced name none s t e h bs run =
      (bs, subst (Trace bs) (cc) run, (λ b m. m), λ p target e' m. cc)
  plan_found-Traced name (some policy) s t e h bs run =
      let (rule, r, h1) = >>=-eq-ok (require (rule_of env.compile policy name) _) _ h in
      let (bs1, run1, more, targets) =
        plan_targets-Traced name policy rule policy.targets s t e
          (require-eq-ok (rule_of env.compile policy name) _ r) (λ u m. m) h1 bs run in
      (
        bs1,
        run1,
        more,
        λ p target e' m.
            targets target (subst (λ (q : Policy F). In target q.targets) (sym (some-inj e')) m),
      )
    where
      some-inj : {p q : Policy F} → some p ≡ some q → p ≡ q
      some-inj e' = cc

  plan_policies-Traced :
      (names : List Str) (s t : PlanState F)
      → plan_policies f env now config.policies names s ≡ ok t
      → (bs : List (Batch F)) → Trace bs s
      → Traced bs t (λ bs'.
        (name : Str) (p : Policy F) (target : Target)
        → In name names
        → find name config.policies ≡ some p
        → In target p.targets
        → HasTarget name target bs')
  unfolding plan_policies
  plan_policies-Traced [] s t h bs run =
      (bs, subst (Trace bs) (cc) run, (λ b m. m), λ name p target m e n. elim m [ ])
  plan_policies-Traced (name ∷ rest) s t h bs run =
      let o = find name config.policies in
      let (s', h1, h2) = >>=-eq-ok (plan_found f env now name o s) _ h in
      let (bs1, run1, more1, own) = plan_found-Traced name o s s' refl h1 bs run in
      let (bs2, run2, more2, others) = plan_policies-Traced rest s' t h2 bs1 run1 in
      (
        bs2,
        run2,
        (λ b m. more2 b (more1 b m)),
        λ other p target m e n.
            either other p target
              (λ e' n'. HasTarget-Includes name target bs1 bs2 more2 (own p target e' n'))
              (λ m'. others other p target m' e n) m e n,
      )
    where
      either :
          {bs2 : List (Batch F)} (other : Str) (p : Policy F) (target : Target)
          → (find name config.policies ≡ some p → In target p.targets → HasTarget name target bs2)
          → (In other rest → HasTarget other target bs2)
          → In other (name ∷ rest)
          → find other config.policies ≡ some p
          → In target p.targets
          → HasTarget other target bs2
      either {bs2} other p target own others (here e') e n =
          subst (λ k. HasTarget k target bs2) (sym e')
            (own (ap (λ k. find k config.policies) (sym e') ∙ e) n)
      either other p target own others (there m) e n = others m

  -- All limits are kept.
  abbrev pub AreKept : List (SafetyLimit F) → Type 0
  AreKept limits = (l : SafetyLimit F) → In l limits → validate_limit f env.visit_order l ≡ none

  check_limits-AreKept :
      (limits : List (SafetyLimit F)) {u : Unit {0}}
      → check_limits f env now limits ≡ ok u
      → AreKept limits
  unfolding check_limits
  check_limits-AreKept [] h l m = elim m [ ]
  check_limits-AreKept (k ∷ limits) h l m =
      let (u, h1, h2) = >>=-eq-ok (pass (validate_limit f env.visit_order k)) _ h in
      first_or_rest (pass-eq-ok (validate_limit f env.visit_order k) h1)
        (check_limits-AreKept limits h2 l) m
    where
      first_or_rest :
          validate_limit f env.visit_order k ≡ none
          → (In l limits → validate_limit f env.visit_order l ≡ none)
          → In l (k ∷ limits)
          → validate_limit f env.visit_order l ≡ none
      first_or_rest first rest (here e) = ap (validate_limit f env.visit_order) e ∙ first
      first_or_rest first rest (there m') = rest m'

  find-In :
      (name : Str) (policies : List (Str × Policy F)) (p : Policy F)
      → find name policies ≡ some p
      → str_mem name (names policies) ≡ true
  find-In name [] p e = cc
  find-In name ((k, q) ∷ policies) p e = elim (Bool-cases (str_eq k name)) [
    | inl same ↦ ground (arith, str_eq_comm k name)
    | inr other ↦
        ground (arith, find-In name policies p (subst (λ o. o ≡ some p) (rw other refl) e))
  ]

  sorted_keys-In :
      (name : Str) (policies : List (Str × Policy F))
      → str_mem name (names policies) ≡ true
      → In name (sorted_keys policies)
  sorted_keys-In name policies h = elim (Bool-cases (str_mem name (sorted_keys policies))) [
    | inl e ↦ str_mem→In name (sorted_keys policies) e
    | inr e ↦ absurd (
        ground (
          arith,
          occurs-zero name (sorted_keys policies) e,
          occurs-pos name (names policies) h,
          count-slice_stable str_lt (str_eq name) (names policies),
        ))
  ]

  -- The batches hold one for each target of each policy.
  abbrev pub CoversAll : List (Batch F) → Type 0
  CoversAll bs =
      (name : Str) (p : Policy F) (target : Target)
      → find name config.policies ≡ some p
      → In target p.targets
      → HasTarget name target bs

  -- A plan is the end of a run over batches, and its limits are kept.
  pub make_plan-Traced :
      (config_bytes : Str) (plan : Plan)
      → make_plan f env now config config_bytes ≡ ok plan
      → (s : PlanState F) × (bs : List (Batch F)) × Trace bs s
        × CoversAll bs
        × AreKept s.limits
        × (plan ≡ finish f env now config_bytes s)
  unfolding make_plan
  make_plan-Traced config_bytes plan h =
      let ks = sorted_keys config.policies in
      let (s, h1, h2) = >>=-eq-ok (plan_policies f env now config.policies ks no_state) _ h in
      let (u, h3, h4) = >>=-eq-ok (check_limits f env now s.limits) _ h2 in
      let (bs, run, more, covers) = plan_policies-Traced ks no_state s h1 [] start in
      (
        s,
        bs,
        run,
        (λ name p target e m.
            covers name p target
              (sorted_keys-In name config.policies (find-In name config.policies p e)) e m),
        check_limits-AreKept s.limits h3,
        cc,
      )
