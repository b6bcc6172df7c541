-- ===== src/Config/Valid.antt =====
-- What `Config.Validate` of internal/config/config.go means for `Policy.Rule`.
use regbot.Base.{
  Bool, true, false, ◌&&◌, ◌||◌, not, List, [], ◌∷◌, ◌++◌, Str, Option, some, codes, str_eq,
  str_mem, is_empty, Float64, pos, ltb_ℤ, leb_ℤ, ◌≤ℤ◌, ◌<ℤ◌, any, In, here, there, ◌≡◌, refl, arith,
  sym, subst, Option-cases, inl, inr,
}
use regbot.Policy.Types.{Regexp, Rule}
use regbot.Config.Types.{Target, Policy, Config}
use regbot.Config.Rules.{compile_all, rule_of, rule_with}
use regbot.Config.Validate.{
  ConfigError, no_targets, version_must_be_v1, no_registries, when, names, target_errors,
  compile_errors, parser_errors, policy_errors, all_registry_errors, all_policy_errors, validate,
}

nothing_left : (xs ys : List ConfigError) → xs ++ ys ≡ [] → (xs ≡ []) × (ys ≡ [])
nothing_left [] ys e = (refl, e)
nothing_left (x ∷ xs) ys e = cc

not_when : (b : Bool) (x : ConfigError) → when b x ≡ [] → b ≡ false
not_when false x e = refl
not_when true x e = cc

unknown_target : List Str → Target → Bool
unknown_target registries t = not (str_mem t.registry registries)

module _ {F : Type 0} (f : Float64 F) (compile : Str → Option Regexp) where
  -- The policy compiles to a rule, whose numbers are in order, and its targets are in registries that
  -- there are.
  pub record IsUsable (registries : List Str) (name : Str) (p : Policy F) : Type 0 where
    pub rule : Rule F
    pub compiled : rule_of compile p name ≡ some rule
    pub keeps_one : pos 1 ≤ℤ rule.keep_at_least
    pub old : pos 0 <ℤ rule.delete_older_than
    pub young : rule.keep_newer_than ≤ℤ rule.delete_older_than
    pub some_count : pos 0 <ℤ rule.max_delete_count
    pub known : any (λ t. not (str_mem t.registry registries)) p.targets ≡ false

  compile_all-cons :
      (x : Str) (es : List Str) {r : Regexp} {rs : List Regexp}
      → compile x ≡ some r
      → compile_all compile es ≡ some rs
      → compile_all compile (x ∷ es) ≡ some (r ∷ rs)
  unfolding compile_all
  compile_all-cons x es s all = rw (compile_all, s, all) refl

  compiles_all :
      (name : Str) (es : List Str)
      → compile_errors f compile name es ≡ []
      → (rs : List Regexp) × (compile_all compile es ≡ some rs)
  unfolding compile_all
  compiles_all name [] e = ([], refl)
  compiles_all name (x ∷ es) e = elim (Option-cases (compile x)) [
    | inl n ↦ absurd (nonempty (rw n at e))
    | inr (r, s) ↦
        let (rs, all) = compiles_all name es (rw s at e) in (r ∷ rs, compile_all-cons x es s all)
  ]
    where
      nonempty : {y : ConfigError} {ys : List ConfigError} → y ∷ ys ≡ [] → ⊥
      nonempty e = cc

  all_known :
      (name : Str) (registries : List Str) (ts : List Target)
      → target_errors name registries ts ≡ []
      → any (λ t. not (str_mem t.registry registries)) ts ≡ false
  all_known name registries [] e = refl
  all_known name registries (t ∷ ts) e =
      let (first, rest) = nothing_left (when (not (str_mem t.registry registries)) _) _ e in
      rw (not_when _ _ first) (all_known name registries ts rest)

  rule_of-compiled :
      (p : Policy F) (name : Str) {rs : List Regexp}
      → compile_all compile p.protect.tag_patterns ≡ some rs
      → rule_of compile p name ≡ some (rule_with p name rs)
  unfolding rule_of
  rule_of-compiled p name all = rw (rule_of, all) refl

  policy-IsUsable :
      (registries : List Str) (name : Str) (p : Policy F)
      → policy_errors f compile registries name p ≡ []
      → IsUsable registries name p
  unfolding policy_errors rule_of
  policy-IsUsable registries name p e =
      let (e0, r0) = nothing_left (when (is_empty p.targets) (no_targets name)) _ e in
      let (e1, r1) = nothing_left (parser_errors f compile name p.tags) _ r0 in
      let (old, r2) = nothing_left (when (leb_ℤ p.retention.delete_older_than (pos 0)) _) _ r1 in
      let (young, r3) =
        nothing_left (when (ltb_ℤ p.retention.delete_older_than p.retention.keep_newer_than) _) _
          r2 in
      let (least, r4) = nothing_left (when (ltb_ℤ p.retention.keep_at_least (pos 1)) _) _ r3 in
      let (e5, r5) = nothing_left (when (ltb_ℤ p.retention.keep_latest (pos 0)) _) _ r4 in
      let (e6, r6) =
        nothing_left
          (when
            (not (is_empty p.retention.group_by) && not (str_eq p.retention.group_by (codes "app")))
            _)
          _ r5 in
      let (number, r7) = nothing_left (when (leb_ℤ p.safety.max_delete_count (pos 0)) _) _ r6 in
      let (e8, r8) =
        nothing_left
          (when
            (f.le p.safety.max_delete_percent (f.of_int (pos 0))
              || f.lt (f.of_int (pos 100)) p.safety.max_delete_percent)
            _)
          _ r7 in
      let (targets, patterns) = nothing_left (target_errors name registries p.targets) _ r8 in
      let (rs, all) = compiles_all name p.protect.tag_patterns patterns in
      record {
        rule = rule_with p name rs;
        compiled = rule_of-compiled p name all;
        keeps_one = ground (arith, not_when _ _ least);
        old = ground (arith, not_when _ _ old);
        young = ground (arith, not_when _ _ young);
        some_count = ground (arith, not_when _ _ number);
        known = all_known name registries p.targets targets;
      }

  all-IsUsable :
      (registries : List Str) (policies : List (Str × Policy F)) (name : Str) (p : Policy F)
      → all_policy_errors f compile registries policies ≡ []
      → In (name, p) policies
      → IsUsable registries name p
  all-IsUsable registries [] name p e i = elim i [ ]
  all-IsUsable registries ((n, q) ∷ rest) name p e (here same) =
      let (first, more) = nothing_left (policy_errors f compile registries n q) _ e in
      subst (λ r. IsUsable registries r.0 r.1) (sym same) (policy-IsUsable registries n q first)
  all-IsUsable registries ((n, q) ∷ rest) name p e (there i) =
      let (first, more) = nothing_left (policy_errors f compile registries n q) _ e in
      all-IsUsable registries rest name p more i

  -- Each policy of a configuration without errors compiles to a rule: one that keeps at least one artifact of
  -- a group, deletes only what is older than a positive time that is no shorter than the time for what is
  -- new, and allows a positive number of deletions. The registries of its targets are configured.
  pub validate-IsUsable :
      (parses_cron : Str → Bool) (has_zone : Str → Bool) (c : Config F) (name : Str) (p : Policy F)
      → validate f compile parses_cron has_zone c ≡ []
      → In (name, p) c.policies
      → IsUsable (names c.registries) name p
  unfolding validate
  validate-IsUsable parses_cron has_zone c name p e i =
      let (e0, r0) =
        nothing_left (when (not (str_eq c.version (codes "v1"))) version_must_be_v1) _ e in
      let (e1, r1) = nothing_left (when (is_empty c.registries) no_registries) _ r0 in
      let (e2, r2) = nothing_left (all_registry_errors f compile c.registries) _ r1 in
      let (policies, r3) =
        nothing_left (all_policy_errors f compile (names c.registries) c.policies) _ r2 in
      all-IsUsable (names c.registries) c.policies name p policies i
