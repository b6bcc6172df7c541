-- ===== src/Engine/State/Origins.antt =====
-- Where the actions of `Engine.Plan` in internal/engine/engine.go come from, and what protects a key.
use regbot.Base.{
  true, false, List, [], ◌∷◌, Str, str_eq, str_mem, ◌≡◌, refl, arith, ap, sym, ◌∙◌, Bool-cases, inl,
  inr, ◌⊎◌, In, here, there, str_eq→eq, eq→str_eq, subst,
}
use regbot.Plan.{Action}
use regbot.Policy.Types.{Decision}
use regbot.Engine.State.{
  Actions, PlanState, Tally, add_key, put, remove, consider, consider_all, unprotect, to_action,
}
use regbot.Engine.State.Keys.{str_mem-add_key}
use regbot.Engine.State.Accounts.{decision_key}

pub In-put :
    {x : Str × Action} (k : Str) (a : Action) (actions : Actions)
    → In x (put k a actions)
    → (x ≡ (k, a)) ⊎ In x actions
In-put k a [] (here e) = inl e
In-put k a [] (there m) = elim m [ ]
In-put {x} k a ((l, b) ∷ more) m = elim (Bool-cases (str_eq l k)) [
  | inl e ↦ replaced (str_eq→eq l k e) (subst (In x) (rw e) m)
  | inr e ↦ kept (In-put k a more) (subst (In x) (rw e) m)
]
  where
    replaced : l ≡ k → In x ((l, a) ∷ more) → (x ≡ (k, a)) ⊎ In x ((l, b) ∷ more)
    replaced p (here e) = inl (e ∙ ap (λ t. (t, a)) p)
    replaced p (there n) = inr (there n)

    kept :
        (In x (put k a more) → (x ≡ (k, a)) ⊎ In x more)
        → In x ((l, b) ∷ put k a more)
        → (x ≡ (k, a)) ⊎ In x ((l, b) ∷ more)
    kept rest (here e) = inr (here e)
    kept rest (there n) = elim (rest n) [ inl e ↦ inl e | inr o ↦ inr (there o) ]

pub In-remove :
    {x : Str × Action} (k : Str) (actions : Actions)
    → In x (remove k actions)
    → In x actions × (str_eq x.0 k ≡ false)
In-remove k [] m = elim m [ ]
In-remove {x} k ((l, b) ∷ more) m = elim (Bool-cases (str_eq l k)) [
  | inl e ↦ gone (In-remove k more (subst (In x) (rw e) m))
  | inr e ↦ kept e (In-remove k more) (subst (In x) (rw e) m)
]
  where
    gone : In x more × (str_eq x.0 k ≡ false) → In x ((l, b) ∷ more) × (str_eq x.0 k ≡ false)
    gone (n, e) = (there n, e)

    kept :
        str_eq l k ≡ false
        → (In x (remove k more) → In x more × (str_eq x.0 k ≡ false))
        → In x ((l, b) ∷ remove k more)
        → In x ((l, b) ∷ more) × (str_eq x.0 k ≡ false)
    kept e rest (here p) = (here p, ap (λ (y : Str × Action). str_eq y.0 k) p ∙ e)
    kept e rest (there n) = gone (rest n)

pub In-unprotect :
    {x : Str × Action} (ps : List Str) (actions : Actions)
    → In x (unprotect ps actions)
    → In x actions × (str_mem x.0 ps ≡ false)
In-unprotect [] actions m = (m, refl)
In-unprotect {x} (p ∷ ps) actions m =
    let (n, e) = In-unprotect ps (remove p actions) m in
    let (o, e') = In-remove p actions n in (o, rw (e', e))

-- An action that the loop over the decisions adds is that of a decision to delete.
abbrev pub ActionOf : Str → List Decision → Str × Action → Type 0
ActionOf policy_name ds x =
    (d : Decision) × In d ds × (d.delete ≡ true) × (x ≡ (decision_key d, to_action policy_name d))

module _ {F : Type 0} (policy_name : Str) where
  pub consider-kept :
      (d : Decision) (s : PlanState F) (t : Tally)
      → d.delete ≡ false
      → (consider policy_name d (s, t)).0 ≡ record s {
        protected = add_key (decision_key d) s.protected;
        actions = remove (decision_key d) s.actions;
      }
  unfolding consider
  consider-kept d s t e = rw e

  pub consider-chosen :
      (d : Decision) (s : PlanState F) (t : Tally)
      → d.delete ≡ true
      → (consider policy_name d (s, t)).0
        ≡ record s { actions = put (decision_key d) (to_action policy_name d) s.actions }
  unfolding consider
  consider-chosen d s t e = rw e

  consider-In :
      {x : Str × Action} (d : Decision) (s : PlanState F) (t : Tally)
      → In x (consider policy_name d (s, t)).0.actions
      → In x s.actions ⊎ ((d.delete ≡ true) × (x ≡ (decision_key d, to_action policy_name d)))
  consider-In {x} d s t m = elim (Bool-cases d.delete) [
    | inl e ↦
        elim (In-put (decision_key d) (to_action policy_name d) s.actions
          (subst (λ (u : PlanState F). In x u.actions) (consider-chosen d s t e) m)) [
            | inl p ↦ inr (e, p)
            | inr n ↦ inl n
          ]
    | inr e ↦
        inl
          (In-remove (decision_key d) s.actions
            (subst (λ (u : PlanState F). In x u.actions) (consider-kept d s t e) m)).0
  ]

  pub consider_all-In :
      {x : Str × Action} (ds : List Decision) (s : PlanState F) (t : Tally)
      → In x (consider_all policy_name ds (s, t)).0.actions
      → In x s.actions ⊎ ActionOf policy_name ds x
  unfolding consider_all
  consider_all-In [] s t m = inl m
  consider_all-In {x} (d ∷ ds) s t m =
      let (s', t') = consider policy_name d (s, t) in
      elim (consider_all-In ds s' t' m) [
        | inl n ↦ elim (consider-In d s t n) [
          | inl o ↦ inl o
          | inr (e, p) ↦ inr (d, here refl, e, p)
        ]
        | inr (d', n, e, p) ↦ inr (d', there n, e, p)
      ]

  -- A protected key stays protected.
  consider-protected :
      (j : Str) (d : Decision) (s : PlanState F) (t : Tally)
      → (str_mem j s.protected ≡ true) ⊎ ((d.delete ≡ false) × (j ≡ decision_key d))
      → str_mem j (consider policy_name d (s, t)).0.protected ≡ true
  consider-protected j d s t h = elim (Bool-cases d.delete) [
    | inl e ↦ rw (consider-chosen d s t e) (ground (arith, e))
    | inr e ↦
        rw (consider-kept d s t e, str_mem-add_key) (ground (arith, eq→str_eq j (decision_key d)))
  ]

  pub consider_all-protected :
      (j : Str) (ds : List Decision) (s : PlanState F) (t : Tally)
      → (str_mem j s.protected ≡ true)
        ⊎ ((d : Decision) × In d ds × (d.delete ≡ false) × (j ≡ decision_key d))
      → str_mem j (consider_all policy_name ds (s, t)).0.protected ≡ true
  unfolding consider_all
  consider_all-protected j [] s t (inl e) = e
  consider_all-protected j [] s t (inr (d, m, e, p)) = elim m [ ]
  consider_all-protected j (d ∷ ds) s t h =
      let (s', t') = consider policy_name d (s, t) in consider_all-protected j ds s' t' (next h)
    where
      next :
          (str_mem j s.protected ≡ true)
            ⊎ ((e : Decision) × In e (d ∷ ds) × (e.delete ≡ false) × (j ≡ decision_key e))
          → (str_mem j (consider policy_name d (s, t)).0.protected ≡ true)
            ⊎ ((e : Decision) × In e ds × (e.delete ≡ false) × (j ≡ decision_key e))
      next (inl e) = inl (consider-protected j d s t (inl e))
      next (inr (e, here p, kept, own)) = inl (
          consider-protected j d s t
            (inr (sym (ap (λ (u : Decision). u.delete) p) ∙ kept, own ∙ ap decision_key p)))
      next (inr (e, there n, kept, own)) = inr (e, n, kept, own)
