-- ===== src/Engine/State/Counting.antt =====
-- What the loop over the decisions of `Engine.Plan` in internal/engine/engine.go counts.
use regbot.Base.{
  Bool, ◌&&◌, ℕ, suc, ◌+◌, List, [], ◌∷◌, Str, str_eq, if◌then◌else◌, ◌≡◌, refl, arith, ap, ◌∙◌,
  Bool-cases, inl, inr, count, str_eq_iff, str_eq→eq,
}
use regbot.Policy.Types.{Decision}
use regbot.Engine.Safety.{Counts, count_of, increment}
use regbot.Engine.State.{PlanState, Tally, consider, consider_all}

pub count_of-increment :
    (j k : Str) (cs : Counts)
    → count_of j (increment k cs) ≡ count_of j cs + (if str_eq k j then 1 else 0)
count_of-increment j k [] = ground arith
count_of-increment j k ((l, n) ∷ cs) = elim (Bool-cases (str_eq l k)) [
  | inl e ↦ rw e (ground (arith, ap (λ t. str_eq t j) (str_eq→eq l k e)))
  | inr e ↦
      rw e
        (ground (arith, count_of-increment j k cs, str_eq_iff l j, str_eq_iff k j, str_eq_iff l k))
]

abbrev pub in_repository : Str → Decision → Bool
in_repository r d = str_eq d.artifact.repository r

-- The tally of a loop counts the decisions to delete, and those of each repository.
pub record Counted (ds : List Decision) (t u : Tally) : Type 0 where
  pub deletes : u.deletes ≡ t.deletes + count (λ d. d.delete) ds
  pub totals :
      (r : Str)
      → count_of r u.repository_totals ≡ count_of r t.repository_totals + count (in_repository r) ds
  pub repository_deletes :
      (r : Str)
      → count_of r u.repository_deletes
        ≡ count_of r t.repository_deletes + count (λ d. d.delete && in_repository r d) ds

deletes_step :
    (r : Str) (d : Decision) (cs : Counts)
    → count_of r (if d.delete then increment d.artifact.repository cs else cs)
      ≡ count_of r cs + (if d.delete && in_repository r d then 1 else 0)
deletes_step r d cs = elim (Bool-cases d.delete) [
  | inl e ↦ rw e (count_of-increment r d.artifact.repository cs)
  | inr e ↦ rw e (omega arith)
]

Counted-step :
    (d : Decision) (ds : List Decision) (t v u : Tally)
    → v.deletes ≡ t.deletes + (if d.delete then 1 else 0)
    → v.repository_totals ≡ increment d.artifact.repository t.repository_totals
    → v.repository_deletes ≡ (
        if d.delete
        then increment d.artifact.repository t.repository_deletes
        else t.repository_deletes)
    → Counted ds v u
    → Counted (d ∷ ds) t u
Counted-step d ds t v u e1 e2 e3 h = record {
  deletes = omega (arith, h.deletes, e1);
  totals = λ r. omega (
    arith,
    h.totals r,
    ap (count_of r) e2,
    count_of-increment r d.artifact.repository t.repository_totals,
  );
  repository_deletes = λ r.
      omega
        (arith, h.repository_deletes r, ap (count_of r) e3, deletes_step r d t.repository_deletes);
}

module _ {F : Type 0} (policy_name : Str) where
  consider-tally :
      (d : Decision) (s : PlanState F) (t : Tally)
      → (consider policy_name d (s, t)).1 ≡ record {
        deletes = t.deletes + (if d.delete then 1 else 0);
        repository_totals = increment d.artifact.repository t.repository_totals;
        repository_deletes =
            if d.delete
            then increment d.artifact.repository t.repository_deletes
            else t.repository_deletes;
      }
  unfolding consider
  consider-tally d s t = elim (Bool-cases d.delete) [
    | inl e ↦ rw e (cc (one t.deletes))
    | inr e ↦ rw e (cc (none' t.deletes))
  ]
    where
      one : (n : ℕ) → n + 1 ≡ suc n
      one n = omega arith

      none' : (n : ℕ) → n + 0 ≡ n
      none' n = omega arith

  consider-Counted :
      (d : Decision) (ds : List Decision) (s : PlanState F) (t u : Tally)
      → Counted ds (consider policy_name d (s, t)).1 u
      → Counted (d ∷ ds) t u
  consider-Counted d ds s t u h =
      let e = consider-tally d s t in
      Counted-step d ds t (consider policy_name d (s, t)).1 u (ap (λ (v : Tally). v.deletes) e)
        (ap (λ (v : Tally). v.repository_totals) e) (ap (λ (v : Tally). v.repository_deletes) e) h

  pub consider_all-Counted :
      (ds : List Decision) (s : PlanState F) (t : Tally)
      → Counted ds t (consider_all policy_name ds (s, t)).1
  unfolding consider_all
  consider_all-Counted [] s t = record {
    deletes = omega arith;
    totals = λ r. omega arith;
    repository_deletes = λ r. omega arith;
  }
  consider_all-Counted (d ∷ ds) s t =
      let (s', t') = consider policy_name d (s, t) in
      consider-Counted d ds s t _ (consider_all-Counted ds s' t')

  consider-limits :
      (d : Decision) (s : PlanState F) (t : Tally)
      → (consider policy_name d (s, t)).0.limits ≡ s.limits
  unfolding consider
  consider-limits d s t = ground arith

  pub consider_all-limits :
      (ds : List Decision) (s : PlanState F) (t : Tally)
      → (consider_all policy_name ds (s, t)).0.limits ≡ s.limits
  unfolding consider_all
  consider_all-limits [] s t = refl
  consider_all-limits (d ∷ ds) s t =
      let (s', t') = consider policy_name d (s, t) in
      consider_all-limits ds s' t' ∙ consider-limits d s t
