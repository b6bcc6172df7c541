-- ===== src/Policy/Evaluate/Ranks.antt =====
-- The rank at which `Evaluate` of pkg/policy/policy.go judges each decision, and the result of the
-- whole evaluation, position by position.
use mathlib.Core.Option
use regbot.Base.{
  Bool, true, false, ℕ, suc, ◌≤◌, List, [], ◌∷◌, Str, ◌==◌, count, if◌then◌else◌, get_elem?, none,
  some, ◌≡◌, refl, sym, ◌∙◌, ap, arith, Bool-cases, inl, inr, map, fun_ext, modify,
  get_elem?-modify, get_elem?-map, map-modify, slice_stable, count-slice_stable,
}
use mathlib.Core.Option.{Option}
use regbot.Provider.{Artifact, Time}
use regbot.Policy.Types.{Rule, Decision}
use regbot.Policy.Order.{newer}
use regbot.Policy.Judge.{judge, settle}
use regbot.Policy.Judge.Laws.{judge_lem}
use regbot.Policy.Evaluate.{newer_decision, newer_at, judge_ranked}
use regbot.Policy.Evaluate.Groups.{positions, count-positions, here_or}

-- The place of an index in a list, `none` if it is not there.
abbrev pub rank_from : ℕ → List ℕ → ℕ → Option ℕ
rank_from r [] i = none
rank_from r (j ∷ js) i = if j == i then some r else rank_from (suc r) js i

pub rank_from-none :
    (r : ℕ) (js : List ℕ) (i : ℕ) → count (λ j. j == i) js ≡ 0 → rank_from r js i ≡ none
rank_from-none r [] i h = refl
rank_from-none r (j ∷ js) i h = ground (arith, rank_from-none (suc r) js i)

settle-artifact :
    (eligible : Bool) (d : Decision) (v : List _ × Bool)
    → (settle eligible d v).artifact ≡ d.artifact
settle-artifact eligible d (rs, true) = refl
settle-artifact true d (rs, false) = refl
settle-artifact false d (rs, false) = refl

settle-group :
    (eligible : Bool) (d : Decision) (v : List _ × Bool) → (settle eligible d v).group ≡ d.group
settle-group eligible d (rs, true) = refl
settle-group true d (rs, false) = refl
settle-group false d (rs, false) = refl

module _ {F : Type 0} (rule : Rule F) (now : Time) where
  pub judge-artifact : (r : ℕ) (d : Decision) → (judge rule now r d).artifact ≡ d.artifact
  judge-artifact r d = rw judge_lem (settle-artifact _ d _)

  pub judge-group : (r : ℕ) (d : Decision) → (judge rule now r d).group ≡ d.group
  judge-group r d = rw judge_lem (settle-group _ d _)

  abbrev pub judge_at : Option ℕ → Decision → Decision
  judge_at none d = d
  judge_at (some r) d = judge rule now r d

  pub unjudged : (o : Option Decision) → Option.map (judge_at none) o ≡ o
  unjudged none = refl
  unjudged (some d) = refl

  -- The loop over the ranks judges each index in the list at its place, and leaves the others.
  pub judge_ranked-get_elem? :
      (r : ℕ) (is : List ℕ) (ds : List Decision) (i : ℕ)
      → count (λ j. j == i) is ≤ 1
      → get_elem? (judge_ranked rule now r is ds) i
        ≡ Option.map (judge_at (rank_from r is i)) (get_elem? ds i)
  unfolding judge_ranked
  judge_ranked-get_elem? r [] ds i h = sym (unjudged (get_elem? ds i))
  judge_ranked-get_elem? r (j ∷ is) ds i h =
      let ds' = modify ds j (judge rule now r) in
      let at_ds' = get_elem?-modify ds j i (judge rule now r) in
      elim (Bool-cases (j == i)) [
        | inl e ↦ rw (
          judge_ranked-get_elem? (suc r) is ds' i (ground arith),
          rank_from-none (suc r) is i (ground arith),
          unjudged,
          at_ds',
          e,
        )
        | inr e ↦ rw (judge_ranked-get_elem? (suc r) is ds' i (ground arith), at_ds', e)
      ]

  pub judge_ranked-artifacts :
      (r : ℕ) (is : List ℕ) (ds : List Decision)
      → map (λ d. d.artifact) (judge_ranked rule now r is ds) ≡ map (λ d. d.artifact) ds
  unfolding judge_ranked
  judge_ranked-artifacts r [] ds = refl
  judge_ranked-artifacts r (i ∷ is) ds =
      judge_ranked-artifacts (suc r) is (modify ds i (judge rule now r))
      ∙ map-modify (λ d. d.artifact) (judge rule now r) ds i (judge-artifact r)

abbrev newer_artifact : Option Artifact → Option Artifact → Bool
newer_artifact (some a) (some b) = newer a b
newer_artifact a b = false

newer_decision-map :
    (a b : Option Decision)
    → newer_decision a b
      ≡ newer_artifact (Option.map (λ d. d.artifact) a) (Option.map (λ d. d.artifact) b)
newer_decision-map none b = refl
newer_decision-map (some a) none = refl
newer_decision-map (some a) (some b) = refl

newer_at-artifacts :
    (ds : List Decision) (i j : ℕ)
    → newer_at ds i j
      ≡ newer_artifact
          (get_elem? (map (λ d. d.artifact) ds) i)
          (get_elem? (map (λ d. d.artifact) ds) j)
newer_at-artifacts ds i j =
    rw (get_elem?-map (λ d. d.artifact) ds i, get_elem?-map (λ d. d.artifact) ds j)
      (newer_decision-map (get_elem? ds i) (get_elem? ds j))

-- The comparison of the sort looks at artifacts only, which no verdict changes.
pub newer_at-eq :
    (ds es : List Decision)
    → map (λ d. d.artifact) ds ≡ map (λ d. d.artifact) es
    → newer_at ds ≡ newer_at es
newer_at-eq ds es h = fun_ext λ i. fun_ext λ j.
    newer_at-artifacts ds i j
    ∙ (ap (λ l. newer_artifact (get_elem? l i) (get_elem? l j)) h ∙ sym (newer_at-artifacts es i j))

-- The indices of a group, sorted.
abbrev pub ranking : List Decision → Str → List ℕ
ranking ds key = slice_stable (newer_at ds) (positions key 0 ds)

pub count-ranking :
    (ds : List Decision) (key : Str) (i : ℕ)
    → count (λ j. j == i) (ranking ds key) ≡ here_or key (get_elem? ds i)
count-ranking ds key i =
    count-slice_stable (newer_at ds) (λ j. j == i) (positions key 0 ds)
    ∙ (ap (λ m. count (λ j. j == m) (positions key 0 ds)) (omega arith)
        ∙ count-positions key 0 ds i)

pub here_or-le : (key : Str) (o : Option Decision) → here_or key o ≤ 1
here_or-le key o = ground arith
