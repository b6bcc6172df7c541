-- ===== src/Policy/Evaluate/Positions.antt =====
-- The result of `Evaluate` in pkg/policy/policy.go, position by position: the order in which the
-- map of groups is visited plays no part.
use mathlib.Core.Option
use regbot.Base.{
  true, false, ℕ, suc, ◌+◌, List, [], ◌∷◌, Str, str_eq, ◌==◌, count, if◌then◌else◌, get_elem?, none,
  some, ◌≡◌, refl, sym, ◌∙◌, ap, arith, Bool-cases, inl, inr, map, occurs, occurs-pos,
  get_elem?-map, str_eq_refl, str_eq→eq, Option-cases, get_elem?-ext, ◌↔◌,
}
use mathlib.Core.Option.{Option}
use regbot.Provider.{Artifact, Time}
use regbot.Policy.Types.{Rule, Decision}
use regbot.Policy.Judge.{judge}
use regbot.Policy.Judge.Eligible.{IsEligible, judge-IsEligible}
use regbot.Policy.Evaluate.{
  Groups, start, collect, indices_of, keys, visit_group, visit_groups, evaluate, VisitsAll,
}
use regbot.Policy.Evaluate.Groups.{
  positions, indices_of-collect, collect-AreDistinct, collect-covers, here_or,
}
use regbot.Policy.Evaluate.Ranks.{
  judge-artifact, rank_from, rank_from-none, judge_at, unjudged, judge_ranked-get_elem?,
  judge_ranked-artifacts, newer_at-eq, ranking, count-ranking, here_or-le,
}

module _ {F : Type 0} (rule : Rule F) (now : Time) (ds : List Decision) (groups : Groups)
    (built : (key : Str) → indices_of key groups ≡ positions key 0 ds) where
  abbrev SameArtifacts : List Decision → Type 0
  SameArtifacts es = map (λ d. d.artifact) es ≡ map (λ d. d.artifact) ds

  visit_group-artifacts :
      (key : Str) (es : List Decision)
      → SameArtifacts es
      → SameArtifacts (visit_group rule now (indices_of key groups) es)
  unfolding visit_group
  visit_group-artifacts key es h = judge_ranked-artifacts rule now 0 _ es ∙ h

  visit_group-get_elem? :
      (key : Str) (es : List Decision) (i : ℕ)
      → SameArtifacts es
      → get_elem? (visit_group rule now (indices_of key groups) es) i
        ≡ Option.map (judge_at rule now (rank_from 0 (ranking ds key) i)) (get_elem? es i)
  unfolding visit_group
  visit_group-get_elem? key es i h =
      rw (built key, newer_at-eq es ds h)
        (judge_ranked-get_elem? rule now 0 (ranking ds key) es i
          (rw (count-ranking ds key i) (here_or-le key (get_elem? ds i))))

  module _ (i : ℕ) (d : Decision) (at_i : get_elem? ds i ≡ some d) where
    -- A visit of another group leaves the position alone.
    visit_other :
        (key : Str) (es : List Decision)
        → SameArtifacts es
        → str_eq d.group key ≡ false
        → get_elem? (visit_group rule now (indices_of key groups) es) i ≡ get_elem? es i
    visit_other key es h e =
        visit_group-get_elem? key es i h
        ∙ rw (rank_from-none 0 (ranking ds key) i (count-ranking ds key i ∙ rw (at_i, e)))
            (unjudged rule now (get_elem? es i))

    visit_groups_others :
        (ks : List Str) (es : List Decision)
        → SameArtifacts es
        → occurs d.group ks ≡ 0
        → get_elem? (visit_groups rule now groups ks es) i ≡ get_elem? es i
    unfolding visit_groups
    visit_groups_others [] es h e = refl
    visit_groups_others (key ∷ ks) es h e =
        visit_groups_others ks _ (visit_group-artifacts key es h) (ground arith)
        ∙ visit_other key es h (ground arith)

    visit_groups_own :
        (ks : List Str) (es : List Decision)
        → SameArtifacts es
        → occurs d.group ks ≡ 1
        → get_elem? (visit_groups rule now groups ks es) i
          ≡ Option.map (judge_at rule now (rank_from 0 (ranking ds d.group) i)) (get_elem? es i)
    unfolding visit_groups
    visit_groups_own [] es h e = absurd (omega arith)
    visit_groups_own (key ∷ ks) es h e = elim (Bool-cases (str_eq d.group key)) [
      | inl own ↦
          visit_groups_others ks _ (visit_group-artifacts key es h) (ground arith)
          ∙ rw (str_eq→eq d.group key own) (visit_group-get_elem? key es i h)
      | inr other ↦
          visit_groups_own ks _ (visit_group-artifacts key es h) (ground arith)
          ∙ ap (Option.map (judge_at rule now (rank_from 0 (ranking ds d.group) i)))
              (visit_other key es h other)
    ]

  visit_groups-artifacts :
      (ks : List Str) (es : List Decision)
      → SameArtifacts es
      → SameArtifacts (visit_groups rule now groups ks es)
  unfolding visit_groups
  visit_groups-artifacts [] es h = h
  visit_groups-artifacts (key ∷ ks) es h =
      visit_groups-artifacts ks _ (visit_group-artifacts key es h)

-- The place of an index in a list that holds it.
abbrev pub rank_in : List ℕ → ℕ → ℕ
rank_in [] i = 0
rank_in (j ∷ js) i = if j == i then 0 else suc (rank_in js i)

rank_from-rank_in :
    (r : ℕ) (js : List ℕ) (i : ℕ)
    → count (λ j. j == i) js ≡ 1
    → rank_from r js i ≡ some (r + rank_in js i)
rank_from-rank_in r [] i h = absurd (omega arith)
rank_from-rank_in r (j ∷ js) i h = elim (Bool-cases (j == i)) [
  | inl e ↦ rw e (ap some (omega arith))
  | inr e ↦ rw e (rank_from-rank_in (suc r) js i (ground arith) ∙ ap some (omega arith))
]

rank_from_zero :
    (js : List ℕ) (i : ℕ) → count (λ j. j == i) js ≡ 1 → rank_from 0 js i ≡ some (rank_in js i)
rank_from_zero js i h = rank_from-rank_in 0 js i h ∙ ap some (omega arith)

map-none : {A B : Type 0} (f : A → B) (o : Option A) → Option.map f o ≡ none → o ≡ none
map-none f none h = refl
map-none f (some a) h = cc

module _ {F : Type 0} (artifacts : List Artifact) (rule : Rule F) where
  -- The decisions before the loops over the groups.
  abbrev pub fresh : List Decision
  fresh = map (start rule) artifacts

  -- The rank of the artifact `a` at the position `i` among those of its group.
  abbrev pub rank_of : Artifact → ℕ → ℕ
  rank_of a i = rank_in (ranking fresh (start rule a).group) i

module _ {F : Type 0} (visit_order : List Str → List Str) (visits : VisitsAll visit_order)
    (artifacts : List Artifact) (rule : Rule F) (now : Time) where
  abbrev groups_of : Groups
  groups_of = collect 0 (fresh artifacts rule) []

  own_group_visited :
      (i : ℕ) (d : Decision)
      → get_elem? (fresh artifacts rule) i ≡ some d
      → occurs d.group (visit_order (keys groups_of)) ≡ 1
  own_group_visited i d h =
      let seen =
        occurs-pos d.group (keys groups_of) (collect-covers 0 (fresh artifacts rule) [] i d h) in
      let once = collect-AreDistinct 0 (fresh artifacts rule) [] (λ k. omega arith) d.group in
      omega (arith, visits (keys groups_of) d.group)

  built_groups : (key : Str) → indices_of key groups_of ≡ positions key 0 (fresh artifacts rule)
  built_groups key = indices_of-collect key (fresh artifacts rule)

  pub evaluate_found :
      (i : ℕ) (a : Artifact)
      → get_elem? artifacts i ≡ some a
      → get_elem? (evaluate visit_order artifacts rule now) i
        ≡ some (judge rule now (rank_of artifacts rule a i) (start rule a))
  unfolding evaluate
  evaluate_found i a found =
      let d = start rule a in
      let at_i = get_elem?-map (start rule) artifacts i ∙ ap (Option.map (start rule)) found in
      let once =
        count-ranking (fresh artifacts rule) d.group i
        ∙ (ap (here_or d.group) at_i ∙ rw (str_eq_refl d.group)) in
      let ranked = rank_from_zero (ranking (fresh artifacts rule) d.group) i once in
      visit_groups_own rule now (fresh artifacts rule) groups_of built_groups i d at_i
        (visit_order (keys groups_of)) (fresh artifacts rule) refl (own_group_visited i d at_i)
      ∙ (ap
            (Option.map
              (judge_at rule now (rank_from 0 (ranking (fresh artifacts rule) d.group) i)))
            at_i
          ∙ ap (λ o. some (judge_at rule now o d)) ranked)

  evaluate_gone :
      (i : ℕ)
      → get_elem? artifacts i ≡ none
      → get_elem? (evaluate visit_order artifacts rule now) i ≡ none
  unfolding evaluate
  evaluate_gone i gone =
      let es = evaluate visit_order artifacts rule now in
      let same =
        visit_groups-artifacts rule now (fresh artifacts rule) groups_of built_groups
          (visit_order (keys groups_of)) (fresh artifacts rule) refl in
      map-none (λ d. d.artifact) (get_elem? es i)
        (sym (get_elem?-map (λ d. d.artifact) es i)
          ∙ (ap (λ l. get_elem? l i) same
              ∙ (get_elem?-map (λ d. d.artifact) (fresh artifacts rule) i
                  ∙ (ap (Option.map (λ d. d.artifact)) (get_elem?-map (start rule) artifacts i)
                      ∙ rw gone))))

  -- Every artifact gets the verdict of the loop body at its rank in its own group, and stays at its
  -- position; the order in which the groups are visited plays no part.
  pub evaluate-get_elem? :
      (i : ℕ)
      → get_elem? (evaluate visit_order artifacts rule now) i
        ≡ Option.map
            (λ a. judge rule now (rank_of artifacts rule a i) (start rule a))
            (get_elem? artifacts i)
  evaluate-get_elem? i = elim (Option-cases (get_elem? artifacts i)) [
    | inl gone ↦ rw gone (evaluate_gone i gone)
    | inr (a, found) ↦ rw found (evaluate_found i a found)
  ]

  -- A decision to delete is taken of eligible artifacts only, and of all of them: eligible at the
  -- rank that the artifact has among those of its group.
  pub evaluate-IsEligible :
      (i : ℕ) (a : Artifact)
      → get_elem? artifacts i ≡ some a
      → (d : Decision) × (get_elem? (evaluate visit_order artifacts rule now) i ≡ some d)
        × (d.artifact ≡ a)
        × ((d.delete ≡ true) ↔ IsEligible rule now (rank_of artifacts rule a i) a)
  evaluate-IsEligible i a found =
      let r = rank_of artifacts rule a i in
      (
        judge rule now r (start rule a),
        evaluate_found i a found,
        judge-artifact rule now r (start rule a),
        judge-IsEligible rule now r (start rule a) refl,
      )

-- The iteration order of the map of groups, which Go leaves open, does not change the decisions.
pub evaluate_deterministic :
    {F : Type 0} (order order' : List Str → List Str)
    → VisitsAll order
    → VisitsAll order'
    → (artifacts : List Artifact) (rule : Rule F) (now : Time)
    → evaluate order artifacts rule now ≡ evaluate order' artifacts rule now
evaluate_deterministic order order' v v' artifacts rule now = get_elem?-ext _ _ λ i.
    evaluate-get_elem? order v artifacts rule now i
    ∙ sym (evaluate-get_elem? order' v' artifacts rule now i)
