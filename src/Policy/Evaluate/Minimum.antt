-- ===== src/Policy/Evaluate/Minimum.antt =====
-- What `keep_at_least` and `keep_latest` promise of `Evaluate` in pkg/policy/policy.go: how many
-- artifacts of each group stay.
use mathlib.Core.Option
use regbot.Base.{
  Bool, true, false, not, ◌&&◌, ℕ, zero, suc, ◌+◌, ◌≤◌, ◌<◌, List, [], ◌∷◌, Str, str_eq, ◌==◌,
  count, if◌then◌else◌, get_elem?, none, some, ◌≡◌, refl, sym, ◌∙◌, ap, subst, fun_ext, arith,
  Bool-cases, inl, inr, map, length, get_elem?-map, count-slice_stable, str_eq→eq, get_elem?-ext,
  ◌⊎◌, pos, ◌≤ℤ◌,
}
use mathlib.Core.Option.{Option}
use regbot.Provider.{Artifact, Time}
use regbot.Policy.Types.{Rule, Decision}
use regbot.Policy.Judge.{judge}
use regbot.Policy.Judge.Eligible.{judge-IsEligible}
use regbot.Policy.Evaluate.{start, newer_at, evaluate, VisitsAll}
use regbot.Policy.Evaluate.Groups.{positions, here_or}
use regbot.Policy.Evaluate.Ranks.{ranking, count-ranking, judge-group, here_or-le}
use regbot.Policy.Evaluate.Positions.{rank_in, rank_of, fresh, evaluate-get_elem?, evaluate_found}

-- The positions of a group depend on the groups only.
abbrev positions_in : Str → ℕ → List Str → List ℕ
positions_in key k [] = []
positions_in key k (g ∷ gs) =
    if str_eq g key then k ∷ positions_in key (suc k) gs else positions_in key (suc k) gs

positions-positions_in :
    (key : Str) (k : ℕ) (ds : List Decision)
    → positions key k ds ≡ positions_in key k (map (λ d. d.group) ds)
positions-positions_in key k [] = refl
positions-positions_in key k (d ∷ ds) = rw (positions-positions_in key (suc k) ds)

abbrev holds_at : (Decision → Bool) → Option Decision → Bool
holds_at p none = false
holds_at p (some d) = p d

here_shift : (g : ℕ → Bool) (k : ℕ) → g k ≡ g (k + 0)
here_shift g k = ap g {x = k} {y = k + 0} (omega arith)

next_shift : (g : ℕ → Bool) (k i : ℕ) → g (suc k + i) ≡ g (k + suc i)
next_shift g k i = ap g {x = suc k + i} {y = k + suc i} (omega arith)

-- Members of a group are counted over its positions.
count-group :
    (key : Str) (p : Decision → Bool) (g : ℕ → Bool) (k : ℕ) (ds : List Decision)
    → ((i : ℕ) → g (k + i) ≡ holds_at p (get_elem? ds i))
    → count (λ d. str_eq d.group key && p d) ds ≡ count g (positions key k ds)
count-group key p g k [] h = refl
count-group key p g k (d ∷ ds) h =
    let rest = count-group key p g (suc k) ds (λ i. next_shift g k i ∙ h (suc i)) in
    let first = here_shift g k ∙ h 0 in
    elim (Bool-cases (str_eq d.group key)) [
      | inl e ↦ rw (e, first) (omega (arith, rest))
      | inr e ↦ rw e (omega (arith, rest))
    ]

rank_in-skip :
    (j j' : ℕ) (js : List ℕ) → (j == j') ≡ false → rank_in (j ∷ js) j' ≡ suc (rank_in js j')
rank_in-skip j j' js e = rw e

-- A test that holds at the first `n` places of a list of distinct indices holds `n` times.
count-places :
    (g : ℕ → Bool) (js : List ℕ) (n : ℕ)
    → ((j : ℕ) → count (λ i. i == j) js ≤ 1)
    → ((j : ℕ) → count (λ i. i == j) js ≡ 1 → rank_in js j < n → g j ≡ true)
    → n ≤ length js
    → n ≤ count g js
count-places g [] n distinct h le = le
count-places g (j ∷ js) zero distinct h le = omega arith
count-places g (j ∷ js) (suc n) distinct h le =
    let first : g j ≡ true = h j (ground (arith, distinct j)) (ground arith) in
    let rest =
      count-places g js n (λ j'. omega (arith, distinct j'))
        (λ j' once low. elim (Bool-cases (j == j')) [
          | inl e ↦ absurd (ground (arith, distinct j'))
          | inr e ↦ h j' (ground arith) (rw (rank_in-skip j j' js e) (omega arith))
        ])
        (omega arith) in
    rw first (omega (arith, rest))

count-le : (g : ℕ → Bool) (js : List ℕ) → count g js ≤ length js
count-le g [] = omega arith
count-le g (j ∷ js) = ground (arith, count-le g js)

and-true : (b : Bool) → b ≡ (b && true)
and-true true = refl
and-true false = refl

module _ {F : Type 0} (visit_order : List Str → List Str) (visits : VisitsAll visit_order)
    (artifacts : List Artifact) (rule : Rule F) (now : Time) where
  abbrev result : List Decision
  result = evaluate visit_order artifacts rule now

  result-groups : map (λ d. d.group) result ≡ map (λ d. d.group) (fresh artifacts rule)
  result-groups = get_elem?-ext _ _ λ i.
      get_elem?-map (λ d. d.group) result i
      ∙ (ap (Option.map (λ d. d.group)) (evaluate-get_elem? visit_order visits artifacts rule now i)
          ∙ (same_group i (get_elem? artifacts i)
              ∙ (sym (ap (Option.map (λ d. d.group)) (get_elem?-map (start rule) artifacts i))
                  ∙ sym (get_elem?-map (λ d. d.group) (fresh artifacts rule) i))))
    where
      same_group :
          (i : ℕ) (o : Option Artifact)
          → Option.map
              (λ d. d.group)
              (Option.map (λ a. judge rule now (rank_of artifacts rule a i) (start rule a)) o)
            ≡ Option.map (λ d. d.group) (Option.map (start rule) o)
      same_group i none = refl
      same_group i (some a) = ap some (judge-group rule now _ (start rule a))

  result-positions : (key : Str) → positions key 0 result ≡ positions key 0 (fresh artifacts rule)
  result-positions key =
      positions-positions_in key 0 result
      ∙ (ap (positions_in key 0) result-groups
          ∙ sym (positions-positions_in key 0 (fresh artifacts rule)))

  -- Members of a group are counted over its ranking.
  count-result :
      (key : Str) (p : Decision → Bool)
      → count (λ d. str_eq d.group key && p d) result
        ≡ count (λ j. holds_at p (get_elem? result j)) (ranking (fresh artifacts rule) key)
  count-result key p =
      let g = λ (j : ℕ). holds_at p (get_elem? result j) in
      count-group key p g 0 result (λ i. ap g {x = 0 + i} {y = i} (omega arith))
      ∙ (ap (count g) (result-positions key)
          ∙ sym (
              count-slice_stable (newer_at (fresh artifacts rule)) g
                (positions key 0 (fresh artifacts rule))))

  ranking-distinct :
      (key : Str) (j : ℕ) → count (λ i. i == j) (ranking (fresh artifacts rule) key) ≤ 1
  ranking-distinct key j = rw (count-ranking (fresh artifacts rule) key j) (here_or-le key _)

  -- An index of the ranking is an artifact of the group.
  ranked_artifact :
      (key : Str) (j : ℕ)
      → count (λ i. i == j) (ranking (fresh artifacts rule) key) ≡ 1
      → (a : Artifact) × (get_elem? artifacts j ≡ some a) × ((start rule a).group ≡ key)
  ranked_artifact key j once = member (get_elem? artifacts j) refl (
      sym (ap (here_or key) (get_elem?-map (start rule) artifacts j))
      ∙ (sym (count-ranking (fresh artifacts rule) key j) ∙ once))
    where
      member :
          (o : Option Artifact)
          → get_elem? artifacts j ≡ o
          → here_or key (Option.map (start rule) o) ≡ 1
          → (a : Artifact) × (get_elem? artifacts j ≡ some a) × ((start rule a).group ≡ key)
      member none e h = absurd (omega arith)
      member (some a) e h = (a, e, str_eq→eq (start rule a).group key (ground arith))

  -- At a rank below `keep_latest` or `keep_at_least` nothing is deleted.
  stays_at_low_rank :
      (n : ℕ) (key : Str) (j : ℕ)
      → (pos n ≤ℤ rule.keep_at_least) ⊎ (pos n ≤ℤ rule.keep_latest)
      → count (λ i. i == j) (ranking (fresh artifacts rule) key) ≡ 1
      → rank_in (ranking (fresh artifacts rule) key) j < n
      → holds_at (λ d. not d.delete) (get_elem? result j) ≡ true
  stays_at_low_rank n key j bound once low =
      let (a, found, own) = ranked_artifact key j once in
      let r = rank_of artifacts rule a j in
      let d = judge rule now r (start rule a) in
      let low' : r < n =
        subst (λ k. rank_in (ranking (fresh artifacts rule) k) j < n) (sym own) low in
      rw (evaluate_found visit_order visits artifacts rule now j a found)
        (elim (Bool-cases d.delete) [
          | inl e ↦
              let chosen = (judge-IsEligible rule now r (start rule a) refl).0 e in
              absurd (ground (arith, chosen.not_minimum, chosen.not_latest, low', bound))
          | inr e ↦ rw e
        ])

  size_of_ranking :
      (key : Str)
      → count (λ d. str_eq d.group key) result
        ≡ count
            (λ j. holds_at (λ d. true) (get_elem? result j))
            (ranking (fresh artifacts rule) key)
  size_of_ranking key =
      ap (λ p. count p result) (fun_ext (λ d. and-true (str_eq d.group key)))
      ∙ count-result key (λ d. true)

  -- Of every group at least `keep_at_least` artifacts stay, and at least `keep_latest`; all of them
  -- if the group has no more.
  pub evaluate-keeps_minimum :
      (key : Str) (n : ℕ)
      → (pos n ≤ℤ rule.keep_at_least) ⊎ (pos n ≤ℤ rule.keep_latest)
      → n ≤ count (λ d. str_eq d.group key) result
      → n ≤ count (λ d. str_eq d.group key && not d.delete) result
  evaluate-keeps_minimum key n bound size =
      let size' = size_of_ranking key in
      rw (count-result key (λ d. not d.delete)) (
        count-places (λ j. holds_at (λ d. not d.delete) (get_elem? result j))
          (ranking (fresh artifacts rule) key) n (ranking-distinct key)
          (λ j. stays_at_low_rank n key j bound)
          (omega (
            arith,
            size',
            count-le (λ j. holds_at (λ d. true) (get_elem? result j))
                (ranking (fresh artifacts rule) key),
          )))
