-- ===== src/Policy/Evaluate.antt =====
-- `Evaluate` of pkg/policy/policy.go. The map of groups is an association list in the order of first
-- insertion; `range` over it visits its keys in an order of Go's choice, which is the parameter
-- `visit_order`: it is given the keys, and holds each of them as often.

pub mod Groups
pub mod Ranks
pub mod Positions
pub mod Minimum
use regbot.Base.{
  Bool, true, false, ◌&&◌, not, ℕ, zero, suc, List, [], ◌∷◌, ◌++◌, Str, str_eq, map, modify,
  get_elem?, Option, none, some, is_empty, if◌then◌else◌, slice_stable, count, ◌≡◌,
}
use regbot.Provider.{Artifact, Time, Version}
use regbot.Policy.Types.{Rule, Decision, default_group}
use regbot.Policy.Order.{group_app, newer}
use regbot.Policy.Judge.{judge}

abbrev pub group_of : List Version → Bool → Str
group_of (v ∷ vs) true = group_app v
group_of vs by_app = default_group

module _ {F : Type 0} (rule : Rule F) where
  abbrev pub start : Artifact → Decision
  start a = record {
    artifact = a;
    delete = false;
    reasons = [];
    group = group_of a.parsed_versions rule.group_by_app;
  }

-- `map[string][]int`
abbrev pub Groups : Type 0
Groups = List (Str × List ℕ)

-- `groups[key] = append(groups[key], i)`
abbrev pub append_index : Str → ℕ → Groups → Groups
append_index key i [] = (key, i ∷ []) ∷ []
append_index key i ((k, is) ∷ groups) =
    if str_eq k key then (k, is ++ i ∷ []) ∷ groups else (k, is) ∷ append_index key i groups

-- The first loop, from the index `i` on.
abbrev pub collect : ℕ → List Decision → Groups → Groups
collect i [] groups = groups
collect i (d ∷ ds) groups = collect (suc i) ds (append_index d.group i groups)

-- `groups[key]`, empty for a key that is not there.
abbrev pub indices_of : Str → Groups → List ℕ
indices_of key [] = []
indices_of key ((k, is) ∷ groups) = if str_eq k key then is else indices_of key groups

abbrev pub keys : Groups → List Str
keys [] = []
keys ((k, is) ∷ groups) = k ∷ keys groups

abbrev pub newer_decision : Option Decision → Option Decision → Bool
newer_decision (some d) (some e) = newer d.artifact e.artifact
newer_decision d e = false

-- The comparison of the sort: positions of `decisions`.
abbrev pub newer_at : List Decision → ℕ → ℕ → Bool
newer_at ds i j = newer_decision (get_elem? ds i) (get_elem? ds j)

module _ {F : Type 0} (rule : Rule F) (now : Time) where
  -- The innermost loop, from a rank on.
  unfoldable pub judge_ranked : ℕ → List ℕ → List Decision → List Decision
  judge_ranked rank [] ds = ds
  judge_ranked rank (i ∷ is) ds = judge_ranked (suc rank) is (modify ds i (judge rule now rank))

  unfoldable pub visit_group : List ℕ → List Decision → List Decision
  visit_group indices ds = judge_ranked 0 (slice_stable (newer_at ds) indices) ds

  unfoldable pub visit_groups : Groups → List Str → List Decision → List Decision
  visit_groups groups [] ds = ds
  visit_groups groups (key ∷ ks) ds =
      visit_groups groups ks (visit_group (indices_of key groups) ds)

module _ {F : Type 0} (visit_order : List Str → List Str) where
  unfoldable pub evaluate : List Artifact → Rule F → Time → List Decision
  unfolding visit_groups visit_group judge_ranked slice_stable
  evaluate artifacts rule now =
      let decisions = map (start rule) artifacts in
      let groups = collect 0 decisions [] in
      visit_groups rule now groups (visit_order (keys groups)) decisions

-- What Go promises of `range` over a map: each key once, in some order.
abbrev pub VisitsAll : (List Str → List Str) → Type 0
VisitsAll visit_order =
    (ks : List Str) (k : Str) → count (str_eq k) (visit_order ks) ≡ count (str_eq k) ks
