-- ===== src/Engine/State.antt =====
-- The maps and sets of `Engine.Plan` in internal/engine/engine.go, and its loop over the decisions. A
-- Go map of actions is an association list, a set a list, each with distinct keys.
pub mod Keys
pub mod Accounts
pub mod Origins
pub mod Counting
pub mod Exact
use regbot.Base.{
  Bool, true, false, not, ℕ, suc, List, [], ◌∷◌, ◌++◌, Str, str_eq, str_lt, str_mem, if◌then◌else◌,
  map,
}
use regbot.Provider.{Artifact}
use regbot.Plan.{Action}
use regbot.Policy.Types.{Decision, reason_code}
use regbot.Engine.Safety.{Counts, increment, SafetyLimit}

unfoldable pub artifact_key : Artifact → Str
artifact_key a = a.registry ++ (0 ∷ (a.repository ++ (0 ∷ a.id)))

-- `set[key] = struct{}{}`
abbrev pub add_key : Str → List Str → List Str
add_key key set = if str_mem key set then set else key ∷ set

abbrev pub Actions : Type 0
Actions = List (Str × Action)

-- `actions[key] = action`
abbrev pub put : Str → Action → Actions → Actions
put key action [] = (key, action) ∷ []
put key action ((k, a) ∷ more) =
    if str_eq k key then (k, action) ∷ more else (k, a) ∷ put key action more

-- `delete(actions, key)`
abbrev pub remove : Str → Actions → Actions
remove key [] = []
remove key ((k, a) ∷ more) = if str_eq k key then remove key more else (k, a) ∷ remove key more

-- The maps and the list that the loops fill, and the number of calls of `List` so far.
pub record PlanState (F : Type 0) : Type 0 where
  pub actions : Actions
  pub protected : List Str
  pub discovered : List Str
  pub limits : List (SafetyLimit F)
  pub calls : ℕ

-- What the loop over the decisions counts.
pub record Tally : Type 0 where
  pub deletes : ℕ
  pub repository_totals : Counts
  pub repository_deletes : Counts

abbrev pub to_action : Str → Decision → Action
to_action policy_name d = record {
  policy = policy_name;
  reason_codes = map reason_code d.reasons;
  artifact = d.artifact;
}

module _ {F : Type 0} (policy_name : Str) where
  -- The body of the loop over the decisions.
  unfoldable pub consider : Decision → PlanState F × Tally → PlanState F × Tally
  consider d (s, t) =
      let key = artifact_key d.artifact in
      let totals = increment d.artifact.repository t.repository_totals in
      if not d.delete
      then (
        record s { protected = add_key key s.protected; actions = remove key s.actions },
        record t { repository_totals = totals },
      )
      else (
        record s { actions = put key (to_action policy_name d) s.actions },
        record t {
          deletes = suc t.deletes;
          repository_totals = totals;
          repository_deletes = increment d.artifact.repository t.repository_deletes;
        },
      )

  unfoldable pub consider_all : List Decision → PlanState F × Tally → PlanState F × Tally
  consider_all [] st = st
  consider_all (d ∷ ds) st = consider_all ds (consider d st)

abbrev pub no_tally : Tally
no_tally = record { deletes = 0; repository_totals = []; repository_deletes = [] }

abbrev pub mark_all : List Artifact → List Str → List Str
mark_all [] discovered = discovered
mark_all (a ∷ rest) discovered = mark_all rest (add_key (artifact_key a) discovered)

abbrev pub key_before : Action → Action → Bool
key_before a b = str_lt (artifact_key a.artifact) (artifact_key b.artifact)

abbrev pub unprotect : List Str → Actions → Actions
unprotect [] actions = actions
unprotect (key ∷ rest) actions = unprotect rest (remove key actions)

abbrev pub actions_of : Actions → List Action
actions_of [] = []
actions_of ((k, a) ∷ more) = a ∷ actions_of more

abbrev pub no_state : {F : Type 0} → PlanState F
no_state = record { actions = []; protected = []; discovered = []; limits = []; calls = 0 }
