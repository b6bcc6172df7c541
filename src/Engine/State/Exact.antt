-- ===== src/Engine/State/Exact.antt =====
-- What is left of the maps of `Engine.Plan` in internal/engine/engine.go behind the loop over a list of
-- decisions, as a function of the decisions.
use regbot.Base.{
  Bool, not, ◌&&◌, ◌||◌, List, [], ◌∷◌, Str, str_eq, str_mem, ◌≡◌, refl, arith, any, Bool-cases,
  inl, inr,
}
use regbot.Policy.Types.{Decision}
use regbot.Config.Validate.{names}
use regbot.Engine.State.{PlanState, Tally, to_action, consider, consider_all}
use regbot.Engine.State.Keys.{str_mem-put, str_mem-remove, str_mem-add_key}
use regbot.Engine.State.Accounts.{decision_key}
use regbot.Engine.State.Origins.{consider-kept, consider-chosen}

-- A decision to keep what has the key.
abbrev pub keeps_key : Str → Decision → Bool
keeps_key k d = not d.delete && str_eq k (decision_key d)

-- A decision to delete what has the key.
abbrev pub chooses_key : Str → Decision → Bool
chooses_key k d = d.delete && str_eq k (decision_key d)

-- An action with the key that no set protects.
abbrev pub holds_key : {F : Type 0} → Str → PlanState F → Bool
holds_key k s = not (str_mem k s.protected) && str_mem k (names s.actions)

module _ {F : Type 0} (policy_name : Str) (k : Str) where
  consider-keeps :
      (d : Decision) (s : PlanState F) (t : Tally)
      → str_mem k (consider policy_name d (s, t)).0.protected
        ≡ (keeps_key k d || str_mem k s.protected)
  consider-keeps d s t = elim (Bool-cases d.delete) [
    | inl e ↦ rw (consider-chosen policy_name d s t e, e) refl
    | inr e ↦
        rw (consider-kept policy_name d s t e, str_mem-add_key k (decision_key d) s.protected, e)
          refl
  ]

  consider-holds :
      (d : Decision) (s : PlanState F) (t : Tally)
      → holds_key k (consider policy_name d (s, t)).0 ≡ (
          not (keeps_key k d || str_mem k s.protected)
          && (chooses_key k d || str_mem k (names s.actions)))
  consider-holds d s t = elim (Bool-cases d.delete) [
    | inl e ↦
        rw
          (
            consider-chosen policy_name d s t e,
            str_mem-put k (decision_key d) (to_action policy_name d) s.actions,
            e,
          )
          refl
    | inr e ↦
        rw
          (
            consider-kept policy_name d s t e,
            str_mem-add_key k (decision_key d) s.protected,
            str_mem-remove k (decision_key d) s.actions,
            e,
          )
          (ground arith)
  ]

  pub consider_all-keeps :
      (ds : List Decision) (s : PlanState F) (t : Tally)
      → str_mem k (consider_all policy_name ds (s, t)).0.protected
        ≡ (any (keeps_key k) ds || str_mem k s.protected)
  unfolding consider_all
  consider_all-keeps [] s t = refl
  consider_all-keeps (d ∷ ds) s t =
      let (s', t') = consider policy_name d (s, t) in
      ground (arith, consider_all-keeps ds s' t', consider-keeps d s t)

  pub consider_all-holds :
      (ds : List Decision) (s : PlanState F) (t : Tally)
      → holds_key k (consider_all policy_name ds (s, t)).0 ≡ (
          not (any (keeps_key k) ds || str_mem k s.protected)
          && (any (chooses_key k) ds || str_mem k (names s.actions)))
  unfolding consider_all
  consider_all-holds [] s t = refl
  consider_all-holds (d ∷ ds) s t =
      let (s', t') = consider policy_name d (s, t) in
      ground (arith, consider_all-holds ds s' t', consider-keeps d s t, consider-holds d s t)
