-- ===== src/Engine/State/Accounts.antt =====
-- What the loops of `Engine.Plan` in internal/engine/engine.go keep true of the sets of keys: what
-- was discovered is protected, to be deleted, or still to be considered.
use regbot.Base.{
  Bool, false, not, ◌&&◌, ◌||◌, suc, ◌+◌, ◌≤◌, List, [], ◌∷◌, ◌++◌, Str, str_eq, str_mem, ◌≡◌, refl,
  arith, ap, sym, ◌∙◌, Bool-cases, inl, inr, occurs, occurs-zero, str_mem-append, length, map,
  length-eq_of_same, count-append, length-append,
}
use regbot.Provider.{Artifact}
use regbot.Policy.Types.{Decision}
use regbot.Config.Validate.{names}
use regbot.Engine.State.{
  Actions, PlanState, Tally, artifact_key, add_key, consider, consider_all, mark_all, unprotect,
  actions_of, to_action, no_state,
}
use regbot.Engine.State.Keys.{
  str_mem-put, str_mem-remove, str_mem-add_key, AreDistinct, add_key-AreDistinct,
  remove-AreDistinct, put-AreDistinct, unprotect-str_mem, unprotect-AreDistinct,
}

pub record Accounts {F : Type 0} (s : PlanState F) (pending : List Str) : Type 0 where
  pub discovered_once : AreDistinct s.discovered
  pub protected_once : AreDistinct s.protected
  pub actions_once : AreDistinct (names s.actions)
  pub covered :
      (j : Str)
      → str_mem j s.discovered
        ≡ (str_mem j s.protected || (str_mem j (names s.actions) || str_mem j pending))

abbrev pub decision_key : Decision → Str
decision_key d = artifact_key d.artifact

regroup_kept : (p a q e : Bool) → (p || (a || (e || q))) ≡ ((e || p) || ((not e && a) || q))
regroup_kept p a q e = ground arith

regroup_chosen : (p a q e : Bool) → (p || (a || (e || q))) ≡ (p || ((e || a) || q))
regroup_chosen p a q e = ground arith

module _ {F : Type 0} (policy_name : Str) where
  consider-Accounts :
      (d : Decision) (s : PlanState F) (t : Tally) (pending : List Str)
      → Accounts s (decision_key d ∷ pending)
      → Accounts (consider policy_name d (s, t)).0 pending
  unfolding consider
  consider-Accounts d s t pending h = elim (Bool-cases d.delete) [
    | inl e ↦ rw e (record {
      discovered_once = h.discovered_once;
      protected_once = h.protected_once;
      actions_once =
          put-AreDistinct (decision_key d) (to_action policy_name d) s.actions h.actions_once;
      covered = λ j.
          h.covered j
          ∙ (regroup_chosen (str_mem j s.protected) (str_mem j (names s.actions))
                (str_mem j pending) (str_eq j (decision_key d))
              ∙ ap (λ b. str_mem j s.protected || (b || str_mem j pending))
                  (sym (str_mem-put j (decision_key d) (to_action policy_name d) s.actions)));
    })
    | inr e ↦ rw e (record {
      discovered_once = h.discovered_once;
      protected_once = add_key-AreDistinct (decision_key d) s.protected h.protected_once;
      actions_once = remove-AreDistinct (decision_key d) s.actions h.actions_once;
      covered = λ j.
          rw
            (
              str_mem-add_key j (decision_key d) s.protected,
              str_mem-remove j (decision_key d) s.actions,
            )
            (h.covered j
              ∙ regroup_kept (str_mem j s.protected) (str_mem j (names s.actions))
                  (str_mem j pending) (str_eq j (decision_key d)));
    })
  ]

  pub consider_all-Accounts :
      (ds : List Decision) (s : PlanState F) (t : Tally)
      → Accounts s (map decision_key ds)
      → Accounts (consider_all policy_name ds (s, t)).0 []
  unfolding consider_all
  consider_all-Accounts [] s t h = h
  consider_all-Accounts (d ∷ ds) s t h =
      let (s', t') = consider policy_name d (s, t) in
      consider_all-Accounts ds s' t' (consider-Accounts d s t (map decision_key ds) h)

pub str_mem-mark_all :
    (j : Str) (artifacts : List Artifact) (set : List Str)
    → str_mem j (mark_all artifacts set) ≡ (str_mem j set || str_mem j (map artifact_key artifacts))
str_mem-mark_all j [] set = ground arith
str_mem-mark_all j (a ∷ more) set =
    rw (str_mem-mark_all j more (add_key (artifact_key a) set), str_mem-add_key) (ground arith)

pub mark_all-AreDistinct :
    (artifacts : List Artifact) (set : List Str)
    → AreDistinct set
    → AreDistinct (mark_all artifacts set)
mark_all-AreDistinct [] set h = h
mark_all-AreDistinct (a ∷ more) set h =
    mark_all-AreDistinct more (add_key (artifact_key a) set)
      (add_key-AreDistinct (artifact_key a) set h)

pub no_state-Accounts : {F : Type 0} → Accounts (no_state {F = F}) []
no_state-Accounts = record {
  discovered_once = λ k. omega arith;
  protected_once = λ k. omega arith;
  actions_once = λ k. omega arith;
  covered = λ j. refl;
}

length-actions_of : (actions : Actions) → length (actions_of actions) ≡ length (names actions)
length-actions_of [] = refl
length-actions_of ((k, a) ∷ more) = ap suc (length-actions_of more)

split_once : (p a : Bool) → (p || (a || false)) ≡ (p || (not p && a))
split_once p a = ground arith

-- Behind the loops every discovered key is either protected or that of an action that is left.
pub Accounts-length :
    {F : Type 0} (s : PlanState F)
    → Accounts s []
    → length s.discovered
      ≡ length s.protected + length (actions_of (unprotect s.protected s.actions))
Accounts-length s h =
    let left = names (unprotect s.protected s.actions) in
    length-eq_of_same s.discovered (s.protected ++ left) h.discovered_once
      (λ j.
        both_once j (unprotect-str_mem j s.protected s.actions)
          (unprotect-AreDistinct s.protected s.actions h.actions_once j))
      (λ j.
        h.covered j
        ∙ rw (str_mem-append, unprotect-str_mem)
            (split_once (str_mem j s.protected) (str_mem j (names s.actions))))
    ∙ (length-append s.protected left
        ∙ ap (λ n. length s.protected + n)
            (sym (length-actions_of (unprotect s.protected s.actions))))
  where
    left' : List Str
    left' = names (unprotect s.protected s.actions)

    both_once :
        (j : Str)
        → str_mem j left' ≡ (not (str_mem j s.protected) && str_mem j (names s.actions))
        → occurs j left' ≤ 1
        → occurs j (s.protected ++ left') ≤ 1
    both_once j e once =
        rw count-append
          (ground (arith, h.protected_once j, occurs-zero j s.protected, occurs-zero j left'))
