-- ===== src/Engine/State/Keys.antt =====
-- The keys of the maps and sets of `Engine.Plan` in internal/engine/engine.go.
use regbot.Base.{
  true, not, ◌&&◌, ◌||◌, ◌+◌, ◌≤◌, List, [], ◌∷◌, Str, str_eq, str_mem, if◌then◌else◌, ◌≡◌, refl,
  arith, ap, ◌∙◌, Bool-cases, inl, inr, occurs, occurs-zero, str_eq_iff, str_eq_comm, str_eq→eq,
}
use regbot.Plan.{Action}
use regbot.Config.Validate.{names}
use regbot.Engine.State.{Actions, add_key, put, remove, unprotect}

-- Equal texts are equal to the same texts.
same-str_eq : (j k l : Str) → str_eq k l ≡ true → str_eq j k ≡ str_eq j l
same-str_eq j k l h = ap (str_eq j) (str_eq→eq k l h)

pub str_mem-put :
    (j k : Str) (a : Action) (actions : Actions)
    → str_mem j (names (put k a actions)) ≡ (str_eq j k || str_mem j (names actions))
str_mem-put j k a [] = refl
str_mem-put j k a ((l, b) ∷ more) = elim (Bool-cases (str_eq l k)) [
  | inl e ↦ rw e (ground (arith, same-str_eq j l k e))
  | inr e ↦ rw e (ground (arith, str_mem-put j k a more))
]

pub str_mem-remove :
    (j k : Str) (actions : Actions)
    → str_mem j (names (remove k actions)) ≡ (not (str_eq j k) && str_mem j (names actions))
str_mem-remove j k [] = ground arith
str_mem-remove j k ((l, b) ∷ more) = elim (Bool-cases (str_eq l k)) [
  | inl e ↦ rw e (ground (arith, same-str_eq j l k e, str_mem-remove j k more))
  | inr e ↦ rw e (ground (arith, str_eq_iff j l, ap (λ t. str_eq t k), str_mem-remove j k more))
]

pub str_mem-add_key :
    (j k : Str) (set : List Str) → str_mem j (add_key k set) ≡ (str_eq j k || str_mem j set)
str_mem-add_key j k set = elim (Bool-cases (str_mem k set)) [
  | inl e ↦ rw e (elim (Bool-cases (str_eq j k)) [
    | inl s ↦ rw s (ap (λ t. str_mem t set) (str_eq→eq j k s) ∙ e)
    | inr s ↦ rw s
  ])
  | inr e ↦ rw e
]

-- Each key once.
abbrev pub AreDistinct : List Str → Type 0
AreDistinct ks = (k : Str) → occurs k ks ≤ 1

pub add_key-AreDistinct : (k : Str) (set : List Str) → AreDistinct set → AreDistinct (add_key k set)
add_key-AreDistinct k set h j = elim (Bool-cases (str_mem k set)) [
  | inl e ↦ rw e (h j)
  | inr e ↦ rw e (ground (arith, h j, occurs-zero k set e, str_eq→eq j k, ap (λ t. occurs t set)))
]

remove-occurs :
    (j k : Str) (actions : Actions) → occurs j (names (remove k actions)) ≤ occurs j (names actions)
remove-occurs j k [] = omega arith
remove-occurs j k ((l, b) ∷ more) = ground (arith, remove-occurs j k more)

pub remove-AreDistinct :
    (k : Str) (actions : Actions)
    → AreDistinct (names actions)
    → AreDistinct (names (remove k actions))
remove-AreDistinct k actions h j = omega (arith, h j, remove-occurs j k actions)

put-occurs :
    (j k : Str) (a : Action) (actions : Actions)
    → occurs j (names (put k a actions))
      ≡ (if str_mem k (names actions) then 0 else (if str_eq j k then 1 else 0))
        + occurs j (names actions)
put-occurs j k a [] = ground arith
put-occurs j k a ((l, b) ∷ more) = elim (Bool-cases (str_eq l k)) [
  | inl e ↦ rw (e, str_eq_comm k l, e) (ground (arith, same-str_eq j l k e))
  | inr e ↦ rw (e, str_eq_comm k l, e) (ground (arith, put-occurs j k a more))
]

pub put-AreDistinct :
    (k : Str) (a : Action) (actions : Actions)
    → AreDistinct (names actions)
    → AreDistinct (names (put k a actions))
put-AreDistinct k a actions h j = ground (
  arith,
  h j,
  put-occurs j k a actions,
  occurs-zero k (names actions),
  str_eq→eq j k,
  ap (λ t. occurs t (names actions)),
)

pub unprotect-str_mem :
    (j : Str) (ps : List Str) (actions : Actions)
    → str_mem j (names (unprotect ps actions)) ≡ (not (str_mem j ps) && str_mem j (names actions))
unprotect-str_mem j [] actions = ground arith
unprotect-str_mem j (p ∷ ps) actions =
    ground (arith, unprotect-str_mem j ps (remove p actions), str_mem-remove j p actions)

pub unprotect-AreDistinct :
    (ps : List Str) (actions : Actions)
    → AreDistinct (names actions)
    → AreDistinct (names (unprotect ps actions))
unprotect-AreDistinct [] actions h = h
unprotect-AreDistinct (p ∷ ps) actions h =
    unprotect-AreDistinct ps (remove p actions) (remove-AreDistinct p actions h)
