-- ===== src/Server/Turns.antt =====
-- The flag and the lock of the handler of `POST /run` of internal/server/server.go, with any number of
-- requests at once.
use regbot.Base.{
  Bool, true, false, not, ℕ, ◌+◌, ◌≤◌, List, [], ◌∷◌, ◌++◌, Option, none, some, ◌≡◌, refl, arith,
  count, count-append, if◌then◌else◌, Bool-cases, inl, inr, ap, sym, subst, ◌∙◌,
}

-- Where the handler of a request stands: at its start, with whether it is authorized; behind the swap of
-- the flag; at the run, with the lock; behind the release of the lock; at its end, with the status of its
-- answer.
pub data Phase : Type 0 where
  arrived : Bool → Phase
  admitted : Phase
  active : Phase
  leaving : ℕ → Phase
  answered : ℕ → Phase

-- The flag `running` and the lock `applyMu`.
pub record Locks : Type 0 where
  pub running : Bool
  pub locked : Bool

-- The next move of a handler, whose run would be answered with the status; `none` if it cannot go on.
unfoldable pub turn : ℕ → Locks → Phase → Option (Locks × Phase)
turn status l (arrived authorized) =
    if not authorized
    then some (l, answered 401)
    else if l.running
    then some (l, answered 409)
    else some (record l { running = true }, admitted)
turn status l admitted = if l.locked then none else some (record l { locked = true }, active)
turn status l active = some (record l { locked = false }, leaving status)
turn status l (leaving s) = some (record l { running = false }, answered s)
turn status l (answered s) = none

-- A request comes, or the handler of one goes on.
pub data Step : Locks × List Phase → Locks × List Phase → Type 0 where
  arrive :
      {l : Locks} {ps : List Phase} (authorized : Bool)
      → Step (l, ps) (l, ps ++ arrived authorized ∷ [])
  go_on :
      {l l' : Locks} (p p' : Phase) (before after : List Phase) (status : ℕ)
      → turn status l p ≡ some (l', p')
      → Step (l, before ++ p ∷ after) (l', before ++ p' ∷ after)

pub data Steps : Locks × List Phase → Type 0 where
  start : Steps (record { running = false; locked = false }, [])
  then_step : {s t : Locks × List Phase} → Steps s → Step s t → Steps t

abbrev pub is_inside : Phase → Bool
is_inside (arrived a) = false
is_inside admitted = true
is_inside active = true
is_inside (leaving s) = true
is_inside (answered s) = false

abbrev pub is_active : Phase → Bool
is_active (arrived a) = false
is_active admitted = false
is_active active = true
is_active (leaving s) = false
is_active (answered s) = false

abbrev one_if : Bool → ℕ
one_if b = if b then 1 else 0

-- The flag stands for the one handler inside, the lock for the one at its run.
pub record IsHeld (s : Locks × List Phase) : Type 0 where
  pub inside : count is_inside s.1 ≡ one_if s.0.running
  pub running : count is_active s.1 ≡ one_if s.0.locked

-- With so many other handlers inside and so many at the run.
abbrev Holds : ℕ → ℕ → Locks → Phase → Type 0
Holds inside running l p =
    (inside + one_if (is_inside p) ≡ one_if l.running)
    × (running + one_if (is_active p) ≡ one_if l.locked)

abbrev HoldsAfter : ℕ → ℕ → Option (Locks × Phase) → Type 0
HoldsAfter n m none = Unit {0}
HoldsAfter n m (some (l, p)) = Holds n m l p

turn_held :
    (status : ℕ) (running locked : Bool) (p : Phase) (n m : ℕ)
    → Holds n m (record { running = running; locked = locked }) p
    → HoldsAfter n m (turn status (record { running = running; locked = locked }) p)
unfolding turn
turn_held status r k (arrived false) n m (i, j) = (i, j)
turn_held status true k (arrived true) n m (i, j) = (i, j)
turn_held status false k (arrived true) n m (i, j) = (omega (arith, i), j)
turn_held status r true admitted n m (i, j) = tt
turn_held status r false admitted n m (i, j) = (i, omega (arith, j))
turn_held status r k active n m (i, j) = (i, ground (arith, j))
turn_held status r k (leaving s) n m (i, j) = (ground (arith, i), j)
turn_held status r k (answered s) n m h = tt

count-middle :
    (q : Phase → Bool) (before after : List Phase) (p : Phase)
    → count q (before ++ p ∷ after) ≡ (count q before + count q after) + one_if (q p)
count-middle q before after p = ground (arith, count-append q before (p ∷ after))

Step-IsHeld : {s t : Locks × List Phase} → Step s t → IsHeld s → IsHeld t
Step-IsHeld (arrive {ps = ps} a) h = record {
  inside = ground (arith, count-append is_inside ps (arrived a ∷ []), h.inside);
  running = ground (arith, count-append is_active ps (arrived a ∷ []), h.running);
}
Step-IsHeld (go_on {l = l} {l' = l'} p p' before after status e) h =
    let n = count is_inside before + count is_inside after in
    let m = count is_active before + count is_active after in
    let (i, j) = subst (HoldsAfter n m) e (
      turn_held status l.running l.locked p n m (
        sym (count-middle is_inside before after p) ∙ h.inside,
        sym (count-middle is_active before after p) ∙ h.running,
      )) in
    record {
      inside = count-middle is_inside before after p' ∙ i;
      running = count-middle is_active before after p' ∙ j;
    }

-- However requests come and handlers go on, at most one handler is at the run, which the lock shows, and at
-- most one is behind the swap of the flag, which the flag shows.
pub Steps-IsHeld : {s : Locks × List Phase} → Steps s → IsHeld s
Steps-IsHeld start = record { inside = refl; running = refl }
Steps-IsHeld (then_step steps step) = Step-IsHeld step (Steps-IsHeld steps)

abbrev pub is_answered : Phase → Bool
is_answered (arrived a) = false
is_answered admitted = false
is_answered active = false
is_answered (leaving s) = false
is_answered (answered s) = true

count-active_le : (ps : List Phase) → count is_active ps ≤ count is_inside ps
count-active_le [] = omega arith
count-active_le (arrived a ∷ ps) = omega (arith, count-active_le ps)
count-active_le (admitted ∷ ps) = omega (arith, count-active_le ps)
count-active_le (active ∷ ps) = omega (arith, count-active_le ps)
count-active_le (leaving s ∷ ps) = omega (arith, count-active_le ps)
count-active_le (answered s ∷ ps) = omega (arith, count-active_le ps)

goes_on :
    (status : ℕ) (l : Locks) (p : Phase)
    → is_answered p ≡ false
    → (p ≡ admitted → l.locked ≡ false)
    → (next : Locks × Phase) × (turn status l p ≡ some next)
unfolding turn
goes_on status l (arrived false) e f = ((l, answered 401), refl)
goes_on status l (arrived true) e f = elim (Bool-cases l.running) [
  | inl r ↦ ((l, answered 409), rw r refl)
  | inr r ↦ ((record l { running = true }, admitted), rw r refl)
]
goes_on status l admitted e f = ((record l { locked = true }, active), rw (f refl) refl)
goes_on status l active e f = ((record l { locked = false }, leaving status), refl)
goes_on status l (leaving s) e f = ((record l { running = false }, answered s), refl)
goes_on status l (answered s) e f = cc

-- No handler ever waits for the lock: wherever the requests have got, each that is not answered can go on.
pub Steps-go_on :
    {l : Locks} (before after : List Phase) (p : Phase) (status : ℕ)
    → Steps (l, before ++ p ∷ after)
    → is_answered p ≡ false
    → (next : Locks × Phase) × (turn status l p ≡ some next)
Steps-go_on {l} before after p status steps e = goes_on status l p e (λ at_lock. ground (
  arith,
  (Steps-IsHeld steps).inside,
  (Steps-IsHeld steps).running,
  count-middle is_inside before after p,
  count-middle is_active before after p,
  count-active_le before,
  count-active_le after,
  ap is_inside at_lock,
  ap is_active at_lock,
))
