-- ===== src/Engine/Apply/Requests.antt =====
-- The calls of `Delete` that `Engine.Apply` of internal/engine/engine.go makes.
use mathlib.Core.Option
use regbot.Base.{
  Bool, true, false, ℕ, zero, suc, ◌≤◌, ◌==◌, List, ◌∷◌, Str, Option, none, some, ◌≡◌, refl, arith,
  ap, sym, ◌∙◌, subst, Bool-cases, inl, inr, ◌⊎◌, ℤ, if◌then◌else◌, get_elem?, get_elem?-modify, In,
  here, there, count,
}
use regbot.Provider.{Client, DeleteRequest}
use regbot.Plan.{Action, Plan, Status, deleted, skipped, failed, ApplyResult}
use regbot.Engine.Apply.{
  Worker, waiting, holding, reporting, cancelling, exited, Run, request_of, outcome_of, cancels,
  tally, put_worker, Move, send, close_jobs, stop_feeding, refuse, call, report, cancel, exit,
  interrupt, next, Steps, here_already, go, waiting_workers, pool_size, Applies, ran, ApplyError,
}
use regbot.Engine.Apply.Workers.{total-waiting_workers}
use regbot.Engine.Apply.Conserved.{demand, demand-Steps, asked}
use regbot.Engine.Apply.Outcome.{count_requests}

record IsFromPlan (actions : List Action) (s : Run) : Type 0 where
  pub unsent : (a : Action) → In a s.pending → In a actions
  pub handed : (i : ℕ) (a : Action) → get_elem? s.workers i ≡ some (holding a) → In a actions
  pub sent :
      (q : Str × DeleteRequest) → In q s.requests → (a : Action) × In a actions × (q ≡ request_of a)

-- A worker in another's place.
put_worker-holding :
    (i j : ℕ) (w : Worker) (a : Action) (ws : List Worker)
    → get_elem? (put_worker i w ws) j ≡ some (holding a)
    → (w ≡ holding a) ⊎ (get_elem? ws j ≡ some (holding a))
put_worker-holding i j w a ws h = elim (Bool-cases (i == j)) [
  | inl e ↦ mapped (get_elem? ws j) (sym (at_j ∙ rw e refl) ∙ h)
  | inr e ↦ inr (sym (at_j ∙ rw e refl) ∙ h)
]
  where
    at_j :
        get_elem? (put_worker i w ws) j
        ≡ (if i == j then Option.map (λ v. w) (get_elem? ws j) else get_elem? ws j)
    at_j = get_elem?-modify ws i j (λ v. w)

    mapped :
        (o : Option Worker)
        → Option.map (λ (v : Worker). w) o ≡ some (holding a)
        → (w ≡ holding a) ⊎ (get_elem? ws j ≡ some (holding a))
    mapped none e = cc
    mapped (some v) e = inl (cc)

module _ (actions : List Action) where
  IsFromPlan-tally :
      (status : Status) (s : Run) → IsFromPlan actions s → IsFromPlan actions (tally status s)
  IsFromPlan-tally deleted s h = record { unsent = h.unsent; handed = h.handed; sent = h.sent }
  IsFromPlan-tally skipped s h = record { unsent = h.unsent; handed = h.handed; sent = h.sent }
  IsFromPlan-tally failed s h = record { unsent = h.unsent; handed = h.handed; sent = h.sent }

  -- A worker that takes up no new action takes another's place.
  replaced :
      (i : ℕ) (w : Worker) (s t : Run)
      → t.workers ≡ put_worker i w s.workers
      → ((a : Action) → w ≡ holding a → In a actions)
      → t.pending ≡ s.pending
      → t.requests ≡ s.requests
      → IsFromPlan actions s
      → IsFromPlan actions t
  replaced i w s t e new ep er h = record {
    unsent = λ a m. h.unsent a (subst (In a) ep m);
    handed = λ j a has.
        elim (put_worker-holding i j w a s.workers (ap (λ ws. get_elem? ws j) (sym e) ∙ has)) [
          | inl own ↦ new a own
          | inr old ↦ h.handed j a old
        ];
    sent = λ q m. h.sent q (subst (In q) er m);
  }

  not_held :
      (b : Bool) (a : Action) → (if b then cancelling else waiting) ≡ holding a → In a actions
  not_held true a e = cc
  not_held false a e = cc

  module _ (clients : List (Str × Client)) where
    IsFromPlan-next :
        (s : Run) (m : Move clients s)
        → IsFromPlan actions s
        → IsFromPlan actions (next clients s m)
    unfolding next
    IsFromPlan-next s (send i action rest is_open first idle) h =
        let mine = h.unsent action (subst (In action) (sym first) (here refl)) in
        let r =
          replaced i (holding action) s
            (record s { workers = put_worker i (holding action) s.workers }) refl
            (λ a e. subst (λ b. In b actions) (cc) mine) refl refl h in
        record {
          unsent = λ a m. h.unsent a (subst (In a) (sym first) (there m));
          handed = r.handed;
          sent = h.sent;
        }
    IsFromPlan-next s (close_jobs is_open through) h = record {
      unsent = h.unsent;
      handed = h.handed;
      sent = h.sent;
    }
    IsFromPlan-next s (stop_feeding is_open done) h = record {
      unsent = h.unsent;
      handed = h.handed;
      sent = h.sent;
    }
    IsFromPlan-next s (refuse i action has gone) h = replaced i _ s _ refl (λ a e. cc) refl refl h
    IsFromPlan-next s (call i action client answer has configured) h =
        let w = reporting (outcome_of action answer) (cancels answer) in
        let r =
          replaced i w s (record s { workers = put_worker i w s.workers }) refl (λ a e. cc) refl
            refl h in
        record {
          unsent = h.unsent;
          handed = r.handed;
          sent = λ q m. first_or_rest q action (h.handed i action has) (h.sent q) m;
        }
      where
        first_or_rest :
            {rs : List (Str × DeleteRequest)} (q : Str × DeleteRequest) (b : Action)
            → In b actions
            → (In q rs → (a : Action) × In a actions × (q ≡ request_of a))
            → In q (request_of b ∷ rs)
            → (a : Action) × In a actions × (q ≡ request_of a)
        first_or_rest q b m rest (here e) = (b, m, e)
        first_or_rest q b m rest (there n) = rest n
    IsFromPlan-next s (report i o then_cancel has) h =
        IsFromPlan-tally o.status _ (replaced i _ s _ refl (not_held then_cancel) refl refl h)
    IsFromPlan-next s (cancel i has) h = replaced i waiting s _ refl (λ a e. cc) refl refl h
    IsFromPlan-next s (exit i closed idle) h = replaced i exited s _ refl (λ a e. cc) refl refl h
    IsFromPlan-next s (interrupt running) h = record {
      unsent = h.unsent;
      handed = h.handed;
      sent = h.sent;
    }

    IsFromPlan-Steps :
        {n : ℕ} {s t : Run} → Steps clients n s t → IsFromPlan actions s → IsFromPlan actions t
    IsFromPlan-Steps here_already h = h
    IsFromPlan-Steps (go {s = s} m steps) h = IsFromPlan-Steps steps (IsFromPlan-next s m h)

no_one_holds : (k i : ℕ) (a : Action) → get_elem? (waiting_workers k) i ≡ some (holding a) → ⊥
no_one_holds zero i a h = cc
no_one_holds (suc k) zero a h = cc
no_one_holds (suc k) (suc i) a h = no_one_holds k i a h

module _ (fingerprint : Str → Str) (clients : List (Str × Client)) (config_bytes : Str)
    (concurrency : ℤ) (plan : Plan) where
  -- Each request that `Apply` sends is that of an action of the plan.
  pub Applies-requested :
      (r : ApplyResult) (e : Option ApplyError) (s : Run)
      → Applies fingerprint clients config_bytes concurrency plan r e (some s)
      → (q : Str × DeleteRequest) → In q s.requests
      → (a : Action) × In a plan.actions × (q ≡ request_of a)
  Applies-requested _ _ _ (ran started finished b n s fresh steps done) =
      (IsFromPlan-Steps plan.actions clients steps (record {
        unsent = λ a m. m;
        handed = λ i a h. absurd (no_one_holds (pool_size concurrency) i a h);
        sent = λ q m. elim m [ ];
      })).sent

  -- `Apply` sends no request that the plan does not ask for, and none more often than the plan: for any
  -- property of requests, those sent are at most the actions whose request has it.
  pub Applies-at_most_once :
      (r : ApplyResult) (e : Option ApplyError) (s : Run)
      → Applies fingerprint clients config_bytes concurrency plan r e (some s)
      → (q : Str × DeleteRequest → Bool)
      → count q s.requests ≤ count (λ a. q (request_of a)) plan.actions
  unfolding demand
  Applies-at_most_once _ _ _ (ran started finished b n s fresh steps done) q = omega (
    arith,
    demand-Steps clients q steps,
    count_requests q plan.actions,
    total-waiting_workers (asked q) (pool_size concurrency) refl,
  )
