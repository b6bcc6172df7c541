-- ===== src/Engine/Apply/Crew.antt =====
-- The goroutines of the pool of `Engine.Apply` in internal/engine/engine.go: none returns before the
-- jobs are closed.
use regbot.Base.{
  Bool, true, false, ℕ, zero, suc, ◌≤◌, List, [], ◌∷◌, Str, ◌≡◌, refl, arith, ap, sym, ◌∙◌,
  Bool-cases, inl, inr, ℤ, pos, negsuc, get_elem?, some, if◌then◌else◌,
}
use regbot.Provider.{Client}
use regbot.Plan.{Action, Status, deleted, skipped, failed}
use regbot.Engine.Apply.{
  Worker, waiting, holding, reporting, cancelling, exited, Run, tally, put_worker, Move, send,
  close_jobs, stop_feeding, refuse, call, report, cancel, exit, interrupt, next, Steps,
  here_already, go, all_exited, pool_size, begin,
}
use regbot.Engine.Apply.Workers.{total, total-put_worker, total-waiting_workers, total-each}

abbrev returned : Worker → ℕ
returned exited = 1
returned w = 0

abbrev one_each : Worker → ℕ
one_each w = 1

record HasCrew (k : ℕ) (s : Run) : Type 0 where
  pub size : total one_each s.workers ≡ k
  pub staying : s.feeding ≡ true → total returned s.workers ≡ 0

returned-reported : (b : Bool) → returned (if b then cancelling else waiting) ≡ 0
returned-reported true = refl
returned-reported false = refl

HasCrew-tally : (k : ℕ) (status : Status) (s : Run) → HasCrew k s → HasCrew k (tally status s)
HasCrew-tally k deleted s h = record { size = h.size; staying = h.staying }
HasCrew-tally k skipped s h = record { size = h.size; staying = h.staying }
HasCrew-tally k failed s h = record { size = h.size; staying = h.staying }

replaced :
    (k i : ℕ) (w v : Worker) (s t : Run)
    → get_elem? s.workers i ≡ some v
    → returned w ≡ 0
    → returned v ≡ 0
    → t.workers ≡ put_worker i w s.workers
    → t.feeding ≡ s.feeding
    → HasCrew k s
    → HasCrew k t
replaced k i w v s t has ew ev e ef h = record {
  size =
      omega (arith, h.size, ap (total one_each) e, total-put_worker one_each i w v s.workers has);
  staying = λ is_open. omega (
    arith,
    h.staying (sym ef ∙ is_open),
    ap (total returned) e,
    ew,
    ev,
    total-put_worker returned i w v s.workers has,
  );
}

module _ (clients : List (Str × Client)) where
  HasCrew-next : (k : ℕ) (s : Run) (m : Move clients s) → HasCrew k s → HasCrew k (next clients s m)
  unfolding next
  HasCrew-next k s (send i action rest is_open first idle) h =
      replaced k i (holding action) waiting s _ idle refl refl refl refl h
  HasCrew-next k s (close_jobs is_open through) h = record { size = h.size; staying = λ e. cc }
  HasCrew-next k s (stop_feeding is_open done) h = record { size = h.size; staying = λ e. cc }
  HasCrew-next k s (refuse i action has gone) h =
      replaced k i _ (holding action) s _ has refl refl refl refl h
  HasCrew-next k s (call i action client answer has configured) h =
      replaced k i _ (holding action) s _ has refl refl refl refl h
  HasCrew-next k s (report i o then_cancel has) h = HasCrew-tally k o.status _ (
      replaced k i _ (reporting o then_cancel) s _ has (returned-reported then_cancel) refl refl
        refl h)
  HasCrew-next k s (cancel i has) h = replaced k i waiting cancelling s _ has refl refl refl refl h
  HasCrew-next k s (exit i closed idle) h = record {
    size = omega (arith, h.size, total-put_worker one_each i exited waiting s.workers idle);
    staying = λ is_open. cc;
  }
  HasCrew-next k s (interrupt running) h = record { size = h.size; staying = h.staying }

  HasCrew-Steps : (k : ℕ) {n : ℕ} {s t : Run} → Steps clients n s t → HasCrew k s → HasCrew k t
  HasCrew-Steps k here_already h = h
  HasCrew-Steps k (go {s = s} m steps) h = HasCrew-Steps k steps (HasCrew-next k s m h)

  begin-HasCrew :
      (c : ℤ) (b : Bool) (actions : List Action) → HasCrew (pool_size c) (begin c b actions)
  begin-HasCrew c b actions = record {
    size = total-each one_each (pool_size c) refl;
    staying = λ e. total-waiting_workers returned (pool_size c) refl;
  }

  -- Jobs are closed when all have returned.
  pub ended-closed :
      {n : ℕ} {s : Run} (c : ℤ) (b : Bool) (actions : List Action)
      → Steps clients n (begin c b actions) s
      → all_exited s.workers ≡ true
      → s.feeding ≡ false
  ended-closed {s = s} c b actions steps done = elim (Bool-cases s.feeding) [
    | inl is_open ↦
        let h = HasCrew-Steps (pool_size c) steps (begin-HasCrew c b actions) in
        absurd
          (omega (arith, h.size, h.staying is_open, returned_all s.workers done, pool_size-pos c))
    | inr closed ↦ closed
  ]
    where
      returned_all :
          (ws : List Worker) → all_exited ws ≡ true → total returned ws ≡ total one_each ws
      returned_all [] e = refl
      returned_all (waiting ∷ ws) e = cc
      returned_all (holding a ∷ ws) e = cc
      returned_all (reporting o d ∷ ws) e = cc
      returned_all (cancelling ∷ ws) e = cc
      returned_all (exited ∷ ws) e = omega (arith, returned_all ws e)

      pool_size-pos : (d : ℤ) → 1 ≤ pool_size d
      pool_size-pos (pos zero) = omega arith
      pool_size-pos (pos (suc k)) = omega arith
      pool_size-pos (negsuc k) = omega arith
