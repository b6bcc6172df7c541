-- ===== src/Engine/Apply/Interrupted.antt =====
-- What `Engine.Apply` of internal/engine/engine.go makes of a context that ends before anything is sent.
use regbot.Base.{
  true, false, ℕ, zero, suc, List, [], ◌∷◌, Str, none, some, ◌≡◌, refl, ap, get_elem?, length,
  slice_stable, ℤ, subst, sym,
}
use regbot.Provider.{Client, Time}
use regbot.Plan.{Plan, Action}
use regbot.Engine.Apply.{
  Worker, waiting, exited, Run, put_worker, stop_feeding, exit, next, Steps, here_already, go,
  all_exited, waiting_workers, pool_size, begin, is_stale, result_of, Applies, ran,
}

-- Workers of which the first ones have returned.
mixed : ℕ → ℕ → List Worker
mixed zero m = waiting_workers m
mixed (suc k) m = exited ∷ mixed k m

mixed-idle : (k m : ℕ) → get_elem? (mixed k (suc m)) k ≡ some waiting
unfolding mixed
mixed-idle zero m = refl
mixed-idle (suc k) m = mixed-idle k m

mixed-exit : (k m : ℕ) → put_worker k exited (mixed k (suc m)) ≡ mixed (suc k) m
unfolding mixed
mixed-exit zero m = refl
mixed-exit (suc k) m = ap (λ ws. exited ∷ ws) (mixed-exit k m)

mixed-all_exited : (k : ℕ) → all_exited (mixed k 0) ≡ true
unfolding mixed
mixed-all_exited zero = refl
mixed-all_exited (suc k) = mixed-all_exited k

module _ (fingerprint : Str → Str) (clients : List (Str × Client)) (config_bytes : Str)
    (concurrency : ℤ) where
  -- The feeder has gone without sending anything, and so have some workers.
  abbrev idle : List Action → List Worker → Run
  idle actions workers = record (begin concurrency true actions) {
    feeding = false;
    workers = workers;
  }

  exits :
      (actions : List Action) (m k : ℕ)
      → (n : ℕ) × (k' : ℕ) × Steps clients n (idle actions (mixed k m)) (idle actions (mixed k' 0))
  unfolding next
  exits actions zero k = (0, k, here_already)
  exits actions (suc m) k =
      let (n, k', steps) = exits actions m (suc k) in
      (
        suc n,
        k',
        go (exit k refl (mixed-idle k m)) (
            subst (λ ws. Steps clients n (idle actions ws) (idle actions (mixed k' 0)))
              (sym (mixed-exit k m)) steps),
      )

  -- If the caller's context has ended before anything is sent, `Apply` can return without an error
  -- and without an outcome, whatever the plan holds: it counts all actions as skipped.
  pub Applies-interrupted :
      (plan : Plan) (started finished : Time)
      → is_stale fingerprint config_bytes plan started ≡ false
      → (s : Run) × Applies fingerprint clients config_bytes concurrency plan
          (result_of plan started finished s)
          none
          (some s)
        × (s.requests ≡ [])
        × ((result_of plan started finished s).outcomes ≡ [])
        × ((result_of plan started finished s).planned ≡ length plan.actions)
  unfolding result_of slice_stable next mixed
  Applies-interrupted plan started finished fresh =
      let (n, k, steps) = exits plan.actions (pool_size concurrency) 0 in
      let s = idle plan.actions (mixed k 0) in
      (
        s,
        ran started finished true (suc n) s fresh (go (stop_feeding refl refl) steps)
            (mixed-all_exited k),
        refl,
        refl,
        refl,
      )
