-- ===== src/Scheduler/Gauge.antt =====
-- The gauge of internal/scheduler/scheduler.go that says whether a run is active.
use regbot.Base.{
  Bool, true, false, ◌&&◌, ℕ, zero, suc, [], ◌∷◌, Option, none, some, ◌≡◌, refl, Bool-cases, inl,
  inr, if◌then◌else◌, ltb, ◌∙◌,
}
use regbot.Provider.{Time, is_zero}
use regbot.Effects.{give}
use regbot.Scheduler.{
  clock, next_run, running, called, observed, last_run, skipped_overlaps, Trace, World, Ended,
  read_clock, execute_run, execute, rounds_of, loop, skipped_occurrences, count_skipped,
}

-- What the gauge shows.
abbrev pub gauge : Trace → Bool
gauge [] = false
gauge (running b ∷ h) = b
gauge (clock t ∷ h) = gauge h
gauge (next_run t ∷ h) = gauge h
gauge (called ∷ h) = gauge h
gauge (observed ms ∷ h) = gauge h
gauge (last_run t ∷ h) = gauge h
gauge (skipped_overlaps n ∷ h) = gauge h

-- Whether it shows an active run at each call of the run.
abbrev pub is_shown : Trace → Bool
is_shown [] = true
is_shown (called ∷ h) = gauge h && is_shown h
is_shown (running b ∷ h) = is_shown h
is_shown (clock t ∷ h) = is_shown h
is_shown (next_run t ∷ h) = is_shown h
is_shown (observed ms ∷ h) = is_shown h
is_shown (last_run t ∷ h) = is_shown h
is_shown (skipped_overlaps n ∷ h) = is_shown h

pub record IsIdle (h : Trace) : Type 0 where
  pub off : gauge h ≡ false
  pub shown : is_shown h ≡ true

module _ (world : World) where
  shown_if :
      (b : Bool) (t : Time) (h : Trace)
      → is_shown ((if b then read_clock world else give t) h).1 ≡ is_shown h
  shown_if true t h = refl
  shown_if false t h = refl

  execute_run-IsIdle : (h : Trace) → IsIdle h → IsIdle (execute_run world h).1
  unfolding execute_run
  execute_run-IsIdle h i =
      let h1 = running true ∷ h in
      let h2 = clock (world.now h1) ∷ h1 in
      let finished_at = (world.run h2).0.result.finished_at in
      record {
        off = refl;
        shown = shown_if (is_zero finished_at) finished_at (called ∷ h2) ∙ i.shown;
      }

  execute-IsIdle : (h : Trace) → IsIdle h → IsIdle (execute world h).1
  unfolding execute
  execute-IsIdle h i = elim (Bool-cases (world.is_cancelled h)) [
    | inl e ↦ rw e i
    | inr e ↦ rw e (execute_run-IsIdle h i)
  ]

  count_skipped-IsIdle :
      (o : Option ℕ) (rest : Trace → Ended × Trace) (h : Trace)
      → ((k : Trace) → IsIdle k → IsIdle (rest k).1)
      → IsIdle h
      → IsIdle (count_skipped world o rest h).1
  count_skipped-IsIdle none rest h f i = i
  count_skipped-IsIdle (some n) rest h f i = elim (Bool-cases (ltb 0 n)) [
    | inl e ↦ rw e (f _ (record { off = i.off; shown = i.shown }))
    | inr e ↦ rw e (f h i)
  ]

  rounds_of-IsIdle : (rounds : ℕ) (h : Trace) → IsIdle h → IsIdle (rounds_of world rounds h).1
  unfolding rounds_of
  rounds_of-IsIdle zero h i = i
  rounds_of-IsIdle (suc rounds) h i =
      let now = world.now h in
      let next = world.next now in
      let h1 = next_run next ∷ clock now ∷ h in
      let h2 = (execute world h1).1 in
      let i1 : IsIdle h1 = record { off = i.off; shown = i.shown } in
      elim (Bool-cases (world.fires h1 next)) [
        | inl e ↦ rw e (
            count_skipped-IsIdle (skipped_occurrences world.next rounds next (world.now h2))
              (rounds_of world rounds) (clock (world.now h2) ∷ h2) (rounds_of-IsIdle rounds)
              (read h2 (execute-IsIdle h1 i1)))
        | inr e ↦ rw e i1
      ]
    where
      read : (k : Trace) → IsIdle k → IsIdle (clock (world.now k) ∷ k)
      read k i = record { off = i.off; shown = i.shown }

  -- Whenever the loop calls the run, the gauge shows an active run, and when the loop ends it shows none.
  pub loop-IsIdle :
      (run_on_start : Bool) (rounds : ℕ) → IsIdle (loop world run_on_start rounds []).1
  unfolding loop
  loop-IsIdle true rounds =
      rounds_of-IsIdle rounds _ (execute-IsIdle [] (record { off = refl; shown = refl }))
  loop-IsIdle false rounds = rounds_of-IsIdle rounds [] (record { off = refl; shown = refl })
