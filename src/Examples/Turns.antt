-- ===== src/Examples/Turns.antt =====
-- Two requests to run at once, as internal/server/server.go handles them.
use regbot.Base.{Bool, true, false, [], ◌∷◌, some, refl, ◌≡◌}
use regbot.Server.Turns.{
  Phase, arrived, admitted, Locks, turn, arrive, go_on, Steps, start, then_step, IsHeld,
  Steps-IsHeld, Steps-go_on,
}

abbrev locks : Bool → Bool → Locks
locks running locked = record { running = running; locked = locked }

-- The first is behind the swap when the second comes.
overlapping : Steps (locks true false, admitted ∷ arrived true ∷ [])
unfolding turn
overlapping =
    then_step
      (then_step (then_step start (arrive true)) (go_on (arrived true) admitted [] [] 200 refl))
      (arrive true)

Steps-IsHeld_example : IsHeld (locks true false, admitted ∷ arrived true ∷ [])
Steps-IsHeld_example = Steps-IsHeld overlapping

Steps-go_on_example : (next : Locks × Phase) × (turn 200 (locks true false) admitted ≡ some next)
Steps-go_on_example = Steps-go_on [] (arrived true ∷ []) admitted 200 overlapping refl
