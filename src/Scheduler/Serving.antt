-- ===== src/Scheduler/Serving.antt =====
-- `ListenAndServe` of internal/scheduler/scheduler.go behind its checks: the HTTP server, the loop and
-- the context as they go on beside each other.
use regbot.Base.{Bool, true, false, ◌||◌, ◌&&◌, Str, Option, none, some, codes, ◌≡◌, refl, arith}

-- What `Serve` returns: `http.ErrServerClosed` or another error.
pub data ServerEnd : Type 0 where
  closed : ServerEnd
  broken : Str → ServerEnd

-- Where `ListenAndServe` stands: at the first `select`, before `Shutdown`, at the second `select` with
-- the error of `Shutdown`, or behind its return.
pub data Phase : Type 0 where
  selecting stopping : Phase
  waiting returned : Option Str → Phase

-- `ended` is whether the context is, `cancelled` whether `cancel` was called, `loop_done` whether the
-- channel of that name is closed; `server` is what came through `serverErrors`.
pub record Serving : Type 0 where
  pub phase : Phase
  pub ended : Bool
  pub cancelled : Bool
  pub loop_done : Bool
  pub server : Option ServerEnd

abbrev pub listening : Serving
listening = record {
  phase = selecting;
  ended = false;
  cancelled = false;
  loop_done = false;
  server = none;
}

-- `if shutdownErr == nil { shutdownErr = shutdownCtx.Err() }`
abbrev pub deadline : Option Str → Option Str
deadline none = some (codes "context deadline exceeded")
deadline (some e) = some e

-- A move of `ListenAndServe`. Both of its `select` take any case that is ready, and the deadline of
-- the shutdown may come at any time.
pub data Move : Serving → Serving → Type 0 where
  on_context :
      {s : Serving}
      → s.phase ≡ selecting
      → s.ended ≡ true
      → Move s (record s { phase = stopping; cancelled = true })
  on_closed :
      {s : Serving}
      → s.phase ≡ selecting
      → s.server ≡ some closed
      → Move s (record s { phase = stopping; cancelled = true })
  on_broken :
      {s : Serving} (e : Str)
      → s.phase ≡ selecting
      → s.server ≡ some (broken e)
      → Move s (record s { phase = returned (some e); cancelled = true })
  on_shutdown :
      {s : Serving} (answer : Option Str)
      → s.phase ≡ stopping
      → Move s (record s { phase = waiting answer })
  on_loop :
      {s : Serving} (answer : Option Str)
      → s.phase ≡ waiting answer
      → s.loop_done ≡ true
      → Move s (record s { phase = returned answer })
  on_deadline :
      {s : Serving} (answer : Option Str)
      → s.phase ≡ waiting answer
      → Move s (record s { phase = returned (deadline answer) })

-- `ListenAndServe` goes on, the context ends, `Serve` returns, or the loop does, which it does only
-- when its context has ended.
pub data Step : Serving → Serving → Type 0 where
  goes_on : {s t : Serving} → Move s t → Step s t
  context_ends : {s : Serving} → Step s (record s { ended = true })
  server_ends :
      {s : Serving} (e : ServerEnd) → s.server ≡ none → Step s (record s { server = some e })
  loop_ends :
      {s : Serving} → (s.ended || s.cancelled) ≡ true → Step s (record s { loop_done = true })

pub data Steps : Serving → Type 0 where
  start : Steps listening
  then_step : {s t : Serving} → Steps s → Step s t → Steps t

-- What the phase says of the loop and of `cancel`.
abbrev agrees : Phase → Bool → Bool → Bool
agrees selecting cancelled loop_done = true
agrees stopping cancelled loop_done = cancelled
agrees (waiting answer) cancelled loop_done = cancelled
agrees (returned none) cancelled loop_done = cancelled && loop_done
agrees (returned (some e)) cancelled loop_done = cancelled

abbrev IsOrderly : Serving → Type 0
IsOrderly s = agrees s.phase s.cancelled s.loop_done ≡ true

behind_wait :
    (answer : Option Str) (cancelled loop_done : Bool)
    → cancelled ≡ true
    → loop_done ≡ true
    → agrees (returned answer) cancelled loop_done ≡ true
behind_wait none cancelled loop_done h k = ground (arith, h, k)
behind_wait (some e) cancelled loop_done h k = h

late :
    (answer : Option Str) (cancelled loop_done : Bool)
    → cancelled ≡ true
    → agrees (returned (deadline answer)) cancelled loop_done ≡ true
late none cancelled loop_done h = h
late (some e) cancelled loop_done h = h

Move-IsOrderly : {s t : Serving} → Move s t → IsOrderly s → IsOrderly t
Move-IsOrderly (on_context p e) h = refl
Move-IsOrderly (on_closed p e) h = refl
Move-IsOrderly (on_broken e p q) h = refl
Move-IsOrderly (on_shutdown {s = s} answer p) h = rw p at h
Move-IsOrderly (on_loop {s = s} answer p done) h =
    behind_wait answer s.cancelled s.loop_done (rw p at h) done
Move-IsOrderly (on_deadline {s = s} answer p) h = late answer s.cancelled s.loop_done (rw p at h)

loop_still :
    (p : Phase) (cancelled loop_done : Bool)
    → agrees p cancelled loop_done ≡ true
    → agrees p cancelled true ≡ true
loop_still selecting c l h = h
loop_still stopping c l h = h
loop_still (waiting a) c l h = h
loop_still (returned none) c l h = ground (arith, h)
loop_still (returned (some e)) c l h = h

Step-IsOrderly : {s t : Serving} → Step s t → IsOrderly s → IsOrderly t
Step-IsOrderly (goes_on m) h = Move-IsOrderly m h
Step-IsOrderly context_ends h = h
Step-IsOrderly (server_ends e p) h = h
Step-IsOrderly (loop_ends {s = s} p) h = loop_still s.phase s.cancelled s.loop_done h

Steps-IsOrderly : (s : Serving) → Steps s → IsOrderly s
Steps-IsOrderly _ start = refl
Steps-IsOrderly _ (then_step {s = s} steps step) = Step-IsOrderly step (Steps-IsOrderly s steps)

-- When `ListenAndServe` has returned without an error, the loop has ended, and with it the last run.
pub Steps-settled :
    (s : Serving) → Steps s → s.phase ≡ returned none → (s.loop_done ≡ true) × (s.cancelled ≡ true)
Steps-settled s steps p =
    let both : (s.cancelled && s.loop_done) ≡ true = rw p at (Steps-IsOrderly s steps) in
    (ground (arith, both), ground (arith, both))
