-- ===== src/Server/Serving.antt =====
-- The end of `ListenAndServe` of internal/server/server.go: the HTTP server, the goroutine that shuts it
-- down, and the handlers that are active.
use regbot.Base.{
  Bool, true, false, not, ◌||◌, ℕ, zero, suc, Str, Option, none, some, ◌≡◌, refl, arith, ap,
}

-- Where the goroutine stands: at `<-ctx.Done()`, in `Shutdown`, or at its end.
pub data Watch : Type 0 where
  watching shutting gone : Watch

-- Where `ListenAndServe` stands: in `httpServer.ListenAndServe`, or behind its return.
pub data Phase : Type 0 where
  listening : Phase
  returned : Option Str → Phase

-- `ended` is whether the context is, `open` whether the server takes requests, `active` how many
-- handlers are at work.
pub record Serving : Type 0 where
  pub phase : Phase
  pub watch : Watch
  pub ended : Bool
  pub open_port : Bool
  pub active : ℕ

abbrev pub at_start : Serving
at_start = record {
  phase = listening;
  watch = watching;
  ended = false;
  open_port = true;
  active = 0;
}

-- `Shutdown` closes the port at once, whereupon `httpServer.ListenAndServe` returns `ErrServerClosed`,
-- and waits for the handlers at most as long as its context.
pub data Step : Serving → Serving → Type 0 where
  context_ends : {s : Serving} → Step s (record s { ended = true })
  request_comes : {s : Serving} → s.open_port ≡ true → Step s (record s { active = suc s.active })
  handler_ends : {s : Serving} {n : ℕ} → s.active ≡ suc n → Step s (record s { active = n })
  shutdown_starts :
      {s : Serving}
      → s.watch ≡ watching
      → s.ended ≡ true
      → Step s (record s { watch = shutting; open_port = false })
  shutdown_ends :
      {s : Serving} → s.watch ≡ shutting → s.active ≡ 0 → Step s (record s { watch = gone })
  shutdown_late : {s : Serving} → s.watch ≡ shutting → Step s (record s { watch = gone })
  -- `if errors.Is(err, http.ErrServerClosed) { return nil }`
  closed_returns :
      {s : Serving}
      → s.phase ≡ listening
      → s.open_port ≡ false
      → Step s (record s { phase = returned none })
  error_returns :
      {s : Serving} (e : Str)
      → s.phase ≡ listening
      → s.open_port ≡ true
      → Step s (record s { phase = returned (some e) })

pub data Steps : Serving → Serving → Type 0 where
  none_taken : {s : Serving} → Steps s s
  then_step : {s t u : Serving} → Steps s t → Step t u → Steps s u

abbrev is_watching : Watch → Bool
is_watching watching = true
is_watching shutting = false
is_watching gone = false

abbrev is_calm : Phase → Bool
is_calm listening = false
is_calm (returned none) = true
is_calm (returned (some e)) = false

-- The port is closed only by a shutdown, which comes only behind the end of the context.
record IsOrderly (s : Serving) : Type 0 where
  told : (is_watching s.watch || s.ended) ≡ true
  shut : (s.open_port || not (is_watching s.watch)) ≡ true
  calm : (not (is_calm s.phase) || not s.open_port) ≡ true

Step-IsOrderly : {s t : Serving} → Step s t → IsOrderly s → IsOrderly t
Step-IsOrderly (context_ends {s = s}) h = record {
  told = ground arith;
  shut = h.shut;
  calm = h.calm;
}
Step-IsOrderly (request_comes e) h = record { told = h.told; shut = h.shut; calm = h.calm }
Step-IsOrderly (handler_ends e) h = record { told = h.told; shut = h.shut; calm = h.calm }
Step-IsOrderly (shutdown_starts w e) h = record { told = e; shut = refl; calm = ground arith }
Step-IsOrderly (shutdown_ends {s = s} w e) h = record {
  told = ground (arith, h.told, ap is_watching w);
  shut = ground arith;
  calm = h.calm;
}
Step-IsOrderly (shutdown_late {s = s} w) h = record {
  told = ground (arith, h.told, ap is_watching w);
  shut = ground arith;
  calm = h.calm;
}
Step-IsOrderly (closed_returns p e) h = record { told = h.told; shut = h.shut; calm = ap not e }
Step-IsOrderly (error_returns x p e) h = record { told = h.told; shut = h.shut; calm = refl }

Steps-IsOrderly : (s : Serving) → Steps at_start s → IsOrderly s
Steps-IsOrderly _ none_taken = record { told = refl; shut = refl; calm = refl }
Steps-IsOrderly _ (then_step {t = t} steps step) = Step-IsOrderly step (Steps-IsOrderly t steps)

-- `ListenAndServe` returns without an error only behind the end of the context.
pub Steps-ended : (s : Serving) → Steps at_start s → s.phase ≡ returned none → s.ended ≡ true
Steps-ended s steps p =
    let h = Steps-IsOrderly s steps in ground (arith, h.told, h.shut, h.calm, ap is_calm p)

-- The server with requests whose handlers are at work.
with_active : (n : ℕ) → Steps at_start (record at_start { active = n })
with_active zero = none_taken
with_active (suc n) = then_step (with_active n) (request_comes refl)

-- `ListenAndServe` waits neither for the handlers nor for `Shutdown`: with any number of handlers at
-- work it can have returned without an error, behind the end of the context, while `Shutdown` still
-- waits for all of them.
pub returns_early :
    (n : ℕ)
    → (s : Serving) × Steps at_start s
      × (s.phase ≡ returned none)
      × (s.ended ≡ true)
      × (s.watch ≡ shutting)
      × (s.active ≡ n)
returns_early n = (
  record { phase = returned none; watch = shutting; ended = true; open_port = false; active = n },
  then_step (then_step (then_step (with_active n) context_ends) (shutdown_starts refl refl))
      (closed_returns refl refl),
  refl,
  refl,
  refl,
  refl,
)
