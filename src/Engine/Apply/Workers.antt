-- ===== src/Engine/Apply/Workers.antt =====
-- Sums over the workers of `Engine.Apply` in internal/engine/engine.go.
use regbot.Base.{
  ℕ, zero, suc, ◌+◌, List, [], ◌∷◌, some, ◌≡◌, refl, arith, get_elem?, true, inl, inr, ◌⊎◌, ◌≢◌,
}
use regbot.Engine.Apply.{
  Worker, waiting, holding, reporting, cancelling, exited, put_worker, waiting_workers, all_exited,
}

abbrev pub total : (Worker → ℕ) → List Worker → ℕ
total g [] = 0
total g (w ∷ ws) = g w + total g ws

-- Replacing a worker replaces its summand.
pub total-put_worker :
    (g : Worker → ℕ) (i : ℕ) (w v : Worker) (ws : List Worker)
    → get_elem? ws i ≡ some v
    → total g (put_worker i w ws) + g v ≡ total g ws + g w
total-put_worker g i w v [] h = cc
total-put_worker g zero w v (u ∷ ws) h = omega (arith, same h)
  where
    same : some u ≡ some v → g u ≡ g v
    same e = cc
total-put_worker g (suc i) w v (u ∷ ws) h = omega (arith, total-put_worker g i w v ws h)

pub total-waiting_workers :
    (g : Worker → ℕ) (n : ℕ) → g waiting ≡ 0 → total g (waiting_workers n) ≡ 0
total-waiting_workers g zero e = refl
total-waiting_workers g (suc n) e = omega (arith, e, total-waiting_workers g n e)

pub total-each : (g : Worker → ℕ) (n : ℕ) → g waiting ≡ 1 → total g (waiting_workers n) ≡ n
total-each g zero e = refl
total-each g (suc n) e = omega (arith, e, total-each g n e)

-- Exited workers add nothing.
pub total-exited :
    (g : Worker → ℕ) (ws : List Worker) → g exited ≡ 0 → all_exited ws ≡ true → total g ws ≡ 0
total-exited g [] e h = refl
total-exited g (waiting ∷ ws) e h = cc
total-exited g (holding a ∷ ws) e h = cc
total-exited g (reporting o b ∷ ws) e h = cc
total-exited g (cancelling ∷ ws) e h = cc
total-exited g (exited ∷ ws) e h = omega (arith, e, total-exited g ws e h)

-- Unless all have exited, one has not.
pub all_exited-cases :
    (ws : List Worker)
    → (all_exited ws ≡ true) ⊎ ((i : ℕ) × (w : Worker) × (get_elem? ws i ≡ some w) × (w ≢ exited))
all_exited-cases [] = inl refl
all_exited-cases (waiting ∷ ws) = inr (0, waiting, refl, λ e. cc)
all_exited-cases (holding a ∷ ws) = inr (0, holding a, refl, λ e. cc)
all_exited-cases (reporting o b ∷ ws) = inr (0, reporting o b, refl, λ e. cc)
all_exited-cases (cancelling ∷ ws) = inr (0, cancelling, refl, λ e. cc)
all_exited-cases (exited ∷ ws) = elim (all_exited-cases ws) [
  | inl h ↦ inl h
  | inr (i, w, has, ne) ↦ inr (suc i, w, has, ne)
]
