-- ===== src/Cli/Adds.antt =====
-- Which events a chain of steps of a command in internal/cli/root.go adds.
use regbot.Base.{
  Option, none, some, Result, ok, err, In, here, there, ◌≡◌, refl, sym, subst, ◌⊎◌, inl, inr,
}
use regbot.Cli.{Event, Trace, Command, CommandError, continue, ◌>>=◌, ◌>>◌, emit, ask, lift, refuse}

-- A command adds only events with a property.
unfoldable pub Adds : {A : Type 0} → (Event → Type 0) → Command A → Type 0
Adds P m = (h : Trace) (e : Event) → In e (m h).1 → In e h ⊎ P e

module _ (P : Event → Type 0) where
  continue-Adds :
      {A B : Type 0} (r : Result CommandError A) (h : Trace) (k : A → Command B) (e : Event)
      → ((a : A) → Adds P (k a))
      → In e (continue (r, h) k).1
      → In e h ⊎ P e
  unfolding Adds
  continue-Adds (ok a) h k e adds m = adds a h e m
  continue-Adds (err x) h k e adds m = inl m

  pub bind-Adds :
      {A B : Type 0} (m : Command A) (k : A → Command B)
      → Adds P m
      → ((a : A) → Adds P (k a))
      → Adds P (m >>= k)
  unfolding Adds
  bind-Adds m k first then_adds h e n = elim (continue-Adds (m h).0 (m h).1 k e then_adds n) [
    | inl o ↦ first h e o
    | inr p ↦ inr p
  ]

  pub lift-Adds : {E A : Type 0} (f : E → CommandError) (r : Result E A) → Adds P (lift f r)
  unfolding Adds
  lift-Adds f (ok a) h e m = inl m
  lift-Adds f (err x) h e m = inl m

  pub refuse-Adds : {E : Type 0} (f : E → CommandError) (o : Option E) → Adds P (refuse f o)
  unfolding Adds
  refuse-Adds f none h e m = inl m
  refuse-Adds f (some x) h e m = inl m

  pub ask-Adds : {A : Type 0} (f : Trace → A) → Adds P (ask f)
  unfolding Adds
  ask-Adds f h e m = inl m

  pub emit-Adds : (x : Event) → P x → Adds P (emit x)
  unfolding Adds
  emit-Adds x p h e (here q) = inr (subst P (sym q) p)
  emit-Adds x p h e (there m) = inl m

  pub guarded-Adds :
      {E : Type 0} (f : E → CommandError) (r : Result E (Unit {0})) (x : Event)
      → (r ≡ ok tt → P x)
      → Adds P (lift f r >> emit x)
  unfolding Adds
  guarded-Adds f (ok u) x p h e (here q) = inr (subst P (sym q) (p refl))
  guarded-Adds f (ok u) x p h e (there m) = inl m
  guarded-Adds f (err y) x p h e m = inl m
