-- ===== src/Factory/Clients.antt =====
-- Which clients `Providers` of internal/factory/factory.go returns.
use regbot.Base.{
  Bool, true, not, ◌||◌, List, [], ◌∷◌, Str, Option, some, Result, ok, str_eq, str_mem, ◌≡◌, refl,
  arith, subst, Float64, In, any-false→, Bool-cases, inl, inr, >>=-eq-ok, str_eq_comm,
}
use regbot.Policy.Types.{Regexp}
use regbot.Config.Types.{Registry, Target, Policy, Config}
use regbot.Config.Validate.{validate, names}
use regbot.Config.Valid.{validate-IsUsable}
use regbot.Engine.Planning.{find}
use regbot.Factory.{Constructors, FactoryError, provider_of, providers}

module _ {C : Type 0} (make : Constructors C) where
  same_clients :
      (xs ys : List (Str × C))
      → ◌≡◌ {A = Result FactoryError (List (Str × C))} (ok xs) (ok ys)
      → xs ≡ ys
  same_clients xs ys e = cc

  names-providers :
      (rs : List (Str × Registry)) (before clients : List (Str × C)) (key : Str)
      → providers make rs before ≡ ok clients
      → (str_mem key (names rs) || str_mem key (names before)) ≡ true
      → str_mem key (names clients) ≡ true
  unfolding providers
  names-providers [] before clients key e h =
      subst (λ cs. str_mem key (names cs) ≡ true) (same_clients before clients e) h
  names-providers ((name, r) ∷ rs) before clients key e h =
      let (c, made, rest) = >>=-eq-ok (provider_of make name r) _ e in
      names-providers rs ((name, c) ∷ before) clients key rest (ground arith)

  found :
      (key : Str) (cs : List (Str × C))
      → str_mem key (names cs) ≡ true
      → (c : C) × (find key cs ≡ some c)
  found key [] e = cc
  found key ((k, c) ∷ cs) e = elim (Bool-cases (str_eq k key)) [
    | inl same ↦ (c, rw same refl)
    | inr other ↦ let (c', f) = found key cs (ground (arith, str_eq_comm k key)) in (c', rw other f)
  ]

  -- Each registry that a target of an accepted configuration's policy names has a client, if there are clients.
  pub providers-find :
      {F : Type 0} (f : Float64 F) (compile : Str → Option Regexp)
      (parses_cron has_zone : Str → Bool) (config : Config F) (clients : List (Str × C))
      (name : Str) (p : Policy F) (t : Target)
      → validate f compile parses_cron has_zone config ≡ []
      → providers make config.registries [] ≡ ok clients
      → In (name, p) config.policies
      → In t p.targets
      → (client : C) × (find t.registry clients ≡ some client)
  providers-find f compile parses_cron has_zone config clients name p t valid made has_policy
        has_target =
      let usable =
        validate-IsUsable f compile parses_cron has_zone config name p valid has_policy in
      let known =
        any-false→ (λ u. not (str_mem u.registry (names config.registries))) p.targets usable.known
          t has_target in
      found t.registry clients
        (names-providers config.registries [] clients t.registry made (ground (arith, known)))
