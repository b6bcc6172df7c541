-- ===== src/Cli/Services/Guarded.antt =====
-- Who can ask the server that `serve` of internal/cli/root.go starts for a run.
use regbot.Base.{
  Bool, true, false, ◌||◌, [], ◌∷◌, ◌++◌, Str, some, Result, ok, err, codes, str_eq, str_eq→eq,
  is_empty, if◌then◌else◌, In, ◌≡◌, refl, arith, ap, sym, ◌∙◌, subst, ◌⊎◌, inl, inr, Bool-cases,
  Option-cases,
}
use regbot.Config.Secrets.{secret}
use regbot.Server.{BindingError, validate_binding, authorized, behind, bearer, token_required}
use regbot.Cli.{
  Event, validated, planned, applied, wrote, printed_plan, printed_result, posted, logged_failure,
  logged_hook, announced, served, started_scheduler, World, invalid, unready, other,
}
use regbot.Cli.Commands.{call_validate}
use regbot.Cli.Adds.{Adds, bind-Adds, lift-Adds, refuse-Adds, ask-Adds, emit-Adds, guarded-Adds}
use regbot.Cli.Services.{Services, listen_and_serve, serve_command}

abbrev is_served : Event → Bool
is_served validated = false
is_served planned = false
is_served (applied p) = false
is_served (wrote path p) = false
is_served (printed_plan format p) = false
is_served (printed_result format r) = false
is_served (posted n) = false
is_served (logged_failure o) = false
is_served (logged_hook e) = false
is_served (announced address) = false
is_served (served address token) = true
is_served (started_scheduler settings) = false

behind-eq-some : (prefix s rest : Str) → behind prefix s ≡ some rest → s ≡ prefix ++ rest
unfolding str_eq
behind-eq-some [] s rest e = some-inj e
  where
    some-inj : {a b : Str} → some a ≡ some b → a ≡ b
    some-inj q = cc
behind-eq-some (c ∷ cs) [] rest e = cc
behind-eq-some (c ∷ cs) (d ∷ s) rest e = elim (Bool-cases (str_eq (c ∷ []) (d ∷ []))) [
  | inl same ↦ ground (arith, same, behind-eq-some cs s rest, rw same at e)
  | inr differ ↦ cc (rw differ at e)
]

-- A token that there is is asked for.
authorized-bearer :
    (header token : Str)
    → authorized header token ≡ true
    → is_empty token ≡ false
    → header ≡ bearer ++ token
unfolding authorized
authorized-bearer header token h given = elim (Option-cases (behind bearer header)) [
  | inl e ↦ cc (rw (given, e) at h)
  | inr (rest, e) ↦
      behind-eq-some bearer header rest e
      ∙ ap (λ t. bearer ++ t) (str_eq→eq rest token (rw (given, e) at h))
]

-- The host of a loopback address.
abbrev pub is_local : Services → Str → Bool
is_local services host = str_eq host (codes "localhost") || services.is_loopback host

either_local :
    (a b : Bool)
    → ◌≡◌ {A = Result BindingError (Unit {0})}
        (if a then ok tt else if b then ok tt else err token_required)
        (ok tt)
    → (a || b) ≡ true
either_local true b h = refl
either_local false true h = refl
either_local false false h = cc

-- An address that is accepted has a host, and without a token one of a loopback address.
bound-IsSafe :
    (services : Services) (address token : Str)
    → validate_binding services.host_of services.is_loopback address token ≡ ok tt
    → (host : Str) × (services.host_of address ≡ some host)
      × ((is_empty token ≡ false) ⊎ (is_local services host ≡ true))
unfolding validate_binding
bound-IsSafe services address token h = elim (Option-cases (services.host_of address)) [
  | inl e ↦ cc (rw (validate_binding, e) at h)
  | inr (host, e) ↦ (
    host,
    e,
    elim (Bool-cases (is_empty token)) [
      | inr given ↦ inl given
      | inl empty ↦ inr (
          either_local (str_eq host (codes "localhost")) (services.is_loopback host)
            (rw (validate_binding, e, empty) at h))
    ],
  )
]

module _ {F : Type 0} (world : World F) (services : Services) (address : Str) where
  IsChecked : Event → Type 0
  IsChecked e =
      (is_served e ≡ false)
      ⊎ ((token : Str) × (e ≡ served address token)
          × (validate_binding services.host_of services.is_loopback address token ≡ ok tt))

  listen_and_serve-Adds :
      (token : Str) → Adds IsChecked (listen_and_serve world services address token)
  unfolding listen_and_serve IsChecked
  listen_and_serve-Adds token =
      bind-Adds IsChecked _ _
        (guarded-Adds IsChecked _
          (validate_binding services.host_of services.is_loopback address token)
          (served address token) (λ e. inr (token, refl, e)))
        λ u.
          bind-Adds IsChecked _ _ (ask-Adds IsChecked services.serve)
            λ o. refuse-Adds IsChecked other o

  call_validate-Adds : Adds IsChecked (call_validate world)
  unfolding IsChecked
  call_validate-Adds = bind-Adds IsChecked _ _ (ask-Adds IsChecked world.validate) λ r.
      bind-Adds IsChecked _ _ (emit-Adds IsChecked validated (inl refl))
        λ u. lift-Adds IsChecked unready r

  serve_command-Adds :
      (token_env token_file : Str)
      → Adds IsChecked (serve_command world services address token_env token_file)
  unfolding serve_command IsChecked
  serve_command-Adds token_env token_file =
      bind-Adds IsChecked _ _ (lift-Adds IsChecked invalid world.load) λ config.
        bind-Adds IsChecked _ _ call_validate-Adds λ u.
          bind-Adds IsChecked _ _
            (lift-Adds IsChecked _
              (secret world.environment services.read services.trim token_env token_file))
            λ token.
              bind-Adds IsChecked _ _ (emit-Adds IsChecked (announced address) (inl refl))
                λ v. listen_and_serve-Adds token

  -- Whoever can start a run at the server that `serve` has started, on the address that it was given,
  -- knows the token, which is not empty, or the host of the address is a loopback address.
  pub serve_command-guarded :
      (token_env token_file token header : Str)
      → In (served address token) (serve_command world services address token_env token_file []).1
      → authorized header token ≡ true
      → (host : Str) × (services.host_of address ≡ some host)
        × (((header ≡ bearer ++ token) × (is_empty token ≡ false))
            ⊎ (is_local services host ≡ true))
  unfolding Adds IsChecked
  serve_command-guarded token_env token_file token header m allowed =
      elim (serve_command-Adds token_env token_file [] (served address token) m) [
        | inl n ↦ elim n [ ]
        | inr (inl e) ↦ cc
        | inr (inr (t, e, checked)) ↦
            let (host, found, safe) = bound-IsSafe services address token (
              subst (λ u. validate_binding services.host_of services.is_loopback address u ≡ ok tt)
                (sym (same_token t e)) checked) in
            (
              host,
              found,
              elim safe [
                | inl given ↦ inl (authorized-bearer header token allowed given, given)
                | inr local ↦ inr local
              ],
            )
      ]
    where
      same_token : (t : Str) → served address token ≡ served address t → token ≡ t
      same_token t q = cc
