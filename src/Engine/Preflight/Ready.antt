-- ===== src/Engine/Preflight/Ready.antt =====
-- What `Engine.Validate` of internal/engine/engine.go says of the providers.
use regbot.Base.{
  Bool, true, false, not, List, [], ◌∷◌, Str, ok, ◌≡◌, refl, sym, ap, subst, In, here, there,
  >>=-eq-ok, wrap, wrap-eq-ok, refuse_if, refuse_if-eq-ok,
}
use regbot.Provider.{Client, Capabilities}
use regbot.Engine.Preflight.{unreachable, cannot_delete, validate_clients}

-- The provider answers the preflight, and can delete.
abbrev pub IsReady : Client → Type 0
IsReady client = (c : Capabilities) × (client.preflight ≡ ok c) × (c.delete ≡ true)

-- If the validation succeeds, every provider answered the preflight and can delete.
validate_clients-IsReady :
    (clients : List (Str × Client))
    → validate_clients clients ≡ ok tt
    → (name : Str) (client : Client) → In (name, client) clients
    → IsReady client
unfolding validate_clients
validate_clients-IsReady [] h name client m = elim m [ ]
validate_clients-IsReady ((n, c) ∷ rest) h name client m =
    let (capabilities, answered, h1) = >>=-eq-ok (wrap (unreachable n) c.preflight) _ h in
    let (u, able, h2) = >>=-eq-ok (refuse_if (not capabilities.delete) (cannot_delete n)) _ h1 in
    first_or_rest
      (
        capabilities,
        wrap-eq-ok (unreachable n) c.preflight answered,
        able_of capabilities.delete
            (refuse_if-eq-ok (not capabilities.delete) (cannot_delete n) able),
      )
      (validate_clients-IsReady rest h2 name client) m
  where
    able_of : (b : Bool) → not b ≡ false → b ≡ true
    able_of true e = refl
    able_of false e = cc

    first_or_rest :
        IsReady c
        → (In (name, client) rest → IsReady client)
        → In (name, client) ((n, c) ∷ rest)
        → IsReady client
    first_or_rest first others (here e) =
        subst IsReady (sym (ap (λ (x : Str × Client). x.1) e)) first
    first_or_rest first others (there k) = others k
