-- ===== src/Oci/Client/Success.antt =====
-- When `Client.Delete` of internal/provider/oci/oci.go succeeds.
use regbot.Base.{true, [], ◌||◌, ◌==◌, ◌≡◌, arith, ap, ◌∙◌, Bool-cases, inl, inr}
use regbot.Provider.{DeleteRequest, ProviderError}
use regbot.Http.{Response, done, History, >>=-eq-done, give, fail, Oracle}
use regbot.Oci.Requests.{Site, request, delete_method}
use regbot.Oci.Client.{manifest_path, accepted, delete_current, delete_manifest}

failed_only :
    (e : ProviderError) (h : History) {u : Unit {0}} {h' : History} → fail e h ≡ (done u, h') → ⊥
unfolding fail
failed_only e h x = cc

given_only : (h : History) {u : Unit {0}} {h' : History} → give tt h ≡ (done u, h') → h ≡ h'
unfolding give
given_only h x = cc

accepted_only :
    (r : Response) (h h' : History) (u : Unit {0})
    → accepted r h ≡ (done u, h')
    → ((r.status == 202) ≡ true) × (h ≡ h')
accepted_only r h h' u e = elim (Bool-cases (r.status == 202)) [
  | inl a ↦ (a, given_only h (rw a at e))
  | inr b ↦ elim (Bool-cases (r.status == 404)) [
    | inl c ↦ absurd (failed_only _ h (rw (b, c) at e))
    | inr c ↦ elim (Bool-cases (r.status == 405 || r.status == 400)) [
      | inl d ↦ absurd (failed_only _ h (rw (b, c, d) at e))
      | inr d ↦ absurd (failed_only _ h (rw (b, c, d) at e))
    ]
  ]
]

module _ (oracle : Oracle) (site : Site) where
  -- `Delete` succeeds only if the registry answered its last request, which deletes the planned manifest, that
  -- it is accepted.
  delete_manifest-accepted :
      (wanted : DeleteRequest) (h h' : History)
      → delete_manifest oracle site wanted h ≡ (done tt, h')
      → (before : History) × (response : Response) × (request oracle site delete_method
            (manifest_path wanted.repository wanted.digest)
            []
            before
          ≡ (done response, h'))
        × (response.status ≡ 202)
  unfolding delete_manifest delete_current
  delete_manifest-accepted wanted h h' e =
      let (answer, h1, asked, e1) = >>=-eq-done _ _ h e in
      let (current, h2, known, e2) = >>=-eq-done _ _ h1 e1 in
      let (u, h3, unchanged, e3) = >>=-eq-done _ _ h2 e2 in
      let (response, h4, sent, e4) = >>=-eq-done _ _ h3 e3 in
      let (took, same) = accepted_only response h4 h' tt e4 in
      (h3, response, sent ∙ ap (λ k. (done response, k)) same, ground (arith, took))
