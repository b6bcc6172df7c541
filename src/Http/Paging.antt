-- ===== src/Http/Paging.antt =====
-- The loop `pages`, which internal/provider/oci/oci.go and internal/provider/github/github.go both have:
-- it follows the links of a listing to its end.
use regbot.Base.{
  Bool, ap, subst, true, false, not, ℕ, zero, suc, List, [], ◌++◌, Str, Result, ok, err, sym,
  is_empty, ◌==◌, if◌then◌else◌, ◌≡◌, refl, arith, Bool-cases, inl, inr, ◌≤◌, append_assoc,
  append-nil, ◌∙◌,
}
use regbot.Provider.{ProviderError}
use regbot.Http.{
  >>=-eq-done, Response, Answer, done, endless, History, Web, ◌>>=◌, ◌>>◌, give, fail, lift,
  refuse_when,
}

refuse_when-eq-done :
    (b : Bool) (x : ProviderError) (h h' : History) (u : Unit {0})
    → refuse_when b x h ≡ (done u, h')
    → (b ≡ false) × (h ≡ h')
unfolding refuse_when give fail
refuse_when-eq-done true x h h' u e = cc
refuse_when-eq-done false x h h' u e = (refl, ap (λ r. r.1) e)

lift-eq-done :
    {A : Type 0} (r : Result ProviderError A) (h h' : History) (a : A)
    → lift r h ≡ (done a, h')
    → (r ≡ ok a) × (h ≡ h')
unfolding lift give fail
lift-eq-done (ok b) h h' a e = (cc, ap (λ r. r.1) e)
lift-eq-done (err x) h h' a e = cc

give-eq-done :
    {A : Type 0} (a b : A) (s t : Str) (h h' : History)
    → give {A = A × Str} (a, s) h ≡ (done (b, t), h')
    → (a ≡ b) × (s ≡ t) × (h ≡ h')
unfolding give
give-eq-done a b s t h h' e = (cc, cc, cc)

module _ {A : Type 0} (get : Str → Web Response) (refusal : Response → ProviderError)
    (decode : Str → Result ProviderError (List A)) (link : Response → Str) where
  -- The body of the loop: the page's items and the path of the next page, empty behind the last.
  unfoldable pub page : Str → Web (List A × Str)
  page path = do
    response ← get path
    refuse_when (not (response.status == 200)) (refusal response)
    items ← lift (decode response.body)
    give (items, link response)

  -- The loop on a number of rounds, onto the items so far.
  unfoldable pub pages : ℕ → Str → List A → Web (List A)
  pages zero path items = if is_empty path then give items else λ h. (endless, h)
  pages (suc rounds) path items =
      if is_empty path
      then give items
      else page path >>= λ next. pages rounds next.1 (items ++ next.0)

  -- So many pages, from a path on, hold these items: each was got with the status 200, its body is decoded
  -- as its items, its link is the path of the next, and the last one's link is empty.
  pub data Lists : ℕ → Str → History → List A → History → Type 0 where
    end : {path : Str} {h : History} → is_empty path ≡ true → Lists 0 path h [] h
    more :
        {n : ℕ} {path : Str} {h h1 h2 : History} {response : Response} {items rest : List A}
        → is_empty path ≡ false
        → get path h ≡ (done response, h1)
        → response.status ≡ 200
        → decode response.body ≡ ok items
        → Lists n (link response) h1 rest h2
        → Lists (suc n) path h (items ++ rest) h2

  page-done :
      (path : Str) (h h1 : History) (response : Response) (items : List A)
      → get path h ≡ (done response, h1)
      → response.status ≡ 200
      → decode response.body ≡ ok items
      → page path h ≡ (done (items, link response), h1)
  unfolding page ◌>>=◌ give refuse_when lift
  page-done path h h1 response items got fine decoded = rw (got, fine, decoded) refl

  page-eq-done :
      (path : Str) (h h1 : History) (items : List A) (path' : Str)
      → page path h ≡ (done (items, path'), h1)
      → (response : Response) × (get path h ≡ (done response, h1))
        × (response.status ≡ 200)
        × (decode response.body ≡ ok items)
        × (link response ≡ path')
  unfolding page
  page-eq-done path h h1 items path' e =
      let (response, h2, got, e2) = >>=-eq-done (get path) _ h e in
      let (u, h3, fine, e3) =
        >>=-eq-done (refuse_when (not (response.status == 200)) (refusal response)) _ h2 e2 in
      let (found, h4, decoded, e4) = >>=-eq-done (lift (decode response.body)) _ h3 e3 in
      let (is_ok, same2) = refuse_when-eq-done (not (response.status == 200)) _ h2 h3 u fine in
      let (is_decoded, same3) = lift-eq-done (decode response.body) h3 h4 found decoded in
      let (same_items, same_link, same4) =
        give-eq-done found items (link response) path' h4 h1 e4 in
      (
        response,
        subst (λ k. get path h ≡ (done response, k)) (same2 ∙ same3 ∙ same4) got,
        ground arith,
        is_decoded ∙ ap ok same_items,
        same_link,
      )

  -- If the pages of a listing are got with the status 200 and decoded, and their links come to an end,
  -- as many rounds as it has pages return the items of all of them, in their order, and with them the
  -- requests that it took.
  pub pages-Lists :
      {n : ℕ} {path : Str} {h h' : History} {items : List A}
      → Lists n path h items h'
      → (rounds : ℕ) → n ≤ rounds
      → (before : List A) → pages rounds path before h ≡ (done (before ++ items), h')
  unfolding pages ◌>>=◌ give
  pages-Lists (end e) zero le before = rw (e, append-nil before) refl
  pages-Lists (end e) (suc rounds) le before = rw (e, append-nil before) refl
  pages-Lists (more e got fine decoded l) zero le before = absurd (omega arith)
  pages-Lists
        (more {path = path} {h = h} {h1 = h1} {response = response} {items = items} {rest = rest} e
          got fine decoded l)
        (suc rounds) le before =
      rw (e, page-done path h h1 response items got fine decoded)
        (rw (← append_assoc before items rest)
          (pages-Lists l rounds (omega arith) (before ++ items)))

  ended :
      (path : Str) (before items : List A) (h h' : History)
      → is_empty path ≡ true
      → give before h ≡ (done items, h')
      → Lists 0 path h [] h' × (items ≡ before ++ [])
  unfolding give
  ended path before items h h' last e =
      (subst (λ k. Lists 0 path h [] k) (cc) (end last), rw append-nil (cc))

  -- What the loop returns is a whole listing: it ended at a page without a link.
  pages_complete :
      (rounds : ℕ) (path : Str) (before items : List A) (h h' : History)
      → pages rounds path before h ≡ (done items, h')
      → (n : ℕ) × (found : List A) × Lists n path h found h' × (items ≡ before ++ found)
  unfolding pages ◌>>=◌ give
  pages_complete zero path before items h h' e = elim (Bool-cases (is_empty path)) [
    | inl last ↦ let (l, x) = ended path before items h h' last (rw last at e) in (0, [], l, x)
    | inr further ↦ absurd (never (rw further at e))
  ]
    where
      never : ◌≡◌ {A = Answer (List A) × History} (endless, h) (done items, h') → ⊥
      never x = cc
  pages_complete (suc rounds) path before items h h' e = elim (Bool-cases (is_empty path)) [
    | inl last ↦ let (l, x) = ended path before items h h' last (rw last at e) in (0, [], l, x)
    | inr further ↦
        let ((first, path'), h1, p, rest) = >>=-eq-done (page path) _ h (rw further at e) in
        let (n, found, l, e') = pages_complete rounds path' (before ++ first) items h1 h' rest in
        let (response, got, fine, decoded, next) = page-eq-done path h h1 first path' p in
        (
          suc n,
          first ++ found,
          more further got fine decoded (subst (λ k. Lists n k h1 found h') (sym next) l),
          e' ∙ append_assoc before first found,
        )
  ]
