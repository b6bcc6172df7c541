-- ===== src/Github/Requests/Retries.antt =====
-- How often `do` of internal/provider/github/github.go sends a request, and which response it returns.
use regbot.Base.{
  true, false, ℕ, zero, suc, ◌≤◌, ◌<◌, ◌∷◌, Str, Option, none, some, Result, ok, err, ◌≡◌, refl, ap,
  ◌∙◌, codes, subst, arith, Bool-cases, inl, inr, if◌then◌else◌,
}
use regbot.Provider.{ProviderError}
use regbot.Http.{
  Request, Response, Answer, done, failed, endless, History, Web, ◌>>=◌, ◌>>◌, continue, attempted,
  attempt, give, fail, lift, Oracle, send, of_result, wrapped,
}
use regbot.Github.Requests.{
  Account, check, pause, tries, request, request_to, settles, is_final, last_error, response_of,
}

-- The history with the request sent so many times more.
abbrev pub repeat : ℕ → Request → History → History
repeat zero q h = h
repeat (suc n) q h = q ∷ repeat n q h

repeat-suc : (n : ℕ) (q : Request) (h : History) → repeat n q (q ∷ h) ≡ repeat (suc n) q h
repeat-suc zero q h = refl
repeat-suc (suc n) q h = ap (λ t. q ∷ t) (repeat-suc n q h)

module _ (oracle : Oracle) (q : Request) where
  -- The answer to each of so many requests is one that is asked for again.
  abbrev pub AllUnsettled : ℕ → History → Type 0
  AllUnsettled n h = (j : ℕ) → j < n → settles (oracle (repeat j q h) q) ≡ false

  -- What is returned is the first answer that settles the request.
  abbrev pub IsFirst : ℕ → History → Answer Response → Type 0
  IsFirst n h (done r) =
      (k : ℕ) × (n ≡ suc k)
      × (oracle (repeat k q h) q ≡ ok r)
      × (is_final r ≡ true)
      × AllUnsettled k h
  IsFirst n h (failed e) = AllUnsettled n h
  IsFirst n h endless = ⊥

  abbrev pub IsRetried : ℕ → History → Answer Response × History → Type 0
  IsRetried limit h r = (n : ℕ) × (n ≤ limit) × (r.1 ≡ repeat n q h) × IsFirst n h r.0

  -- What follows a first request that did not settle.
  onwards :
      (limit : ℕ) (h : History) (r : Answer Response × History)
      → settles (oracle h q) ≡ false
      → IsRetried limit (q ∷ h) r
      → IsRetried (suc limit) h r
  onwards limit h (a, h') unsettled (n, le, e, first) =
      (suc n, omega arith, e ∙ repeat-suc n q h, moved a first)
    where
      later : (k : ℕ) → AllUnsettled k (q ∷ h) → AllUnsettled (suc k) h
      later k all zero lt = unsettled
      later k all (suc j) lt =
          subst (λ t. settles (oracle t q) ≡ false) (repeat-suc j q h) (all j (omega arith))

      moved : (b : Answer Response) → IsFirst n (q ∷ h) b → IsFirst (suc n) h b
      moved (done r) (k, e1, e2, final, all) = (
        suc k,
        ap suc e1,
        subst (λ t. oracle t q ≡ ok r) (repeat-suc k q h) e2,
        final,
        later k all,
      )
      moved (failed x) all = later n all
      moved endless x = x

module _ (oracle : Oracle) (account : Account) (q : Request) where
  none_before : (h : History) → AllUnsettled oracle q 0 h
  none_before h j lt = absurd (omega arith)

  stopped : (limit : ℕ) (h : History) (e : ProviderError) → IsRetried oracle q limit h (failed e, h)
  stopped limit h e = (0, omega arith, refl, none_before h)

  -- A failing check ends the loop, another is as if it were not there.
  checked :
      (limit : ℕ) (o : Option ProviderError) (m : Web Response) (h : History)
      → IsRetried oracle q limit h (m h)
      → IsRetried oracle q limit h (continue (check o h) (λ u. m))
  unfolding check give fail
  checked limit none m h r = r
  checked limit (some e) m h r = stopped limit h e

  -- Behind the first answer, if what follows is as it should be.
  answered :
      (left attempt_number : ℕ) (h : History)
      (response_of : Result ProviderError Response → Option Response)
      → ((e : ProviderError)
          → IsRetried oracle q left
              (q ∷ h)
              (tries oracle account left (suc attempt_number) e q (q ∷ h)))
      → (r : Result ProviderError Response) → oracle h q ≡ r
      → IsRetried oracle q (suc left) h (
          continue (attempted (of_result q h r)) (λ answer.
            if settles answer
            then lift answer
            else (pause oracle account (response_of answer) attempt_number
                >> tries oracle account left (suc attempt_number) (last_error answer) q)))
  unfolding lift give fail ◌>>=◌ pause
  answered left attempt_number h response_of next (ok x) e = elim (Bool-cases (is_final x)) [
    | inl final ↦ rw final (1, omega arith, refl, (0, refl, e, final, none_before h))
    | inr other ↦
        rw other
          (onwards oracle q left h _ (ap settles e ∙ other) (checked left _ _ (q ∷ h) (next _)))
  ]
  answered left attempt_number h response_of next (err x) e =
      onwards oracle q left h _ (ap settles e) (checked left _ _ (q ∷ h) (next x))

  tries-IsRetried :
      (left attempt_number : ℕ) (last : ProviderError) (h : History)
      → IsRetried oracle q left h (tries oracle account left attempt_number last q h)
  unfolding tries ◌>>=◌ fail attempt send
  tries-IsRetried zero attempt_number last h =
      stopped 0 h (wrapped (codes "GitHub request retries exhausted") last)
  tries-IsRetried (suc left) attempt_number last h =
      checked (suc left) (account.malformed q.method q.url) _ h (
        answered left attempt_number h response_of
          (λ e. tries-IsRetried left (suc attempt_number) e (q ∷ h)) (oracle h q) refl)

-- `do` sends its request at most four times, as long as no answer settles it. A response that it returns
-- is the first that does.
pub request-IsRetried :
    (oracle : Oracle) (account : Account) (method path : Str) (h : History)
    → IsRetried oracle
        (request_to oracle account method path)
        4
        h
        (request oracle account method path h)
unfolding request
request-IsRetried oracle account method path h =
    tries-IsRetried oracle account (request_to oracle account method path) 4 0 _ h
