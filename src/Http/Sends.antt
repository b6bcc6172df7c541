-- ===== src/Http/Sends.antt =====
-- Which requests a computation sends: rules for each way to put computations together.
use regbot.Base.{
  Bool, true, false, List, [], ◌∷◌, ◌++◌, Result, ok, err, ◌≡◌, refl, ap, sym, ◌∙◌, All, All-append,
  append_assoc, if◌then◌else◌, In, here, there, subst, append-nil,
}
use regbot.Provider.{ProviderError}
use regbot.Http.{
  Request, Response, Answer, done, failed, endless, History, Web, continue, ◌>>=◌, ◌>>◌, give, fail,
  lift, refuse_when, Oracle, send, of_result,
}

module _ (P : Request → Type 0) where
  -- A history that goes on by requests with the property.
  abbrev pub Extends : History → History → Type 0
  Extends h h' = (new : List Request) × (h' ≡ new ++ h) × All P new

  -- From every history on, the computation sends requests with the property only.
  pub record Sends {ℓ} {A : Type ℓ} (m : Web A) : Type 0 where
    pub from : (h : History) → Extends h (m h).1

  pub Extends-refl : (h : History) → Extends h h
  Extends-refl h = ([], refl, tt)

  pub Extends-trans : (h h' h2 : History) → Extends h h' → Extends h' h2 → Extends h h2
  Extends-trans h h' h2 (new, e, all) (new2, e2, all2) = (
    new2 ++ new,
    e2 ∙ (ap (λ t. new2 ++ t) e ∙ sym (append_assoc new2 new h)),
    All-append P new2 new all2 all,
  )

  pub Extends-continue {ℓ κ} :
      {A : Type ℓ} {B : Type κ} (h : History) (r : Answer A × History) (f : A → Web B)
      → Extends h r.1
      → ((a : A) → Sends (f a))
      → Extends h (continue r f).1
  Extends-continue h (done a, h1) f x y = Extends-trans h h1 (f a h1).1 x ((y a).from h1)
  Extends-continue h (failed e, h1) f x y = x
  Extends-continue h (endless, h1) f x y = x

  pub >>=-Sends {ℓ κ} :
      {A : Type ℓ} {B : Type κ} {m : Web A} {f : A → Web B}
      → Sends m
      → ((a : A) → Sends (f a))
      → Sends (m >>= f)
  unfolding ◌>>=◌
  >>=-Sends {m = m} {f = f} x y = record { from = λ h. Extends-continue h (m h) f (x.from h) y }

  pub give-Sends {ℓ} : {A : Type ℓ} (a : A) → Sends (give a)
  unfolding give
  give-Sends a = record { from = Extends-refl }

  pub fail-Sends {ℓ} : {A : Type ℓ} (e : ProviderError) → Sends (fail {A = A} e)
  unfolding fail
  fail-Sends e = record { from = Extends-refl }

  pub lift-Sends {ℓ} : {A : Type ℓ} (r : Result ProviderError A) → Sends (lift r)
  unfolding lift
  lift-Sends (ok a) = record { from = Extends-refl }
  lift-Sends (err e) = record { from = Extends-refl }

  pub refuse_when-Sends : (b : Bool) (e : ProviderError) → Sends (refuse_when b e)
  unfolding refuse_when
  refuse_when-Sends true e = record { from = Extends-refl }
  refuse_when-Sends false e = record { from = Extends-refl }

  of_result-Extends :
      (q : Request) (h : History) (r : Result ProviderError Response)
      → P q
      → Extends h (of_result q h r).1
  of_result-Extends q h (ok r) p = (q ∷ [], refl, (p, tt))
  of_result-Extends q h (err e) p = (q ∷ [], refl, (p, tt))

  pub send-Sends : (oracle : Oracle) (q : Request) → P q → Sends (send oracle q)
  unfolding send
  send-Sends oracle q p = record { from = λ h. of_result-Extends q h (oracle h q) p }

  pub if-Sends {ℓ} :
      {A : Type ℓ} (b : Bool) {m n : Web A} → Sends m → Sends n → Sends (if b then m else n)
  if-Sends true x y = x
  if-Sends false x y = y

  -- What stands behind a check may rely on it.
  pub guard-Sends {ℓ} :
      {A : Type ℓ} (bad : Bool) (e : ProviderError) {n : Web A}
      → (bad ≡ false → Sends n)
      → Sends (refuse_when bad e >> n)
  unfolding ◌>>=◌ refuse_when fail
  guard-Sends true e f = record { from = Extends-refl }
  guard-Sends false e f = >>=-Sends (refuse_when-Sends false e) (λ u. f refl)

-- A stronger property.
pub All-mono :
    (P Q : Request → Type 0)
    → ((q : Request) → P q → Q q)
    → (qs : List Request) → All P qs
    → All Q qs
All-mono P Q f [] h = tt
All-mono P Q f (q ∷ qs) (p, h) = (f q p, All-mono P Q f qs h)

pub Extends-mono :
    (P Q : Request → Type 0)
    → ((q : Request) → P q → Q q)
    → (h h' : History) → Extends P h h'
    → Extends Q h h'
Extends-mono P Q f h h' (new, e, all) = (new, e, All-mono P Q f new all)

All-In : (P : Request → Type 0) (qs : List Request) → All P qs → (q : Request) → In q qs → P q
All-In P [] h q m = elim m [ ]
All-In P (r ∷ qs) (p, h) q (here e) = subst P (sym e) p
All-In P (r ∷ qs) (p, h) q (there m) = All-In P qs h q m

-- Of a computation that starts without any, all requests have the property.
pub Extends-In :
    (P : Request → Type 0) (h' : History) → Extends P [] h' → (q : Request) → In q h' → P q
Extends-In P h' (new, e, all) q m =
    All-In P new all q (subst (λ qs. In q qs) (e ∙ append-nil new) m)
