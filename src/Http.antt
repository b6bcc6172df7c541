-- ===== src/Http.antt =====
-- HTTP as the providers of internal/provider use it: a computation sends requests and reads what comes
-- back, and carries the requests that were sent, the last one first. What a request is answered is a
-- parameter that may depend on all requests before it.
pub mod Sends
pub mod Paging
use regbot.Base.{
  Bool, true, false, ℕ, zero, suc, ◌*◌, ◌^◌, List, [], ◌∷◌, ◌++◌, Str, Result, ok, err, Option,
  none, some, codes, is_empty, ◌==◌, if◌then◌else◌, ℤ, take, trim_space, ◌≡◌, refl,
}
use regbot.Provider.{ProviderError}

pub data Authorization : Type 0 where
  anonymous : Authorization
  basic : Str → Str → Authorization
  bearer : Str → Authorization

pub record Request : Type 0 where
  pub method : Str
  pub url : Str
  pub accept : Str
  pub authorization : Authorization

pub record Response : Type 0 where
  pub status : ℕ
  pub status_line : Str
  pub header : Str → Str
  pub body : Str
  pub content_length : ℤ

-- How a computation ends. `endless` stands for a loop that has used up its rounds in the model.
pub data Answer {ℓ} (A : Type ℓ) : Type ℓ where
  done : A → Answer A
  failed : ProviderError → Answer A
  endless : Answer A

abbrev pub History : Type 0
History = List Request

abbrev pub Web {ℓ} : Type ℓ → Type ℓ
Web A = History → Answer A × History

abbrev pub continue {ℓ κ} :
    {A : Type ℓ} {B : Type κ} → Answer A × History → (A → Web B) → Answer B × History
continue (done a, h) f = f a h
continue (failed e, h) f = (failed e, h)
continue (endless, h) f = (endless, h)

infixl 5 ◌>>=◌
unfoldable pub ◌>>=◌ {ℓ κ} : {A : Type ℓ} {B : Type κ} → Web A → (A → Web B) → Web B
◌>>=◌ m f h = continue (m h) f

infixl 5 ◌>>◌
abbrev pub ◌>>◌ {κ} : {B : Type κ} → Web (Unit {0}) → Web B → Web B
m >> k = m >>= λ u. k

unfoldable pub give {ℓ} : {A : Type ℓ} → A → Web A
give a h = (done a, h)

unfoldable pub fail {ℓ} : {A : Type ℓ} → ProviderError → Web A
fail e h = (failed e, h)

unfoldable pub lift {ℓ} : {A : Type ℓ} → Result ProviderError A → Web A
unfolding give fail
lift (ok a) = give a
lift (err e) = fail e

-- `if bad { return err }`
unfoldable pub refuse_when : Bool → ProviderError → Web (Unit {0})
unfolding give fail
refuse_when true e = fail e
refuse_when false e = give tt

-- `fmt.Errorf`, with no sentinel in it.
abbrev pub plain : Str → ProviderError
plain text = record { text = text; is_not_found = false; is_precondition = false }

-- `fmt.Errorf("…: %w", err)`
abbrev pub wrapped : Str → ProviderError → ProviderError
wrapped prefix e = record e { text = prefix ++ (codes ": " ++ e.text) }

abbrev relabel_answer {ℓ} : {A : Type ℓ} → Str → Answer A → Answer A
relabel_answer prefix (done a) = done a
relabel_answer prefix (failed e) = failed (wrapped prefix e)
relabel_answer prefix endless = endless

-- `if err != nil { return fmt.Errorf("…: %w", err) }`
unfoldable pub relabel {ℓ} : {A : Type ℓ} → Str → Web A → Web A
relabel prefix m h = let (a, h') = m h in (relabel_answer prefix a, h')

-- The value, or the error as a value: a call whose error the caller looks at.
abbrev pub attempted {ℓ} :
    {A : Type ℓ} → Answer A × History → Answer (Result ProviderError A) × History
attempted (done a, h) = (done (ok a), h)
attempted (failed e, h) = (done (err e), h)
attempted (endless, h) = (endless, h)

unfoldable pub attempt {ℓ} : {A : Type ℓ} → Web A → Web (Result ProviderError A)
attempt m h = attempted (m h)

abbrev pub of_result : Request → History → Result ProviderError Response → Answer Response × History
of_result q h (ok r) = (done r, q ∷ h)
of_result q h (err e) = (failed e, q ∷ h)

-- `http.Client.Do`
abbrev pub Oracle : Type 0
Oracle = History → Request → Result ProviderError Response

unfoldable pub send : Oracle → Request → Web Response
send oracle q h = of_result q h (oracle h q)

-- `responseError`, with the words of the provider.
abbrev pub response_error : Str → Response → ProviderError
response_error words r =
    plain (words ++ (r.status_line ++ (codes ": " ++ trim_space (take (64 * 2 ^ 10) r.body))))

abbrev pub not_found : ProviderError
not_found = record {
  text = codes "artifact not found";
  is_not_found = true;
  is_precondition = false;
}

abbrev pub precondition : ProviderError
precondition = record {
  text = codes "artifact precondition failed";
  is_not_found = false;
  is_precondition = true;
}

continue-eq-done {ℓ κ} :
    {A : Type ℓ} {B : Type κ} (r : Answer A × History) (f : A → Web B) {b : B} {h' : History}
    → continue r f ≡ (done b, h')
    → (a : A) × (h1 : History) × (r ≡ (done a, h1)) × (f a h1 ≡ (done b, h'))
continue-eq-done (done a, h) f e = (a, h, refl, e)
continue-eq-done (failed x, h) f e = cc
continue-eq-done (endless, h) f e = cc

-- A chain that returns is one whose parts do.
pub >>=-eq-done {ℓ κ} :
    {A : Type ℓ} {B : Type κ} (m : Web A) (f : A → Web B) (h : History) {b : B} {h' : History}
    → (m >>= f) h ≡ (done b, h')
    → (a : A) × (h1 : History) × (m h ≡ (done a, h1)) × (f a h1 ≡ (done b, h'))
unfolding ◌>>=◌
>>=-eq-done m f h e = continue-eq-done (m h) f e
