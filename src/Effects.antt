-- ===== src/Effects.antt =====
-- Programs that act on the world: a program carries the events so far, the last one first, and what the
-- world answers may depend on all of them.
use regbot.Base.{List, ◌∷◌}

abbrev pub Act {ℓ} : Type 0 → Type ℓ → Type ℓ
Act E A = List E → A × List E

infixl 5 ◌>>=◌
abbrev pub ◌>>=◌ {ℓ κ} : {E : Type 0} {A : Type ℓ} {B : Type κ} → Act E A → (A → Act E B) → Act E B
◌>>=◌ m f h = let (a, h') = m h in f a h'

infixl 5 ◌>>◌
abbrev pub ◌>>◌ {κ} : {E : Type 0} {B : Type κ} → Act E (Unit {0}) → Act E B → Act E B
m >> k = m >>= λ u. k

abbrev pub give {ℓ} : {E : Type 0} {A : Type ℓ} → A → Act E A
give a h = (a, h)

abbrev pub emit : {E : Type 0} → E → Act E (Unit {0})
emit e h = (tt, e ∷ h)

-- What the world answers, without an event.
abbrev pub ask {ℓ} : {E : Type 0} {A : Type ℓ} → (List E → A) → Act E A
ask f h = (f h, h)
