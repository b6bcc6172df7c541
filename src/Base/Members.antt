-- ===== src/Base/Members.antt =====
-- Boolean searches and membership.
use mathlib.Core.Path.{◌≡◌, refl, sym, ap, ◌∙◌}
use mathlib.Core.Logic.{◌≢◌, inl, inr}
use mathlib.Core.Bool.{Bool, true, false, ◌||◌}
use mathlib.Core.List.{List, [], ◌∷◌, ◌++◌}
use Prim.Native.Nat.{ℕ, suc, ◌≤◌}
use native.Mathlib.Omega.{arith}
use regbot.Base.Tests.{Bool-cases, if◌then◌else◌}
use regbot.Base.Lists.{any, In, here, there, is_empty, count, length}
use regbot.Base.Text.{Str, str_eq, str_mem, str_eq→eq, eq→str_eq, str_eq_comm, str_eq_refl}

module _ {ℓ} {A : Type ℓ} where
  pub is_empty→nil : (xs : List A) → is_empty xs ≡ true → xs ≡ []
  is_empty→nil [] h = refl
  is_empty→nil (x ∷ xs) h = cc

  pub is_empty-ne : (xs : List A) → is_empty xs ≡ false → xs ≢ []
  is_empty-ne xs h e = cc

  pub ne→is_empty : (xs : List A) → xs ≢ [] → is_empty xs ≡ false
  ne→is_empty [] h = absurd (h refl)
  ne→is_empty (x ∷ xs) h = refl

  pub not-In-nil : {a : A} → ¬ In a []
  not-In-nil m = elim m [ ]

  pub any-false→ : (p : A → Bool) (xs : List A) → any p xs ≡ false → (x : A) → In x xs → p x ≡ false
  any-false→ p [] h x m = elim m [ ]
  any-false→ p (y ∷ xs) h x (here e) = ground (arith, ap p e)
  any-false→ p (y ∷ xs) h x (there m) = any-false→ p xs (ground arith) x m

  pub any-false← :
      (p : A → Bool) (xs : List A) → ((x : A) → In x xs → p x ≡ false) → any p xs ≡ false
  any-false← p [] h = refl
  any-false← p (y ∷ xs) h = ground (arith, h y (here refl), any-false← p xs (λ x m. h x (there m)))

pub str_mem→In : (s : Str) (ts : List Str) → str_mem s ts ≡ true → In s ts
str_mem→In s [] h = cc
str_mem→In s (t ∷ ts) h = elim (Bool-cases (str_eq s t)) [
  | inl e ↦ here (str_eq→eq s t e)
  | inr e ↦ there (str_mem→In s ts (ground arith))
]

pub In→str_mem : (s : Str) (ts : List Str) → In s ts → str_mem s ts ≡ true
In→str_mem s [] m = elim m [ ]
In→str_mem s (t ∷ ts) (here e) = ground (arith, eq→str_eq s t e)
In→str_mem s (t ∷ ts) (there m) = ground (arith, In→str_mem s ts m)

pub not-In→str_mem : (s : Str) (ts : List Str) → ¬ In s ts → str_mem s ts ≡ false
not-In→str_mem s ts h = elim (Bool-cases (str_mem s ts)) [
  | inl e ↦ absurd (h (str_mem→In s ts e))
  | inr e ↦ e
]

-- How often a text occurs.
abbrev pub occurs : Str → List Str → ℕ
occurs k = count (str_eq k)

pub occurs-zero : (k : Str) (ks : List Str) → str_mem k ks ≡ false → occurs k ks ≡ 0
occurs-zero k [] h = refl
occurs-zero k (j ∷ ks) h = ground (arith, occurs-zero k ks)

pub occurs-pos : (k : Str) (ks : List Str) → str_mem k ks ≡ true → 1 ≤ occurs k ks
occurs-pos k [] h = cc
occurs-pos k (j ∷ ks) h = ground (arith, occurs-pos k ks)

pub str_mem-append :
    (k : Str) (xs ys : List Str) → str_mem k (xs ++ ys) ≡ (str_mem k xs || str_mem k ys)
str_mem-append k [] ys = refl
str_mem-append k (x ∷ xs) ys = ground (arith, str_mem-append k xs ys)

-- A text taken out of a list once.
erase : Str → List Str → List Str
erase x [] = []
erase x (w ∷ ws) = if str_eq w x then ws else w ∷ erase x ws

length-erase :
    (x : Str) (ws : List Str) → str_mem x ws ≡ true → suc (length (erase x ws)) ≡ length ws
unfolding erase
length-erase x [] h = cc
length-erase x (w ∷ ws) h = elim (Bool-cases (str_eq w x)) [
  | inl e ↦ rw e
  | inr e ↦ rw e (ap suc (length-erase x ws (ground (arith, str_eq_comm x w))))
]

str_mem-erase :
    (x j : Str) (ws : List Str) → str_eq j x ≡ false → str_mem j (erase x ws) ≡ str_mem j ws
unfolding erase
str_mem-erase x j [] h = refl
str_mem-erase x j (w ∷ ws) h = elim (Bool-cases (str_eq w x)) [
  | inl e ↦ rw e (ground (arith, ap (str_eq j) (str_eq→eq w x e)))
  | inr e ↦ rw e (ap (λ b. str_eq j w || b) (str_mem-erase x j ws h))
]

length-le_of_subset :
    (xs ws : List Str)
    → ((j : Str) → occurs j xs ≤ 1)
    → ((j : Str) → str_mem j xs ≡ true → str_mem j ws ≡ true)
    → length xs ≤ length ws
length-le_of_subset [] ws d h = omega arith
length-le_of_subset (x ∷ xs) ws d h =
    let has = h x (ground (arith, str_eq_refl x)) in
    let rest =
      length-le_of_subset xs (erase x ws) (λ j. omega (arith, d j))
        (λ j m. elim (Bool-cases (str_eq j x)) [
          | inl e ↦ absurd (ground (arith, d j, occurs-pos j xs m))
          | inr e ↦ rw (str_mem-erase x j ws e) (h j (ground arith))
        ]) in
    omega (arith, rest, length-erase x ws has)

-- Lists without repetition that hold the same texts are equally long.
pub length-eq_of_same :
    (xs ws : List Str)
    → ((j : Str) → occurs j xs ≤ 1)
    → ((j : Str) → occurs j ws ≤ 1)
    → ((j : Str) → str_mem j xs ≡ str_mem j ws)
    → length xs ≡ length ws
length-eq_of_same xs ws dx dw same = omega (
  arith,
  length-le_of_subset xs ws dx (λ j m. sym (same j) ∙ m),
  length-le_of_subset ws xs dw (λ j m. same j ∙ m),
)
