-- ===== src/Base/Sort.antt =====
-- Go's `sort.SliceStable` and `sort.Slice`: an element moves left past those that it is `less` than.
-- That is their algorithm up to 20 and 12 elements; beyond, they give the same result wherever
-- `less` is a strict weak order (and, for `sort.Slice`, no two elements are equivalent).
use Prim.Native.Nat.{◌+◌}
use mathlib.Core.Path.{◌≡◌, refl, subst}
use mathlib.Core.Bool.{Bool, true}
use mathlib.Core.List.{List, [], ◌∷◌, ◌++◌, reverse, reverse-append}
use native.Mathlib.Omega.{arith}
use regbot.Base.Tests.{if◌then◌else◌, Bool-cases}
use regbot.Base.Lists.{length, count, count-append, In, here, there}
use mathlib.Core.Logic.{◌⊎◌, inl, inr}

module _ {ℓ} {A : Type ℓ} (less : A → A → Bool) where
  -- Into a sorted prefix, its last element first.
  unfoldable pub insert : A → List A → List A
  insert x [] = x ∷ []
  insert x (y ∷ ys) = if less x y then y ∷ insert x ys else x ∷ y ∷ ys

  unfoldable pub sort_onto : List A → List A → List A
  sort_onto sorted [] = sorted
  sort_onto sorted (x ∷ xs) = sort_onto (insert x sorted) xs

  unfoldable pub slice_stable : List A → List A
  unfolding sort_onto insert
  slice_stable xs = reverse (sort_onto [] xs)

  count-insert : (p : A → Bool) (x : A) (ys : List A) → count p (insert x ys) ≡ count p (x ∷ ys)
  unfolding insert
  count-insert p x [] = refl
  count-insert p x (y ∷ ys) = elim (Bool-cases (less x y)) [
    | inl e ↦ rw e (omega (arith, count-insert p x ys))
    | inr e ↦ rw e refl
  ]

  count-sort_onto :
      (p : A → Bool) (sorted xs : List A)
      → count p (sort_onto sorted xs) ≡ count p sorted + count p xs
  unfolding sort_onto
  count-sort_onto p sorted [] = omega arith
  count-sort_onto p sorted (x ∷ xs) =
      omega (arith, count-sort_onto p (insert x sorted) xs, count-insert p x sorted)

module _ {ℓ} {A : Type ℓ} where
  pub count-reverse : (p : A → Bool) (xs : List A) → count p (reverse xs) ≡ count p xs
  count-reverse p [] = refl
  count-reverse p (x ∷ xs) =
      rw (reverse-append (x ∷ []) xs)
        (omega (arith, count-append p (reverse xs) (reverse (x ∷ [])), count-reverse p xs, one))
    where
      one : count p (reverse (x ∷ [])) ≡ count p (x ∷ [])
      one = refl

module _ {ℓ} {A : Type ℓ} where
  In-append : {z : A} (xs : List A) {ys : List A} → In z (xs ++ ys) → In z xs ⊎ In z ys
  In-append [] m = inr m
  In-append (x ∷ xs) (here e) = inl (here e)
  In-append (x ∷ xs) (there m) = elim (In-append xs m) [ inl n ↦ inl (there n) | inr n ↦ inr n ]

  In-reverse : {z : A} (xs : List A) → In z (reverse xs) → In z xs
  In-reverse [] m = m
  In-reverse {z} (x ∷ xs) m =
      elim (In-append (reverse xs) (subst (In z) (reverse-append (x ∷ []) xs) m)) [
        | inl n ↦ there (In-reverse xs n)
        | inr n ↦ first n
      ]
    where
      first : In z (x ∷ []) → In z (x ∷ xs)
      first (here e) = here e
      first (there n) = elim n [ ]

module _ {ℓ} {A : Type ℓ} (less : A → A → Bool) where
  -- Sorting keeps the elements, each as often.
  pub count-slice_stable :
      (p : A → Bool) (xs : List A) → count p (slice_stable less xs) ≡ count p xs
  unfolding slice_stable
  count-slice_stable p xs =
      omega (arith, count-reverse p (sort_onto less [] xs), count-sort_onto less p [] xs)

  In-insert : {z : A} (x : A) (ys : List A) → In z (insert less x ys) → In z (x ∷ ys)
  unfolding insert
  In-insert x [] m = m
  In-insert {z} x (y ∷ ys) m = elim (Bool-cases (less x y)) [
    | inl e ↦ behind (In-insert x ys) (subst (In z) (rw e) m)
    | inr e ↦ subst (In z) (rw e) m
  ]
    where
      behind :
          (In z (insert less x ys) → In z (x ∷ ys))
          → In z (y ∷ insert less x ys)
          → In z (x ∷ y ∷ ys)
      behind rest (here e) = there (here e)
      behind rest (there n) = around (rest n)
        where
          around : In z (x ∷ ys) → In z (x ∷ y ∷ ys)
          around (here e) = here e
          around (there o) = there (there o)

  In-sort_onto :
      {z : A} (sorted xs : List A) → In z (sort_onto less sorted xs) → In z sorted ⊎ In z xs
  unfolding sort_onto
  In-sort_onto sorted [] m = inl m
  In-sort_onto {z} sorted (x ∷ xs) m = elim (In-sort_onto (insert less x sorted) xs m) [
    | inl n ↦ placed (In-insert x sorted n)
    | inr n ↦ inr (there n)
  ]
    where
      placed : In z (x ∷ sorted) → In z sorted ⊎ In z (x ∷ xs)
      placed (here e) = inr (here e)
      placed (there o) = inl o

  -- A member of the sorted list is one of the list.
  pub In-slice_stable : {z : A} (xs : List A) → In z (slice_stable less xs) → In z xs
  unfolding slice_stable
  In-slice_stable {z} xs m = elim (In-sort_onto [] xs (In-reverse (sort_onto less [] xs) m)) [
    | inl n ↦ elim n [ ]
    | inr n ↦ n
  ]

  count-true : (xs : List A) → count (λ x. true) xs ≡ length xs
  count-true [] = refl
  count-true (x ∷ xs) = omega (arith, count-true xs)

  pub length-slice_stable : (xs : List A) → length (slice_stable less xs) ≡ length xs
  length-slice_stable xs =
      omega
        (arith, count-true xs, count-true (slice_stable less xs), count-slice_stable (λ x. true) xs)
