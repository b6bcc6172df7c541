-- ===== src/Base/Ascending.antt =====
-- The order of what Go's `sort.SliceStable` returns, for an order where of two elements not both are
-- before the other; and lists of texts that ascend.
use Prim.Native.Nat.{◌≤◌}
use mathlib.Core.Path.{◌≡◌, refl, subst, sym}
use mathlib.Core.Bool.{Bool, true, false}
use mathlib.Core.List.{List, [], ◌∷◌, ◌++◌, map, reverse, reverse-append, append_assoc}
use native.Mathlib.Omega.{arith}
use regbot.Base.Tests.{Bool-cases}
use mathlib.Core.Logic.{inl, inr}
use regbot.Base.Text.{Str, str_lt, str_lt_total, eq→str_eq, str_eq_refl}
use regbot.Base.Members.{occurs}
use regbot.Base.Sort.{slice_stable, insert, sort_onto}

module _ {ℓ} {A : Type ℓ} (less : A → A → Bool) where
  -- No element is `less` than its left neighbour.
  abbrev pub Ascends : List A → Type 0
  Ascends [] = Unit
  Ascends (x ∷ []) = Unit
  Ascends (x ∷ y ∷ ys) = (less y x ≡ false) × Ascends (y ∷ ys)

  -- No element is `less` than its right neighbour.
  abbrev Descends : List A → Type 0
  Descends [] = Unit
  Descends (x ∷ []) = Unit
  Descends (x ∷ y ∷ ys) = (less x y ≡ false) × Descends (y ∷ ys)

  abbrev IsAsymmetric : Type ℓ
  IsAsymmetric = (x y : A) → less x y ≡ true → less y x ≡ false

  insert-Descends : IsAsymmetric → (x : A) (ys : List A) → Descends ys → Descends (insert less x ys)
  unfolding insert
  insert-Descends asym x [] h = tt
  insert-Descends asym x (y ∷ []) h = elim (Bool-cases (less x y)) [
    | inl e ↦ rw e (asym x y e, tt)
    | inr e ↦ rw e (e, tt)
  ]
  insert-Descends asym x (y ∷ z ∷ zs) h = elim (Bool-cases (less x y)) [
    | inl e ↦ elim (Bool-cases (less x z)) [
      | inl e' ↦ below e e' (insert-Descends asym x (z ∷ zs) h.1)
      | inr e' ↦ above e e' (insert-Descends asym x (z ∷ zs) h.1)
    ]
    | inr e ↦ rw e (e, h)
  ]
    where
      below :
          less x y ≡ true
          → less x z ≡ true
          → Descends (insert less x (z ∷ zs))
          → Descends (insert less x (y ∷ z ∷ zs))
      below e e' rest = rw (e, e') (h.0, rw e' at rest)

      above :
          less x y ≡ true
          → less x z ≡ false
          → Descends (insert less x (z ∷ zs))
          → Descends (insert less x (y ∷ z ∷ zs))
      above e e' rest = rw (e, e') (asym x y e, rw e' at rest)

  sort_onto-Descends :
      IsAsymmetric → (xs sorted : List A) → Descends sorted → Descends (sort_onto less sorted xs)
  unfolding sort_onto
  sort_onto-Descends asym [] sorted h = h
  sort_onto-Descends asym (x ∷ xs) sorted h =
      sort_onto-Descends asym xs (insert less x sorted) (insert-Descends asym x sorted h)

  reverse-Ascends :
      (xs : List A) (x : A) (behind : List A)
      → Descends (x ∷ xs)
      → Ascends (x ∷ behind)
      → Ascends (reverse xs ++ (x ∷ behind))
  reverse-Ascends [] x behind d a = a
  reverse-Ascends (y ∷ ys) x behind d a =
      subst Ascends
        (rw (reverse-append (y ∷ []) ys, append_assoc (reverse ys) (y ∷ []) (x ∷ behind)) refl)
        (reverse-Ascends ys y (x ∷ behind) d.1 (d.0, a))

  -- What sorting returns ascends.
  pub slice_stable-Ascends : IsAsymmetric → (xs : List A) → Ascends (slice_stable less xs)
  unfolding slice_stable
  slice_stable-Ascends asym xs = backward (sort_onto less [] xs) (sort_onto-Descends asym xs [] tt)
    where
      backward : (ys : List A) → Descends ys → Ascends (reverse ys)
      backward [] d = tt
      backward (y ∷ ys) d =
          subst Ascends (sym (reverse-append (y ∷ []) ys)) (reverse-Ascends ys y [] d tt)

-- Each text is before its right neighbour.
abbrev pub StrictlyAscends : List Str → Type 0
StrictlyAscends [] = Unit
StrictlyAscends (s ∷ []) = Unit
StrictlyAscends (s ∷ t ∷ ts) = (str_lt s t ≡ true) × StrictlyAscends (t ∷ ts)

-- Sorted by texts of which each stands once, a list ascends strictly.
pub strictly :
    {A : Type 0} (key : A → Str) (xs : List A)
    → Ascends (λ x y. str_lt (key x) (key y)) xs
    → ((k : Str) → occurs k (map key xs) ≤ 1)
    → StrictlyAscends (map key xs)
strictly key [] h once = tt
strictly key (x ∷ []) h once = tt
strictly key (x ∷ y ∷ ys) h once = (
  ground (
    arith,
    h.0,
    str_lt_total (key x) (key y),
    eq→str_eq (key y) (key x),
    once (key y),
    str_eq_refl (key y),
  ),
  strictly key (y ∷ ys) h.1 (λ k. ground (arith, once k)),
)
