-- ===== src/Github/Tags.antt =====
-- `sameTags` of internal/provider/github/github.go.
use regbot.Base.{
  Bool, true, false, not, suc, ◌+◌, ◌-◌, ◌≤◌, List, [], ◌∷◌, Str, str_eq, str_eq_iff, str_eq_refl,
  length, ◌==◌, if◌then◌else◌, occurs, ◌≡◌, refl, ◌↔◌, arith, Bool-cases, inl, inr, ap,
}
use regbot.Engine.Safety.{Counts, count_of, increment}
use regbot.Engine.State.Counting.{count_of-increment}

abbrev pub count_tags : List Str → Counts → Counts
count_tags [] counts = counts
count_tags (tag ∷ tags) counts = count_tags tags (increment tag counts)

-- `counts[tag]--`, at a count that is not 0.
abbrev pub decrement : Str → Counts → Counts
decrement tag [] = []
decrement tag ((k, n) ∷ counts) =
    if str_eq k tag then (k, n - 1) ∷ counts else (k, n) ∷ decrement tag counts

-- The second loop: a count that is 0 would fall below it.
abbrev pub take_tags : List Str → Counts → Bool
take_tags [] counts = true
take_tags (tag ∷ tags) counts =
    let rest = take_tags tags (decrement tag counts) in
    if count_of tag counts == 0 then false else rest

unfoldable pub same_tags : List Str → List Str → Bool
same_tags a b = if not (length a == length b) then false else take_tags b (count_tags a [])

count_of-count_tags :
    (t : Str) (tags : List Str) (counts : Counts)
    → count_of t (count_tags tags counts) ≡ occurs t tags + count_of t counts
count_of-count_tags t [] counts = omega arith
count_of-count_tags t (tag ∷ tags) counts = ground (
  arith,
  count_of-count_tags t tags (increment tag counts),
  count_of-increment t tag counts,
  str_eq_iff t tag,
  str_eq_iff tag t,
)

count_of-decrement :
    (t tag : Str) (counts : Counts)
    → count_of t (decrement tag counts) ≡ count_of t counts - (if str_eq t tag then 1 else 0)
count_of-decrement t tag [] = ground arith
count_of-decrement t tag ((k, n) ∷ counts) = elim (Bool-cases (str_eq k tag)) [
  | inl e ↦ rw e (ground (arith, str_eq_iff t tag, str_eq_iff k tag, str_eq_iff k t))
  | inr e ↦ rw e (
      ground (
        arith,
        count_of-decrement t tag counts,
        str_eq_iff t tag,
        str_eq_iff k tag,
        str_eq_iff k t,
      ))
]

-- The second loop asks whether the counts suffice.
take_tags→occurs :
    (tags : List Str) (counts : Counts)
    → take_tags tags counts ≡ true
    → (t : Str) → occurs t tags ≤ count_of t counts
take_tags→occurs [] counts e t = omega arith
take_tags→occurs (tag ∷ tags) counts e t = elim (Bool-cases (count_of tag counts == 0)) [
  | inl z ↦ absurd (ground arith)
  | inr nz ↦ ground (
    arith,
    take_tags→occurs tags (decrement tag counts) (rw nz at e) t,
    count_of-decrement t tag counts,
    str_eq_iff t tag,
    ap (λ s. count_of s counts),
  )
]

occurs→take_tags :
    (tags : List Str) (counts : Counts)
    → ((t : Str) → occurs t tags ≤ count_of t counts)
    → take_tags tags counts ≡ true
occurs→take_tags [] counts h = refl
occurs→take_tags (tag ∷ tags) counts h = ground (
  arith,
  h tag,
  str_eq_refl tag,
  occurs→take_tags tags (decrement tag counts) (λ t.
      ground
        (arith, h t, h tag, str_eq_refl tag, count_of-decrement t tag counts, str_eq_iff t tag)),
)

-- The tags without the first place of one.
without : Str → List Str → List Str
without t [] = []
without t (x ∷ xs) = if str_eq t x then xs else x ∷ without t xs

length-without :
    (t : Str) (xs : List Str) → 1 ≤ occurs t xs → length xs ≡ suc (length (without t xs))
unfolding without
length-without t [] le = absurd (omega arith)
length-without t (x ∷ xs) le = elim (Bool-cases (str_eq t x)) [
  | inl e ↦ rw e (omega arith)
  | inr e ↦ rw e (ground (arith, length-without t xs))
]

occurs-without :
    (s t : Str) (xs : List Str)
    → 1 ≤ occurs t xs
    → occurs s xs ≡ occurs s (without t xs) + (if str_eq s t then 1 else 0)
unfolding without
occurs-without s t [] le = absurd (omega arith)
occurs-without s t (x ∷ xs) le = elim (Bool-cases (str_eq t x)) [
  | inl e ↦ rw e (ground (arith, str_eq_iff t x, str_eq_iff s t, str_eq_iff s x))
  | inr e ↦ rw e (ground (arith, occurs-without s t xs))
]

-- Lists of one length, of which one has no tag more often than the other, have all tags equally often.
fill :
    (a b : List Str)
    → length a ≡ length b
    → ((t : Str) → occurs t b ≤ occurs t a)
    → (t : Str) → occurs t a ≡ occurs t b
fill [] [] e h t = refl
fill (x ∷ a) [] e h t = absurd (omega arith)
fill a (x ∷ b) e h t =
    ground (arith, occurs-without t x a held, fill (without x a) b shorter fewer t)
  where
    held : 1 ≤ occurs x a
    held = ground (arith, h x, str_eq_refl x)

    shorter : length (without x a) ≡ length b
    shorter = omega (arith, length-without x a held, e)

    fewer : (s : Str) → occurs s b ≤ occurs s (without x a)
    fewer s = ground (arith, h s, occurs-without s x a held)

length-occurs : (a b : List Str) → ((t : Str) → occurs t a ≡ occurs t b) → length a ≡ length b
length-occurs [] [] h = refl
length-occurs [] (x ∷ b) h = absurd (ground (arith, h x, str_eq_refl x))
length-occurs (x ∷ a) b h =
    omega (arith, length-without x b held, length-occurs a (without x b) fewer)
  where
    held : 1 ≤ occurs x b
    held = ground (arith, h x, str_eq_refl x)

    fewer : (s : Str) → occurs s a ≡ occurs s (without x b)
    fewer s = ground (arith, h s, occurs-without s x b held)

-- `sameTags` holds of two lists of tags exactly if each tag stands in both equally often.
pub same_tags-occurs :
    (a b : List Str) → (same_tags a b ≡ true) ↔ ((t : Str) → occurs t a ≡ occurs t b)
unfolding same_tags
same_tags-occurs a b = (same→, same←)
  where
    counted : (t : Str) → count_of t (count_tags a []) ≡ occurs t a
    counted t = omega (arith, count_of-count_tags t a [])

    same→ : same_tags a b ≡ true → (t : Str) → occurs t a ≡ occurs t b
    same→ e = elim (Bool-cases (length a == length b)) [
      | inl l ↦
          fill a b (ground arith)
            (λ t. omega (arith, counted t, take_tags→occurs b (count_tags a []) (rw l at e) t))
      | inr l ↦ absurd (ground arith)
    ]

    same← : ((t : Str) → occurs t a ≡ occurs t b) → same_tags a b ≡ true
    same← h = ground (
      arith,
      length-occurs a b h,
      occurs→take_tags b (count_tags a []) (λ t. omega (arith, counted t, h t)),
    )
