-- ===== src/Engine/Safety/Kept.antt =====
-- What a limit that `safetyLimit.validate` of internal/engine/engine.go lets pass says.
use regbot.Base.{
  true, false, ℕ, ◌*◌, ◌≤◌, ◌<◌, List, [], ◌∷◌, Str, str_eq, str_mem, none, ◌≡◌, refl, Float64,
  IsRounded, max_exact, quotient, subst, arith, ◌⊎◌, inl, inr, Bool-cases, ltb, ℤ, pos, ◌≤ℤ◌,
  str_eq→eq, str_eq_comm, occurs-zero, occurs-pos,
}
use regbot.Config.Validate.{names}
use regbot.Policy.Evaluate.{VisitsAll}
use regbot.Engine.Safety.{
  Counts, count_of, SafetyLimit, percent, repositories_within, validate_limit,
}
use regbot.Engine.Safety.Share.{IsShareBelow, percent-IsShareBelow}

-- So many deletions of so many artifacts are no more than `max_count`, and less than n hundredths of a
-- percent and a half of one, where the total is small enough for a float64 to count it.
pub record IsWithin (max_count : ℤ) (n deletes total : ℕ) : Type 0 where
  pub within_count : pos deletes ≤ℤ max_count
  pub within_share : (max_exact < 10000 * total) ⊎ IsShareBelow n deletes total

count_of-str_mem : (r : Str) (cs : Counts) → 1 ≤ count_of r cs → str_mem r (names cs) ≡ true
count_of-str_mem r [] h = absurd (omega arith)
count_of-str_mem r ((k, n) ∷ cs) h = elim (Bool-cases (str_eq k r)) [
  | inl e ↦ ground (arith, str_eq_comm k r)
  | inr e ↦ ground (arith, count_of-str_mem r cs (subst (λ m. 1 ≤ m) (rw e refl) h))
]

visited :
    (visit_order : List Str → List Str) (visits : VisitsAll visit_order) (r : Str) (ks : List Str)
    → str_mem r ks ≡ true
    → str_mem r (visit_order ks) ≡ true
visited visit_order visits r ks h = elim (Bool-cases (str_mem r (visit_order ks))) [
  | inl e ↦ e
  | inr e ↦ absurd (omega (arith, occurs-zero r (visit_order ks) e, occurs-pos r ks h, visits ks r))
]

module _ {F : Type 0} (f : Float64 F) (visit_order : List Str → List Str) where
  -- Neither test of a limit refuses these numbers.
  record Passes (max_count : ℤ) (max_percent : F) (deletes total : ℕ) : Type 0 where
    pub below : pos deletes ≤ℤ max_count
    pub passed : f.lt max_percent (percent f deletes total) ≡ false

  repositories_within-none :
      (s : SafetyLimit F) (rs : List Str)
      → repositories_within f visit_order s rs ≡ none
      → (r : Str) → str_mem r rs ≡ true
      → Passes s.max_count s.max_percent
          (count_of r s.repository_deletes)
          (count_of r s.repository_totals)
  unfolding repositories_within
  repositories_within-none s [] h r m = cc
  repositories_within-none s (k ∷ rs) h r m = elim (Bool-cases (str_eq k r)) [
    | inl e ↦
        subst
          (λ k'.
            Passes s.max_count s.max_percent (count_of k' s.repository_deletes)
              (count_of k' s.repository_totals))
          (str_eq→eq k r e) (record { below = ground arith; passed = ground arith })
    | inr e ↦ repositories_within-none s rs (ground arith) r (ground (arith, str_eq_comm k r))
  ]

  module _ (laws : IsRounded f) (n : ℕ) (small : n ≤ 10000) where
    Passes-IsWithin :
        (max_count : ℤ) (max_percent : F) (deletes total : ℕ)
        → f.le max_percent (quotient f n 100) ≡ true
        → 1 ≤ total
        → deletes ≤ total
        → Passes max_count max_percent deletes total
        → IsWithin max_count n deletes total
    Passes-IsWithin max_count max_percent deletes total limit some_total le h = record {
      within_count = h.below;
      within_share = elim (Bool-cases (ltb max_exact (10000 * total))) [
        | inl large ↦ inl (ground arith)
        | inr exact ↦ inr (
            percent-IsShareBelow f laws max_percent n deletes total small limit some_total le
              (ground arith) h.passed)
      ];
    }

    pub validate_limit-IsWithin :
        (visits : VisitsAll visit_order) (s : SafetyLimit F)
        → f.le s.max_percent (quotient f n 100) ≡ true
        → 1 ≤ s.total
        → s.deletes ≤ s.total
        → ((r : Str) → count_of r s.repository_deletes ≤ count_of r s.repository_totals)
        → validate_limit f visit_order s ≡ none
        → IsWithin s.max_count n s.deletes s.total
          × ((r : Str)
              → 1 ≤ count_of r s.repository_deletes
              → IsWithin s.max_count n
                  (count_of r s.repository_deletes)
                  (count_of r s.repository_totals))
    unfolding validate_limit
    validate_limit-IsWithin visits s limit some_total le each_le h = (
      Passes-IsWithin s.max_count s.max_percent s.deletes s.total limit some_total le
          (record { below = ground arith; passed = ground arith }),
      λ r some_deletes.
          Passes-IsWithin s.max_count s.max_percent (count_of r s.repository_deletes)
            (count_of r s.repository_totals) limit (omega (arith, some_deletes, each_le r))
            (each_le r)
            (repositories_within-none s (visit_order (names s.repository_deletes)) (ground arith) r
              (visited visit_order visits r (names s.repository_deletes)
                (count_of-str_mem r s.repository_deletes some_deletes))),
    )

pub IsWithin-cong :
    {c c' : ℤ} {n d d' t t' : ℕ} → c ≡ c' → d ≡ d' → t ≡ t' → IsWithin c n d t → IsWithin c' n d' t'
IsWithin-cong {c} {c'} {n} {d} {d'} {t} {t'} ec ed et h =
    subst (λ x. IsWithin x n d' t') ec
      (subst (λ x. IsWithin c n x t') ed (subst (IsWithin c n d) et h))
