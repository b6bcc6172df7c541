-- ===== src/Engine/Safety.antt =====
-- `safetyLimit` and `percent` of internal/engine/engine.go. `F` is float64, `visit_order` the order in
-- which Go visits a map.
pub mod Share
pub mod Kept
use regbot.Base.{
  Bool, true, false, ◌||◌, ℕ, ◌*◌, List, [], ◌∷◌, Str, Option, none, some, str_eq, if◌then◌else◌,
  Float64, ℤ, pos, ltb_ℤ, ◌==◌, ◌+◌,
}
use regbot.Config.Validate.{names}

-- `map[string]int`; a key that is not there reads 0.
abbrev pub Counts : Type 0
Counts = List (Str × ℕ)

abbrev pub count_of : Str → Counts → ℕ
count_of key [] = 0
count_of key ((k, n) ∷ cs) = if str_eq k key then n else count_of key cs

-- `counts[key]++`
abbrev pub increment : Str → Counts → Counts
increment key [] = (key, 1) ∷ []
increment key ((k, n) ∷ cs) = if str_eq k key then (k, n + 1) ∷ cs else (k, n) ∷ increment key cs

pub record SafetyLimit (F : Type 0) : Type 0 where
  pub policy : Str
  pub total : ℕ
  pub deletes : ℕ
  pub max_count : ℤ
  pub max_percent : F
  pub repository_totals : Counts
  pub repository_deletes : Counts

pub data SafetyError : Type 0 where
  too_many : Str → SafetyError
  too_large_share : Str → SafetyError
  repository_exceeds : Str → Str → SafetyError

module _ {F : Type 0} (f : Float64 F) where
  unfoldable pub percent : ℕ → ℕ → F
  percent part total =
      if total == 0
      then f.of_int (pos 0)
      else f.div
          (f.round
            (f.div (f.mul (f.of_int (pos part)) (f.of_int (pos 10000))) (f.of_int (pos total))))
          (f.of_int (pos 100))

module _ {F : Type 0} (f : Float64 F) (visit_order : List Str → List Str) where
  -- The loop over the repositories with deletions.
  repositories_within : SafetyLimit F → List Str → Option SafetyError
  repositories_within s [] = none
  repositories_within s (repository ∷ rest) =
      let deletes = count_of repository s.repository_deletes in
      if ltb_ℤ s.max_count (pos deletes)
        || f.lt s.max_percent (percent f deletes (count_of repository s.repository_totals))
      then some (repository_exceeds s.policy repository)
      else repositories_within s rest

  -- `none` for a limit that is kept.
  unfoldable pub validate_limit : SafetyLimit F → Option SafetyError
  unfolding repositories_within
  validate_limit s =
      if ltb_ℤ s.max_count (pos s.deletes)
      then some (too_many s.policy)
      else if f.lt s.max_percent (percent f s.deletes s.total)
      then some (too_large_share s.policy)
      else repositories_within s (visit_order (names s.repository_deletes))
