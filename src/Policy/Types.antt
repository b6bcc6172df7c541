-- ===== src/Policy/Types.antt =====
-- The types of pkg/policy/policy.go.
use regbot.Base.{Bool, List, Str, ℤ, codes, Option}
use regbot.Provider.{Artifact, Duration}

pub data Reason : Type 0 where
  recent latest minimum tag digest shared_digest unparsed referrer too_young old : Reason
  not_selected : Reason

-- The stable text of a reason code.
unfoldable pub reason_code : Reason → Str
reason_code recent = codes "protected.recent"
reason_code latest = codes "protected.latest"
reason_code minimum = codes "protected.minimum"
reason_code tag = codes "protected.tag"
reason_code digest = codes "protected.digest"
reason_code shared_digest = codes "protected.shared_digest"
reason_code unparsed = codes "protected.unparsed"
reason_code referrer = codes "protected.referrer"
reason_code too_young = codes "protected.too_young"
reason_code old = codes "eligible.older_than"
reason_code not_selected = codes "ignored.not_selected"

-- A compiled `*regexp.Regexp`, by the methods that the program calls.
pub record Regexp : Type 0 where
  pub match_string : Str → Bool
  pub subexp_names : List Str
  pub find_string_submatch : Str → Option (List Str)

-- `F` is float64.
pub record Rule (F : Type 0) : Type 0 where
  pub name : Str
  pub keep_newer_than : Duration
  pub delete_older_than : Duration
  pub keep_latest : ℤ
  pub keep_at_least : ℤ
  pub group_by_app : Bool
  pub protected_tags : List Str
  pub protected_patterns : List Regexp
  pub protected_digests : List Str
  pub protect_unparsed : Bool
  pub require_tagged : Bool
  pub max_delete_count : ℤ
  pub max_delete_percent : F

pub record Decision : Type 0 where
  pub artifact : Artifact
  pub delete : Bool
  pub reasons : List Reason
  pub group : Str

-- The group of artifacts with no app of their own.
abbrev pub default_group : Str
default_group = codes "_default"
