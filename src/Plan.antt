-- ===== src/Plan.antt =====
-- pkg/plan/plan.go: plans and results. `Fingerprint` and `ID` are SHA-256 of bytes and of JSON, which
-- the engine takes as a parameter.
use regbot.Base.{ℕ, List, Str, ℤ, codes}
use regbot.Provider.{Artifact, Time}

abbrev pub format_version : Str
format_version = codes "v1"

pub record Action : Type 0 where
  pub policy : Str
  pub reason_codes : List Str
  pub artifact : Artifact

pub record Plan : Type 0 where
  pub version : Str
  pub created_at : Time
  pub expires_at : Time
  pub config_fingerprint : Str
  pub actions : List Action
  pub protected_count : ℕ
  pub discovered_count : ℕ

pub data Status : Type 0 where
  deleted skipped failed : Status

-- The text that stands for a status.
unfoldable pub status_text : Status → Str
status_text deleted = codes "deleted"
status_text skipped = codes "skipped"
status_text failed = codes "failed"

pub record ActionOutcome : Type 0 where
  pub action : Action
  pub status : Status
  pub error : Str

-- `plan.Result`. The counts are an `int`: `skipped` could fall below 0.
pub record ApplyResult : Type 0 where
  pub version : Str
  pub started_at : Time
  pub finished_at : Time
  pub planned : ℕ
  pub deleted : ℕ
  pub skipped : ℤ
  pub failed : ℕ
  pub outcomes : List ActionOutcome
