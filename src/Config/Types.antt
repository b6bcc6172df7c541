-- ===== src/Config/Types.antt =====
-- The records of internal/config/config.go. `F` is float64.
use regbot.Base.{Bool, List, Str, ℤ, Option}
use regbot.Provider.{Duration}

pub record Credentials : Type 0 where
  pub username_env : Str
  pub username_file : Str
  pub password_env : Str
  pub password_file : Str

pub record Tls : Type 0 where
  pub ca_file : Str
  pub insecure_skip_verify : Bool

pub record Registry : Type 0 where
  pub provider : Str
  pub endpoint : Str
  pub owner : Str
  pub owner_type : Str
  pub token_env : Str
  pub token_file : Str
  pub repositories : List Str
  pub credentials : Credentials
  pub tls : Tls
  pub timeout : Duration

pub record Repository : Type 0 where
  pub include : List Str
  pub exclude : List Str

pub record Target : Type 0 where
  pub registry : Str
  pub repositories : Repository

pub record Tags : Type 0 where
  pub parser : Str
  pub patterns : List Str
  pub regex : Str

pub record Retention : Type 0 where
  pub keep_newer_than : Duration
  pub delete_older_than : Duration
  pub keep_latest : ℤ
  pub keep_at_least : ℤ
  pub group_by : Str

pub record Protect : Type 0 where
  pub tags : List Str
  pub tag_patterns : List Str
  pub digests : List Str
  pub unparsed_tags : Option Bool

pub record Safety (F : Type 0) : Type 0 where
  pub max_delete_count : ℤ
  pub max_delete_percent : F
  pub require_tagged : Option Bool

pub record Policy (F : Type 0) : Type 0 where
  pub targets : List Target
  pub tags : Tags
  pub retention : Retention
  pub protect : Protect
  pub safety : Safety F

pub record Schedule : Type 0 where
  pub cron : Str
  pub timezone : Str
  pub run_on_start : Bool
  pub timeout : Duration

pub record Webhook : Type 0 where
  pub type : Str
  pub url_env : Str
  pub bearer_token_env : Str
  pub hmac_secret_env : Str
  pub timeout : Duration

pub record Hooks : Type 0 where
  pub after_apply : Option Webhook

pub record Config (F : Type 0) : Type 0 where
  pub version : Str
  pub apply : Bool
  pub registries : List (Str × Registry)
  pub policies : List (Str × Policy F)
  pub schedule : Option Schedule
  pub hooks : Hooks
