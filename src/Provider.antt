-- ===== src/Provider.antt =====
-- pkg/provider/provider.go: the registry-neutral data that every part of the program exchanges, with
-- the parts of Go's `time` that it uses.
use regbot.Base.{
  Result, Bool, ℕ, ◌+◌, ◌-◌, ◌^◌, List, Str, ℤ, pos, negsuc, ◌-ℤ◌, ltb_ℤ, if◌then◌else◌, pos_part,
  neg_part, ◌==◌,
}

-- A `time.Time`: nanoseconds since the zero time, the first of January of the year 1, in UTC.
abbrev pub Time : Type 0
Time = ℤ

-- A `time.Duration`: nanoseconds, in an int64.
abbrev pub Duration : Type 0
Duration = ℤ

-- `t.IsZero()`
abbrev pub is_zero : Time → Bool
is_zero t = pos_part t == neg_part t

-- `t.Equal(u)`
abbrev pub time_eq : Time → Time → Bool
time_eq t u = pos_part t + neg_part u == pos_part u + neg_part t

-- `t.After(u)`
abbrev pub after : Time → Time → Bool
after t u = ltb_ℤ u t

abbrev pub max_duration : Duration
max_duration = pos (2 ^ 63 - 1)

abbrev pub min_duration : Duration
min_duration = negsuc (2 ^ 63 - 1)

-- `t.Sub(u)`, which stops at the ends of an int64.
unfoldable pub sub_time : Time → Time → Duration
unfolding ◌-ℤ◌
sub_time t u =
    let d = t -ℤ u in
    if ltb_ℤ max_duration d then max_duration else if ltb_ℤ d min_duration then min_duration else d

pub record Version : Type 0 where
  pub tag : Str
  pub date : Time
  pub sequence : ℕ  -- uint64
  pub app : Str

pub record Artifact : Type 0 where
  pub provider : Str
  pub registry : Str
  pub repository : Str
  pub id : Str
  pub digest : Str
  pub media_type : Str
  pub artifact_type : Str
  pub tags : List Str
  pub created_at : Time
  pub updated_at : Time
  pub size : ℤ  -- int64
  pub child_digests : List Str
  pub referrer_ids : List Str
  pub parsed_versions : List Version

pub record Target : Type 0 where
  pub registry : Str
  pub includes : List Str
  pub excludes : List Str

pub record DeleteRequest : Type 0 where
  pub repository : Str
  pub id : Str
  pub digest : Str
  pub tags : List Str
  pub updated_at : Time

-- What an error of a provider is to its callers, which ask `errors.Is` for the two sentinels and
-- `Error` for the text.
pub record ProviderError : Type 0 where
  pub text : Str
  pub is_not_found : Bool
  pub is_precondition : Bool

pub record Capabilities : Type 0 where
  pub catalog : Bool
  pub delete : Bool
  pub referrers : Bool

-- A configured provider as its callers see it. What the registry answers may change from call to
-- call, so `list` also takes the number of calls before it.
pub record Client : Type 0 where
  pub preflight : Result ProviderError Capabilities
  pub list : ℕ → Target → Result ProviderError (List Artifact)
