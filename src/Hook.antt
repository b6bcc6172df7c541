-- ===== src/Hook.antt =====
-- `Webhook.Deliver` of internal/hook/webhook.go. JSON, HMAC and what the endpoint answers are parameters.
use regbot.Base.{
  ◌||◌, ℕ, ◌*◌, ◌^◌, ◌++◌, Str, Option, none, some, Result, ok, err, codes, is_empty, if◌then◌else◌,
  ltb, leb, pos,
}
use regbot.Provider.{Duration, is_zero}
use regbot.Plan.{ApplyResult}

pub record Webhook : Type 0 where
  pub url : Str
  pub bearer_token : Str
  pub hmac_secret : Str
  pub timeout : Duration

-- The request that is posted.
pub record Notice : Type 0 where
  pub url : Str
  pub authorization : Option Str
  pub signature : Option Str
  pub timeout : Duration
  pub payload : Str

-- `marshal` writes the version and the numbers deleted and failed as JSON, `sign` is the HMAC of a text
-- under a secret, in hexadecimal, and `malformed` the error of `http.NewRequestWithContext`.
pub record Codec : Type 0 where
  pub marshal : Str → ℕ → ℕ → Str
  pub sign : Str → Str → Str
  pub malformed : Str → Option Str

module _ (codec : Codec) where
  unfoldable pub notice_of : Webhook → ApplyResult → Notice
  notice_of w result =
      let payload = codec.marshal result.version result.deleted result.failed in
      record {
        url = w.url;
        authorization =
            if is_empty w.bearer_token then none else some (codes "Bearer " ++ w.bearer_token);
        signature =
            if is_empty w.hmac_secret
            then none
            else some (codes "sha256=" ++ codec.sign w.hmac_secret payload);
        timeout = if is_zero w.timeout then pos (30 * 10 ^ 9) else w.timeout;
        payload = payload;
      }

-- What is made of the answer, which is the number and the text of its status.
abbrev pub delivered : Result Str (ℕ × Str) → Option Str
delivered (err e) = some e
delivered (ok (status, text)) =
    if ltb status 200 || leb 300 status then some (codes "webhook returned " ++ text) else none
