-- ===== src/Oci/Digest.antt =====
-- `validDigest`, `referrersTag` and their helpers in internal/provider/oci/oci.go, on bytes: a rune of more
-- than one byte is refused as each of its bytes is, and replaced as a whole where the code replaces it.
pub mod Tag
use regbot.Base.{
  Bool, true, false, not, ◌&&◌, ◌||◌, ℕ, [], ◌∷◌, ◌++◌, Str, Option, none, some, codes, str_eq, all,
  any, is_empty, length, leb, ◌==◌, if◌then◌else◌, is_alpha, is_alphanumeric, take, map,
}
use regbot.Policy.Numbers.{cut}

-- `strings.ContainsRune(chars, r)`
abbrev pub among : Str → ℕ → Bool
among chars r = any (λ c. c == r) chars

abbrev pub is_lower_hex : Str → Bool
is_lower_hex = all (λ r. (leb b'0' r && leb r b'9') || (leb b'a' r && leb r b'f'))

abbrev pub is_algorithm_byte : ℕ → Bool
is_algorithm_byte r = is_alphanumeric r || among (codes "+._-") r

abbrev pub is_encoded_byte : ℕ → Bool
is_encoded_byte r = is_alphanumeric r || among (codes "=_-") r

abbrev pub algorithm_ok : Str → Bool
algorithm_ok [] = false
algorithm_ok (r ∷ rest) = is_alpha r && all is_algorithm_byte rest

-- `switch algorithm`
abbrev length_ok : Str → Str → Bool
length_ok algorithm encoded =
    if str_eq algorithm (codes "sha256")
    then length encoded == 64 && is_lower_hex encoded
    else if str_eq algorithm (codes "sha512")
    then length encoded == 128 && is_lower_hex encoded
    else true

abbrev pub parts_ok : Str × Str × Bool → Bool
parts_ok (algorithm, encoded, found) =
    found
    && (algorithm_ok algorithm
        && (not (is_empty encoded) && (all is_encoded_byte encoded && length_ok algorithm encoded)))

unfoldable pub valid_digest : Str → Bool
valid_digest digest = parts_ok (cut b':' digest)

-- A byte that a tag may hold.
abbrev pub is_tag_byte : ℕ → Bool
is_tag_byte r = is_alphanumeric r || among (codes "_.-") r

abbrev pub sanitize_tag_part : Str → Str
sanitize_tag_part = map (λ r. if is_tag_byte r then r else b'-')

-- `truncate`
abbrev pub truncate : Str → ℕ → Str
truncate value limit = if leb (length value) limit then value else take limit value

abbrev pub tag_of : Str × Str × Bool → Str
tag_of (algorithm, encoded, found) =
    sanitize_tag_part (truncate algorithm 32) ++ b'-' ∷ sanitize_tag_part (truncate encoded 64)

-- `none` is the error of an invalid digest.
unfoldable pub referrers_tag : Str → Option Str
referrers_tag digest = if valid_digest digest then some (tag_of (cut b':' digest)) else none
