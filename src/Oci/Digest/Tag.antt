-- ===== src/Oci/Digest/Tag.antt =====
-- What `referrersTag` of internal/provider/oci/oci.go makes of a digest.
use regbot.Base.{
  Bool, true, false, ◌||◌, ℕ, zero, suc, ◌+◌, ◌≤◌, [], ◌∷◌, ◌++◌, Str, Option, none, some, all,
  length, leb, ◌==◌, if◌then◌else◌, is_alpha, is_alphanumeric, take, ◌≡◌, refl, arith, ap, subst,
  Bool-cases, inl, inr,
}
use regbot.Policy.Numbers.{cut}
use regbot.Oci.Digest.{
  is_tag_byte, sanitize_tag_part, truncate, tag_of, valid_digest, referrers_tag, parts_ok,
}

-- `[a-zA-Z0-9_]`, with which a tag begins.
abbrev pub is_tag_start : Str → Bool
is_tag_start [] = false
is_tag_start (c ∷ s) = is_alphanumeric c || c == b'_'

-- The grammar of tags in the OCI distribution specification, `[a-zA-Z0-9_][a-zA-Z0-9._-]{0,127}`.
pub record IsTag (tag : Str) : Type 0 where
  pub begins : is_tag_start tag ≡ true
  pub bytes : all is_tag_byte tag ≡ true
  pub short : length tag ≤ 128

sanitized_byte : (c : ℕ) → is_tag_byte (if is_tag_byte c then c else b'-') ≡ true
sanitized_byte c = elim (Bool-cases (is_tag_byte c)) [ inl e ↦ rw (e, e) refl | inr e ↦ rw e refl ]

sanitized : (s : Str) → all is_tag_byte (sanitize_tag_part s) ≡ true
sanitized [] = refl
sanitized (c ∷ s) = rw (sanitized_byte c, sanitized s) refl

length-sanitized : (s : Str) → length (sanitize_tag_part s) ≡ length s
length-sanitized [] = refl
length-sanitized (c ∷ s) = ap suc (length-sanitized s)

length-take_le : (n : ℕ) (s : Str) → length (take n s) ≤ n
length-take_le zero s = omega arith
length-take_le (suc n) [] = omega arith
length-take_le (suc n) (c ∷ s) = omega (arith, length-take_le n s)

length-truncate_le : (s : Str) (n : ℕ) → length (truncate s n) ≤ n
length-truncate_le s n = elim (Bool-cases (leb (length s) n)) [
  | inl e ↦ rw e (ground arith)
  | inr e ↦ rw e (length-take_le n s)
]

all-dash :
    (s t : Str)
    → all is_tag_byte s ≡ true
    → all is_tag_byte t ≡ true
    → all is_tag_byte (s ++ b'-' ∷ t) ≡ true
all-dash [] t e f = f
all-dash (c ∷ s) t e f = ground (arith, all-dash s t, f)

length-dash : (s t : Str) → length (s ++ b'-' ∷ t) ≡ suc (length s + length t)
length-dash [] t = omega arith
length-dash (c ∷ s) t = omega (arith, length-dash s t)

begins_alpha :
    (c : ℕ) (s t : Str) (n : ℕ)
    → is_alpha c ≡ true
    → is_tag_start (sanitize_tag_part (truncate (c ∷ s) (suc n)) ++ t) ≡ true
begins_alpha c s t n e = elim (Bool-cases (leb (length (c ∷ s)) (suc n))) [
  | inl short ↦ rw (short, e) (rw e refl)
  | inr long ↦ rw (long, e) (rw e refl)
]

tag_of-IsTag : (parts : Str × Str × Bool) → parts_ok parts ≡ true → IsTag (tag_of parts)
tag_of-IsTag ([], encoded, found) e = absurd (ground arith)
tag_of-IsTag (c ∷ algorithm, encoded, found) e = record {
  begins = begins_alpha c algorithm _ 31 (ground arith);
  bytes =
      all-dash (sanitize_tag_part (truncate (c ∷ algorithm) 32))
        (sanitize_tag_part (truncate encoded 64)) (sanitized (truncate (c ∷ algorithm) 32))
        (sanitized (truncate encoded 64));
  short = omega (
    arith,
    length-dash (sanitize_tag_part (truncate (c ∷ algorithm) 32))
        (sanitize_tag_part (truncate encoded 64)),
    length-sanitized (truncate (c ∷ algorithm) 32),
    length-sanitized (truncate encoded 64),
    length-truncate_le (c ∷ algorithm) 32,
    length-truncate_le encoded 64,
  );
}

-- What `referrersTag` returns is a tag by the grammar of the OCI distribution specification.
pub referrers_tag-IsTag : (digest tag : Str) → referrers_tag digest ≡ some tag → IsTag tag
unfolding referrers_tag valid_digest
referrers_tag-IsTag digest tag e = elim (Bool-cases (parts_ok (cut b':' digest))) [
  | inl ok_parts ↦
      subst IsTag (the_tag (rw ok_parts at e)) (tag_of-IsTag (cut b':' digest) ok_parts)
  | inr bad ↦ absurd (no_tag (rw bad at e))
]
  where
    the_tag : some (tag_of (cut b':' digest)) ≡ some tag → tag_of (cut b':' digest) ≡ tag
    the_tag x = cc

    no_tag : ◌≡◌ {A = Option Str} none (some tag) → ⊥
    no_tag x = cc
