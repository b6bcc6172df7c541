-- ===== src/Oci/Referrers/Distinct.antt =====
-- The digests that `decodeReferrersIndex` of internal/provider/oci/oci.go returns.
use regbot.Base.{
  Bool, true, not, ◌≤◌, List, [], ◌∷◌, ◌++◌, Str, Option, none, some, str_eq, str_lt, str_mem,
  if◌then◌else◌, ◌≡◌, refl, arith, sym, subst, count, count-append, count-slice_stable, occurs,
  occurs-zero, slice_stable, Bool-cases, inl, inr, str_eq→eq,
}
use regbot.Provider.{ProviderError}
use regbot.Http.{Response, done, History, >>=-eq-done, Oracle, give, fail}
use regbot.Oci.Digest.{valid_digest}
use regbot.Oci.Requests.{Site}
use regbot.Oci.Referrers.{distinct_digests, sorted_result, decode_referrers_index}

abbrev pub is_invalid : Str → Bool
is_invalid d = not (valid_digest d)

-- Each digest once, and each of them valid.
pub record AreDigests (ids : List Str) : Type 0 where
  pub once : (d : Str) → occurs d ids ≤ 1
  pub valid : count is_invalid ids ≡ 0

added :
    (d : Str) (result : List Str)
    → valid_digest d ≡ true
    → AreDigests result
    → AreDigests (if str_mem d result then result else result ++ d ∷ [])
added d result v a = elim (Bool-cases (str_mem d result)) [
  | inl e ↦ rw e a
  | inr e ↦ rw e (record {
    once = λ c. elim (Bool-cases (str_eq c d)) [
      | inl x ↦ ground (
        arith,
        count-append (str_eq c) result (d ∷ []),
        x,
        subst (λ k. occurs k result ≡ 0) (sym (str_eq→eq c d x)) (occurs-zero d result e),
      )
      | inr x ↦ ground (arith, count-append (str_eq c) result (d ∷ []), x, a.once c)
    ];
    valid = ground (arith, count-append is_invalid result (d ∷ []), a.valid);
  })
]

distinct_digests-AreDigests :
    (ds result ids : List Str)
    → AreDigests result
    → distinct_digests ds result ≡ some ids
    → AreDigests ids
unfolding distinct_digests
distinct_digests-AreDigests [] result ids a e = subst AreDigests (same e) a
  where
    same : some result ≡ some ids → result ≡ ids
    same x = cc
distinct_digests-AreDigests (d ∷ ds) result ids a e = elim (Bool-cases (valid_digest d)) [
  | inl v ↦ distinct_digests-AreDigests ds _ ids (added d result v a) (rw v at e)
  | inr bad ↦ absurd (no_ids (rw bad at e))
]
  where
    no_ids : ◌≡◌ {A = Option (List Str)} none (some ids) → ⊥
    no_ids x = cc

sorted-AreDigests : (ids : List Str) → AreDigests ids → AreDigests (slice_stable str_lt ids)
sorted-AreDigests ids a = record {
  once = λ d. rw (count-slice_stable str_lt (str_eq d) ids) (a.once d);
  valid = rw (count-slice_stable str_lt is_invalid ids) a.valid;
}

sorted_result-AreDigests :
    (failure : ProviderError) (o : Option (List Str)) (h h' : History) {ids : List Str}
    → ((found : List Str) → o ≡ some found → AreDigests found)
    → sorted_result failure o h ≡ (done ids, h')
    → AreDigests ids
unfolding give fail
sorted_result-AreDigests failure none h h' f e = cc
sorted_result-AreDigests failure (some found) h h' f e =
    subst AreDigests (cc) (sorted-AreDigests found (f found refl))

-- The digests that are read from an index of referrers are valid, and none is there twice.
pub decode_referrers_index-AreDigests :
    (oracle : Oracle) (site : Site) (repository subject : Str) (response : Response) (source : Str)
    (h h' : History) (ids : List Str)
    → decode_referrers_index oracle site repository subject response source h ≡ (done ids, h')
    → AreDigests ids
unfolding decode_referrers_index
decode_referrers_index-AreDigests oracle site repository subject response source h h' ids e =
    let (u, h1, typed, e1) = >>=-eq-done _ _ h e in
    let (index, h2, decoded, e2) = >>=-eq-done _ _ h1 e1 in
    let (v, h3, version, e3) = >>=-eq-done _ _ h2 e2 in
    let (w, h4, media, e4) = >>=-eq-done _ _ h3 e3 in
    sorted_result-AreDigests _ (distinct_digests index.digests []) h4 h'
      (λ found x. distinct_digests-AreDigests index.digests [] found nothing x) e4
  where
    nothing : AreDigests []
    nothing = record { once = λ d. omega arith; valid = refl }
