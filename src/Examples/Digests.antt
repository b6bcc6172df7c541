-- ===== src/Examples/Digests.antt =====
-- Digests and tags of referrers, as in internal/provider/oci/oci.go.
use regbot.Base.{[], ◌∷◌, some, ok, refl, ◌≡◌, codes, pos, str_eq, str_lt, slice_stable}
use regbot.Policy.Numbers.{cut}
use regbot.Http.{done, ◌>>=◌, give, refuse_when, lift}
use regbot.Oci.Digest.{valid_digest, referrers_tag}
use regbot.Oci.Digest.Tag.{IsTag, referrers_tag-IsTag}
use regbot.Oci.Requests.{Site}
use regbot.Oci.Referrers.{decode_referrers_index, distinct_digests}
use regbot.Oci.Referrers.Distinct.{AreDigests, decode_referrers_index-AreDigests}
use regbot.Examples.Registry.{answer, registry, site}

derived : referrers_tag (codes "md5:a=b") ≡ some (codes "md5-a-b")
unfolding referrers_tag valid_digest cut str_eq
derived = refl

referrers_tag-IsTag_example : IsTag (codes "md5-a-b")
referrers_tag-IsTag_example = referrers_tag-IsTag (codes "md5:a=b") (codes "md5-a-b") derived

abbrev twice_listed : Site
twice_listed = record site {
  decode_index = λ body. ok (record {
    schema_version = pos 2;
    media_type = [];
    digests = codes "md5:b" ∷ codes "md5:a" ∷ codes "md5:b" ∷ [];
  });
}

decoded :
    decode_referrers_index registry twice_listed
      (codes "app")
      (codes "d:1")
      (answer 200 [])
      (codes "api")
      []
    ≡ (done (codes "md5:a" ∷ codes "md5:b" ∷ []), [])
unfolding decode_referrers_index ◌>>=◌ refuse_when lift give distinct_digests valid_digest cut
    str_eq str_lt slice_stable
decoded = refl

decode_referrers_index-AreDigests_example : AreDigests (codes "md5:a" ∷ codes "md5:b" ∷ [])
decode_referrers_index-AreDigests_example =
    decode_referrers_index-AreDigests registry twice_listed (codes "app") (codes "d:1")
      (answer 200 []) (codes "api") [] [] (codes "md5:a" ∷ codes "md5:b" ∷ []) decoded
