-- ===== src/Examples/Judging.antt =====
-- Runs of `Evaluate` of pkg/policy/policy.go.
use mathlib.Core.List.{reverse}
use regbot.Base.{
  true, false, not, ◌&&◌, ℕ, ◌≤◌, List, [], ◌∷◌, some, ◌≡◌, ◌↔◌, refl, arith, codes, count, pos,
  inl, get_elem?, str_eq, count-reverse, str_lt, slice_stable, ◌-ℤ◌,
}
use regbot.Provider.{Artifact, sub_time}
use regbot.Policy.Types.{Rule, Decision, default_group}
use regbot.Policy.Order.{has_multiple_apps, protected_tag, artifact_age, newer}
use regbot.Policy.Judge.{judge}
use regbot.Policy.Judge.Eligible.{IsEligible, judge-IsEligible}
use regbot.Policy.Judge.Explained.{IsExplained, judge-IsExplained}
use regbot.Policy.Evaluate.{judge_ranked, visit_group, visit_groups, evaluate}
use regbot.Policy.Evaluate.Positions.{rank_of, evaluate-IsEligible, evaluate_deterministic}
use regbot.Policy.Evaluate.Minimum.{evaluate-keeps_minimum}
use regbot.Examples.Sample.{older_image, newer_image, in_order, in_order-VisitsAll, sample_now}

abbrev sample_rule : Rule ℕ
sample_rule = record {
  name = codes "old";
  keep_newer_than = pos 100;
  delete_older_than = pos 3000;
  keep_latest = pos 0;
  keep_at_least = pos 1;
  group_by_app = true;
  protected_tags = codes "latest" ∷ [];
  protected_patterns = [];
  protected_digests = [];
  protect_unparsed = false;
  require_tagged = true;
  max_delete_count = pos 1;
  max_delete_percent = 6000;
}

abbrev images : List Artifact
images = older_image ∷ newer_image ∷ []

abbrev undecided : Decision
undecided = record { artifact = older_image; delete = false; reasons = []; group = default_group }

judge-IsEligible_example :
    ((judge sample_rule sample_now 1 undecided).delete ≡ true)
    ↔ IsEligible sample_rule sample_now 1 older_image
judge-IsEligible_example = judge-IsEligible sample_rule sample_now 1 undecided refl

judge-IsExplained_example : IsExplained (judge sample_rule sample_now 1 undecided)
judge-IsExplained_example = judge-IsExplained sample_rule sample_now 1 undecided refl refl

evaluate-IsEligible_example :
    (d : Decision) × (get_elem? (evaluate in_order images sample_rule sample_now) 0 ≡ some d)
    × (d.artifact ≡ older_image)
    × ((d.delete ≡ true)
        ↔ IsEligible sample_rule sample_now (rank_of images sample_rule older_image 0) older_image)
evaluate-IsEligible_example =
    evaluate-IsEligible in_order in_order-VisitsAll images sample_rule sample_now 0 older_image refl

evaluate_deterministic_example :
    evaluate in_order images sample_rule sample_now ≡ evaluate reverse images sample_rule sample_now
evaluate_deterministic_example =
    evaluate_deterministic in_order reverse in_order-VisitsAll
      (λ keys key. count-reverse (str_eq key) keys) images sample_rule sample_now

two_images :
    1 ≤ count (λ d. str_eq d.group default_group) (evaluate in_order images sample_rule sample_now)
unfolding evaluate judge_ranked visit_group visit_groups judge protected_tag has_multiple_apps
    artifact_age newer sub_time str_eq str_lt slice_stable ◌-ℤ◌
two_images = omega arith

evaluate-keeps_minimum_example :
    1
    ≤ count
        (λ d. str_eq d.group default_group && not d.delete)
        (evaluate in_order images sample_rule sample_now)
evaluate-keeps_minimum_example =
    evaluate-keeps_minimum in_order in_order-VisitsAll images sample_rule sample_now default_group 1
      (inl (omega arith)) two_images
