-- ===== src/FormalReview/Evaluate/Hit.antt =====
-- formal_review/evaluators.py: the test on a hit in `PolicyEvaluator.assess`.
use ecommerce_after_sales_sy.Prelude.{
  String, Bool, true, false, not, ◌&&◌, ◌||◌, Option, none, some, nonempty, str_eq,
}
use ecommerce_after_sales_sy.Python.Text.{is_text}
use ecommerce_after_sales_sy.Python.Value.{
  ℤ, Value, str, float, get, get_default, is_true, is_str, le_ℤ, lt_ℤ,
}
use ecommerce_after_sales_sy.Python.Runtime.{Runtime, less}
use ecommerce_after_sales_sy.Python.Convert.{or_else, text}
use ecommerce_after_sales_sy.FormalReview.Contracts.{PolicyTask}
use ecommerce_after_sales_sy.FormalReview.Score.{score_value, score_overflows}
use ecommerce_after_sales_sy.FormalReview.Graph.State.{opt_str}
use ecommerce_after_sales_sy.FormalReview.Evaluate.Citation.{parse_time, traceable_citations}

-- `not code or found != code` is the test that a hit is passed over.
abbrev pub names : Option String → String → Bool
names none found = false
names (some code) found = is_text code && str_eq found code

-- The interval test, made only where all three times are known.
abbrev pub in_force : Option ℤ → Option ℤ → Option ℤ → Bool
in_force (some at) (some from) (some to) = le_ℤ from at && lt_ℤ at to
in_force _ _ _ = true

module _ {F : Type 0} ⦃r : Runtime F⦄ where
  -- A field of a hit, or of its metadata.
  abbrev pub hit_text : String → Value F → String
  hit_text k hit = text (or_else (or_else (get k hit) (get k (get "metadata" hit))) (str ""))

  abbrev hit_time : String → Value F → Option ℤ
  hit_time k hit = parse_time (or_else (get k hit) (get k (get "metadata" hit)))

  abbrev default_threshold : Value F
  default_threshold = float (r.decimal 55 2)

  -- The score of a hit reaches its threshold, unless rankings were fused.
  unfoldable pub scores_enough : Value F → String → Value F → Bool
  unfolding score_value
  scores_enough knowledge mode hit =
      str_eq mode "multi_query_rrf"
      || not (
          less
            (score_value (get_default "calibrated_policy_confidence" hit (get "rerank_score" hit)))
            (score_value (
              or_else (or_else (get "threshold" hit) (get "threshold" knowledge))
                default_threshold)))

  -- The hit reaches the comparison of its score: no earlier `continue` passes it over.
  abbrev pub passes_filters : PolicyTask → Value F → Bool
  passes_filters task hit =
      str_eq (hit_text "source_type" hit) "after_sales_policy"
      && names task.merchant_code (hit_text "merchant_code" hit)
      && names task.policy_version (hit_text "policy_version" hit)
      && is_true (get "trusted_policy_eligible" hit)
      && is_str (get "relaxation_level" hit) "strict"
      && nonempty (traceable_citations hit)
      && in_force (parse_time {F = F} (opt_str task.business_time)) (hit_time "valid_from" hit)
          (hit_time "valid_to" hit)

  -- A score that is read of such a hit is too large for a float.
  unfoldable pub hit_overflows : PolicyTask → Value F → String → Value F → Bool
  hit_overflows task knowledge mode hit =
      passes_filters task hit
      && (score_overflows
            (or_else (or_else (get "threshold" hit) (get "threshold" knowledge)) default_threshold)
          || (not (str_eq mode "multi_query_rrf")
              && score_overflows
                  (get_default "calibrated_policy_confidence" hit (get "rerank_score" hit))))

  -- The hit is passed over by no `continue` of the loop, where no score is too large.
  unfoldable pub is_trusted_hit : PolicyTask → Value F → String → Value F → Bool
  unfolding scores_enough
  is_trusted_hit task knowledge mode hit =
      passes_filters task hit && scores_enough knowledge mode hit
