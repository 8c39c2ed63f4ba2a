-- ===== src/FormalReview/Evaluate/Policy.antt =====
-- formal_review/evaluators.py: `PolicyEvaluator.assess`.
use ecommerce_after_sales_sy.Prelude.{
  String, Bool, true, false, not, ◌&&◌, ◌||◌, Option, none, List, [], ◌∷◌, ◌++◌, any, keep, length,
  nonempty, str_eq, if◌then◌else◌,
}
use ecommerce_after_sales_sy.Python.Text.{is_text, strip, mem}
use ecommerce_after_sales_sy.Python.Value.{Value, str, float, get, is_dict, is_true}
use ecommerce_after_sales_sy.Python.Result.{Result, ok, raise_if, overflow_error, ◌>>=◌, ◌>>◌}
use ecommerce_after_sales_sy.Python.Runtime.{Runtime, max}
use ecommerce_after_sales_sy.Python.Convert.{
  or_else, text, text_or_empty, nonblank, iterate_or_empty,
}
use ecommerce_after_sales_sy.FormalReview.Contracts.{PolicyTask, PolicyAssessment, ToolResult}
use ecommerce_after_sales_sy.FormalReview.Context.{dicts}
use ecommerce_after_sales_sy.FormalReview.Confidence.{opt_is}
use ecommerce_after_sales_sy.FormalReview.Score.{score_value, score_overflows}
use ecommerce_after_sales_sy.FormalReview.Sop.{reason_if}
use ecommerce_after_sales_sy.FormalReview.Graph.State.{or_text}
use ecommerce_after_sales_sy.FormalReview.Evaluate.Citation.{traceable_citations}
use ecommerce_after_sales_sy.FormalReview.Evaluate.Hit.{hit_overflows, is_trusted_hit}

abbrev pub trusted_modes : List String
trusted_modes = "hybrid_reranked" ∷ "multi_query_reranked" ∷ "multi_query_rrf" ∷ "pgvector" ∷ []

module _ {F : Type 0} ⦃r : Runtime F⦄ where
  -- The texts of `default_evidence`, each kept once.
  add_evidence : List String → List (Value F) → List String
  add_evidence known [] = known
  add_evidence known (v ∷ vs) =
      add_evidence
        (let t = strip (text_or_empty v) in
          if is_text t && not (mem t known) then known ++ t ∷ [] else known)
        vs

  unfoldable pub required_of : List String → List (Value F) → Result (List String)
  unfolding add_evidence
  required_of known [] = ok known
  required_of known (hit ∷ hits) = do
    given ← iterate_or_empty (get "default_evidence" (get "metadata" hit))
    required_of (add_evidence known given) hits

  add_citations : List (Value F) → List (Value F) → List (Value F)
  add_citations known [] = known
  add_citations known (c ∷ cs) =
      add_citations (if any (r.equal c) known then known else known ++ c ∷ []) cs

  unfoldable pub citations_of : List (Value F) → List (Value F) → List (Value F)
  unfolding add_citations
  citations_of known [] = known
  citations_of known (hit ∷ hits) =
      citations_of (add_citations known (traceable_citations hit)) hits

  best_from : F → List (Value F) → F
  best_from top [] = top
  best_from top (hit ∷ hits) = best_from (max top (score_value (get "rerank_score" hit))) hits

  -- `max(…, default=d)`
  best : F → List (Value F) → F
  unfolding best_from
  best d [] = d
  best d (hit ∷ hits) = best_from (score_value (get "rerank_score" hit)) hits

  match_score : String → List (Value F) → F
  unfolding best
  match_score mode trusted =
      if str_eq mode "multi_query_rrf"
      then (if nonempty trusted then r.one else r.nought)
      else best r.nought trusted

  unfoldable pub failed_policy : PolicyTask → ToolResult F → PolicyAssessment F
  failed_policy task result = record {
    context_version = task.context_version;
    success = false;
    trusted_policy_eligible = false;
    policy_version_matched = false;
    filter_level = none;
    reranker_succeeded = false;
    retrieval_mode = none;
    policy_match_score = r.nought;
    policy_threshold = r.decimal 55 2;
    required_evidence = [];
    citations = [];
    uncertainty_reasons = or_text result.error_category "policy_tool_failed" ∷ [];
    raw_summary = [];
  }

  -- The filter level of the whole result.
  level_of : Value F → Option String
  level_of knowledge = nonblank (
      text (
        or_else (or_else (get "filter_level" knowledge) (get "relaxation_level" knowledge))
          (str "")))

  unfoldable pub trusted_of : PolicyTask → Value F → List (Value F) → List (Value F)
  trusted_of task knowledge hits =
      keep (is_trusted_hit task knowledge (text_or_empty (get "mode" knowledge))) hits

  unfoldable pub is_eligible : Value F → List (Value F) → Bool
  unfolding mem level_of
  is_eligible knowledge trusted =
      nonempty trusted
      && is_true (get "trusted_policy_eligible" knowledge)
      && opt_is (level_of knowledge) "strict"
      && mem (text_or_empty (get "mode" knowledge)) trusted_modes

  -- A score of the whole result is too large for a float.
  unfoldable pub result_overflows : Value F → List (Value F) → Bool
  result_overflows knowledge trusted =
      (not (str_eq (text_or_empty (get "mode" knowledge)) "multi_query_rrf")
        && any (λ hit. score_overflows (get "rerank_score" hit)) trusted)
      || score_overflows (or_else (get "threshold" knowledge) (float (r.decimal 55 2)))

  unfoldable pub assess_hits : PolicyTask → Value F → List (Value F) → Result (PolicyAssessment F)
  unfolding hit_overflows result_overflows trusted_of is_eligible level_of required_of citations_of
      match_score score_value
  assess_hits task knowledge hits = do
    raise_if (any (hit_overflows task knowledge (text_or_empty (get "mode" knowledge))) hits)
        overflow_error
    let trusted = trusted_of task knowledge hits
    required ← required_of [] trusted
    raise_if (result_overflows knowledge trusted) overflow_error
    ok (record {
      context_version = task.context_version;
      success = true;
      trusted_policy_eligible = is_eligible knowledge trusted;
      policy_version_matched = nonempty trusted;
      filter_level = level_of knowledge;
      reranker_succeeded = is_true (get "reranker_succeeded" knowledge);
      retrieval_mode = nonblank (text_or_empty (get "mode" knowledge));
      policy_match_score = match_score (text_or_empty (get "mode" knowledge)) trusted;
      policy_threshold = score_value (or_else (get "threshold" knowledge) (float (r.decimal 55 2)));
      required_evidence = required;
      citations = citations_of [] trusted;
      uncertainty_reasons =
          reason_if (not (is_eligible knowledge trusted)) "policy_not_strictly_trusted";
      raw_summary = ("hits_count", length hits) ∷ ("trusted_hits_count", length trusted) ∷ [];
    })

  -- `PolicyEvaluator.assess`
  unfoldable pub assess : PolicyTask → ToolResult F → Result (PolicyAssessment F)
  unfolding assess_hits failed_policy
  assess task result =
      if not result.ok || not (is_dict result.data_value)
      then ok (failed_policy task result)
      else do
        hits ← iterate_or_empty (get "hits" result.data_value)
        assess_hits task result.data_value (dicts hits)
