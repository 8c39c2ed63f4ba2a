-- ===== src/FormalReview/Workflow/Failure.antt =====
-- application/rag_retrieval_policy.py: which results of a retrieval are failures of the infrastructure.
use ecommerce_after_sales_sy.Prelude.{String, Bool, ◌||◌, List, [], ◌∷◌}
use ecommerce_after_sales_sy.Python.Text.{strip, mem, has_suffix, contains}
use ecommerce_after_sales_sy.Python.Value.{Value, get}
use ecommerce_after_sales_sy.Python.Runtime.{Runtime}
use ecommerce_after_sales_sy.Python.Convert.{upper, lower, text_or_empty}

abbrev infrastructure_failures : List String
infrastructure_failures =
    "EMPTY_QUERY" ∷ "PGVECTOR_NOT_CONFIGURED" ∷ "PGVECTOR_DEPENDENCY_MISSING" ∷ "EMBEDDING_ERROR"
    ∷ "PGVECTOR_ERROR" ∷ "LEXICAL_ERROR" ∷ "LEXICAL_NOT_CONFIGURED" ∷ "LEXICAL_DEPENDENCY_MISSING"
    ∷ "LEXICAL_FALLBACK_ONLY" ∷ "LOCAL_JSON_MISSING" ∷ "LOCAL_FALLBACK_ONLY" ∷ "UNEXPECTED_ERROR"
    ∷ []

unfoldable pub names_failure : String → Bool
unfolding has_suffix contains mem
names_failure mode =
    has_suffix "_error" mode
    || has_suffix "_not_configured" mode
    || has_suffix "_dependency_missing" mode
    || contains "degraded" mode
    || mem mode ("embedding_error" ∷ "skipped" ∷ [])

module _ {F : Type 0} ⦃r : Runtime F⦄ where
  unfoldable pub is_failure_mode : Value F → Bool
  unfolding strip lower names_failure
  is_failure_mode value = names_failure (lower r.other_lower (strip (text_or_empty value)))

  unfoldable pub is_infrastructure_failure : Value F → Bool
  unfolding strip upper mem is_failure_mode
  is_infrastructure_failure result =
      mem (upper r.other_upper (strip (text_or_empty (get "failure_reason" result))))
        infrastructure_failures
      || is_failure_mode (get "mode" result)
