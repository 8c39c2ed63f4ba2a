-- ===== src/Rewriting/Prompt.antt =====
-- What the model is asked: `_summarize_hits`, `_allowlisted_facts` and `_retrieval_contract`.
use ecommerce_after_sales_sy.Prelude.{
  ℕ, String, Bool, false, not, List, keep, map, take, ltb, if◌then◌else◌,
}
use ecommerce_after_sales_sy.Python.Text.{slice_to}
use ecommerce_after_sales_sy.Python.Value.{
  Value, null, bool, str, arr, obj, Fields, end, field, get, get_default, is_dict, is_str, is_true,
  items,
}
use ecommerce_after_sales_sy.Python.Runtime.{Runtime}
use ecommerce_after_sales_sy.Python.Convert.{truthy, text_or_empty, items_of}
use ecommerce_after_sales_sy.Rewriting.Query.{clean_text}

-- The fields of `RagQueryRewriteService`; a limit that is negative acts as 0.
pub record RewriteLimits : Type 0 where
  pub max_candidates : ℕ
  pub max_hit_summaries : ℕ
  pub max_snippet_chars : ℕ

abbrev pub at_least_one_of : ℕ → ℕ
at_least_one_of n = if ltb 1 n then n else 1

module _ {F : Type 0} ⦃r : Runtime F⦄ where
  -- A field where the citation has it.
  abbrev cited : String → Value F → Fields F → Fields F
  cited key citation rest =
      if truthy (get key citation)
      then field key (str (slice_to 120 (text_or_empty (get key citation)))) rest
      else rest

  abbrev safe_citation : Value F → Value F
  safe_citation c = obj (cited "source_code" c (cited "chunk_id" c (cited "document_id" c end)))

  abbrev safe_citations : Value F → List (Value F)
  safe_citations v = map safe_citation (keep is_dict (take 3 (items v)))

  abbrev summary : ℕ → Value F → Value F
  summary snippet_chars hit = obj (
      field "title" (str (clean_text (get "title" hit) 200)) (
        field "snippet" (str (clean_text (get "snippet" hit) snippet_chars)) (
          field "score" (get_default "rerank_score" hit (get "score" hit))
            (field "citations" (arr (items_of (safe_citations (get "citations" hit)))) end))))

  -- `_summarize_hits`
  unfoldable pub summarize_hits : RewriteLimits → Value F → List (Value F)
  unfolding clean_text slice_to
  summarize_hits limits result =
      map (summary (at_least_one_of limits.max_snippet_chars))
        (keep is_dict (take (at_least_one_of limits.max_hit_summaries) (items (get "hits" result))))

  -- `facts.get(key) not in (None, "")`
  abbrev is_known : Value F → Bool
  is_known null = false
  is_known v = not (is_str v "")

  abbrev fact : Value F → String → Fields F → Fields F
  fact facts key rest =
      if is_known (get key facts)
      then field key (str (clean_text (get key facts) 200)) rest
      else rest

  -- `_allowlisted_facts`; the order of its keys is that of a set.
  unfoldable pub allowlisted_facts : Value F → Fields F
  unfolding clean_text
  allowlisted_facts facts = fact facts "product_name" (
      fact facts "product_category" (
        fact facts "issue_type"
          (fact facts "after_sales_type" (fact facts "scene" (fact facts "intent" end)))))

  -- `_retrieval_contract`
  unfoldable pub retrieval_contract : Value F → Value F
  unfolding slice_to
  retrieval_contract result = obj (
      field "mode" (str (slice_to 80 (text_or_empty (get "mode" result)))) (
        field "no_answer" (bool (is_true (get "no_answer" result))) (
          field "filter_level" (str (slice_to 40 (text_or_empty (get "filter_level" result)))) (
            field "reranker_succeeded" (bool (is_true (get "reranker_succeeded" result))) (
              field "trusted_policy_eligible"
                (bool (is_true (get "trusted_policy_eligible" result))) end)))))
