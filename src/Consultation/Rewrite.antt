-- ===== src/Consultation/Rewrite.antt =====
-- `_rewrite_and_retrieve`.
use ecommerce_after_sales_sy.Prelude.{
  String, ◌&&◌, none, some, List, [], ◌∷◌, keep, map, take, nonempty, if◌then◌else◌,
}
use ecommerce_after_sales_sy.Python.Text.{strip, is_text}
use ecommerce_after_sales_sy.Python.Value.{
  pos, Value, int, str, arr, obj, Fields, end, field, get, is_dict,
}
use ecommerce_after_sales_sy.Python.Result.{Result, ok, raise, rag_rewrite_error}
use ecommerce_after_sales_sy.Python.Runtime.{Runtime}
use ecommerce_after_sales_sy.Python.Convert.{or_else, text_or_empty, items_of}
use ecommerce_after_sales_sy.FormalReview.Contracts.{ToolResult}
use ecommerce_after_sales_sy.FormalReview.Workflow.PolicyState.{RewriteDecision}
use ecommerce_after_sales_sy.FormalReview.Workflow.Ports.{ToolCall}
use ecommerce_after_sales_sy.Consultation.Flow.{Run, return, lift, call, ◌>>=◌}
use ecommerce_after_sales_sy.Consultation.Hits.{trusted_hits}
use ecommerce_after_sales_sy.Consultation.Ports.{
  RewriteQuestion, ConsultationWorkflow, ChatTraceEntry, trace_entry, context_of, order_of,
}

-- The knowledge that was found, its trusted hits, and the entries of the trace.
pub record Found (F : Type 0) : Type 0 where
  pub knowledge : Value F
  pub trusted : List (Value F)
  pub entries : List (ChatTraceEntry F)

abbrev pub nothing_found : {F : Type 0} → Value F → Found F
nothing_found knowledge = record { knowledge = knowledge; trusted = []; entries = [] }

-- The decision's queries that are not blank, or none where the rewriting fails.
abbrev pub queries_or_none : Result RewriteDecision → Result (List String)
queries_or_none (ok d) = ok (keep (λ q. is_text (strip q)) d.queries)
queries_or_none (raise rag_rewrite_error) = ok []
queries_or_none (raise e) = raise e

module _ {F : Type 0} ⦃r : Runtime F⦄ (flow : ConsultationWorkflow F) where
  abbrev user_id : Value F → Value F
  user_id payload = str (text_or_empty (get "user_id" payload))

  -- `retrieval_arguments` behind the query
  abbrev filters : Value F → Fields F
  filters payload =
      let order = order_of payload in
      let context = context_of payload in
      field "merchant_code" (or_else (get "merchant_code" order) (get "merchant_code" context)) (
        field "product_category"
          (or_else (or_else (get "category" order) (get "product_category" order))
            (get "product_category" context))
          (field "source_type" (str "after_sales_policy") (
            field "policy_version"
              (or_else (get "policy_version" order) (get "policy_version" context))
              (field "as_of_time"
                (or_else (get "business_time" order) (get "business_time" context))
                (field "top_k" (int (pos 5)) end)))))

  unfoldable pub retrieve_call : Value F → String → ToolCall F
  retrieve_call payload message = record {
    name = "retrieve_knowledge";
    arguments =
        obj (field "user_id" (user_id payload) (field "query" (str message) (filters payload)));
  }

  unfoldable pub multi_call : Value F → String → List String → ToolCall F
  multi_call payload message queries = record {
    name = "retrieve_knowledge_multi";
    arguments = obj (
        field "user_id" (user_id payload) (
          field "original_query" (str message)
            (field "queries" (arr (items_of (map str (take 3 queries)))) (filters payload))));
  }

  abbrev rewrite_question : Value F → String → Value F → RewriteQuestion F
  rewrite_question payload message knowledge =
      let order = order_of payload in
      record {
        user_question = text_or_empty (get "message" payload);
        known_facts = obj (
            field "product_name" (get "product_name" order) (
              field "product_category"
                (or_else (get "category" order) (get "product_category" order))
                (field "after_sales_type" (get "after_sales_type" order) end)));
        original_query = message;
        retrieval_result = knowledge;
      }

  -- The queries of the service, if there is one.
  abbrev pub rewritten_queries : Value F → String → Value F → Result (List String)
  rewritten_queries payload message knowledge = elim flow.rag_rewrite_service [
    | none ↦ ok []
    | some evaluate ↦ queries_or_none (evaluate (rewrite_question payload message knowledge))
  ]

  -- What is assessed behind the second retrieval.
  abbrev pub rewritten_knowledge : Value F → ToolResult F → Value F
  rewritten_knowledge knowledge answer =
      if answer.ok && is_dict answer.data_value then answer.data_value else knowledge

  unfoldable pub retrieve_rewritten : Value F → String → Value F → List String → Run F (Found F)
  unfolding trusted_hits multi_call
  retrieve_rewritten payload message knowledge queries = do
    answer ← call flow.tools (multi_call payload message queries)
    hits ← lift (trusted_hits (rewritten_knowledge knowledge answer))
    return (record {
      knowledge = rewritten_knowledge knowledge answer;
      trusted = hits;
      entries = trace_entry answer (multi_call payload message queries).arguments ∷ [];
    })

  -- `_rewrite_and_retrieve`
  unfoldable pub rewrite_and_retrieve : Value F → String → Value F → Run F (Found F)
  unfolding strip retrieve_rewritten
  rewrite_and_retrieve payload message knowledge = do
    queries ← lift (rewritten_queries payload message knowledge)
    if nonempty queries
        then retrieve_rewritten payload message knowledge queries
        else return (nothing_found knowledge)
