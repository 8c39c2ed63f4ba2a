-- ===== src/Tests/Consultation.antt =====
-- The consultation with a registry that knows a policy, and with one that knows nothing.
use ecommerce_after_sales_sy.Prelude.{
  ℕ, ◌≡◌, refl, String, true, false, none, some, List, [], ◌∷◌, ◌++◌,
}
use ecommerce_after_sales_sy.Python.Text.{strip, mem, contains}
use ecommerce_after_sales_sy.Python.Value.{Value, bool, str, arr, obj, nil, cons, end, field}
use ecommerce_after_sales_sy.Python.Convert.{upper}
use ecommerce_after_sales_sy.Python.Result.{ok, raise, rag_rewrite_error}
use ecommerce_after_sales_sy.FormalReview.Contracts.{ToolResult}
use ecommerce_after_sales_sy.FormalReview.Evaluate.Citation.{is_traceable}
use ecommerce_after_sales_sy.FormalReview.Workflow.Failure.{is_infrastructure_failure}
use ecommerce_after_sales_sy.FormalReview.Workflow.Ports.{ToolCall}
use ecommerce_after_sales_sy.Consultation.Flow.{Calls}
use ecommerce_after_sales_sy.Consultation.Hits.{
  citations, citations_from, add_citations, is_eligible_result, keep_trusted, trusted_hits,
}
use ecommerce_after_sales_sy.Consultation.Ports.{ConsultationWorkflow, Reply, trace_entry, result}
use ecommerce_after_sales_sy.Consultation.Handoff.{confirmed, handoff_call, handed_off, handoff}
use ecommerce_after_sales_sy.Consultation.Rewrite.{Found, retrieve_call}
use ecommerce_after_sales_sy.Consultation.Answer.{
  explicit_human_request, generate_answer, append_call, answered, answer, find_knowledge, consult,
  handle_core,
}
use ecommerce_after_sales_sy.Consultation.Served.{Answered}
use ecommerce_after_sales_sy.Consultation.Replies.{
  answers_rest_on_trusted_hits, human_mode_is_confirmed,
}
use ecommerce_after_sales_sy.Consultation.Order.{Ordered, handle_core-Ordered}
use ecommerce_after_sales_sy.Tests.Demo.{demo, skill}

abbrev hit : Value ℕ
hit = obj (
    field "source_type" (str "after_sales_policy") (
      field "trusted_policy_eligible" (bool true) (
        field "relaxation_level" (str "strict") (
          field "citations"
            (arr
              (cons (obj (field "source_code" (str "P1") (field "chunk_id" (str "c1") end))) nil))
            end))))

abbrev knowledge : Value ℕ
knowledge = obj (
    field "trusted_policy_eligible" (bool true) (
      field "filter_level" (str "strict") (
        field "reranker_succeeded" (bool true) (
          field "mode" (str "hybrid_reranked")
            (field "hits" (arr (cons hit nil)) (field "mode" (str "HUMAN") end))))))

abbrev returns : Value ℕ → ToolResult ℕ
returns v = record {
  ok = true;
  name = "tool";
  data_value = v;
  error = none;
  error_code = none;
  error_category = none;
  retryable = false;
}

abbrev workflow : Value ℕ → ConsultationWorkflow ℕ
workflow data_value = record {
  tools = λ calls c. returns data_value;
  llm = λ p. ok (field "assistant_reply" (str "Within seven days.") end);
  select_skill = λ stage. some skill;
  rag_rewrite_service = some (λ q. raise rag_rewrite_error);
  dumps = λ v. "{}";
}

abbrev knows : ConsultationWorkflow ℕ
knows = workflow knowledge

abbrev human : ConsultationWorkflow ℕ
human = workflow (obj (field "mode" (str "HUMAN") end))

abbrev asks : String → Value ℕ
asks message = obj (field "message" (str message) end)

abbrev found : Found ℕ
found = record {
  knowledge = knowledge;
  trusted = hit ∷ [];
  entries =
      trace_entry (returns knowledge) (retrieve_call knows (asks "return?") "return?").arguments
      ∷ [];
}

abbrev cited : List (Value ℕ)
cited = obj (field "source_code" (str "P1") (field "chunk_id" (str "c1") end)) ∷ []

abbrev appended : ToolCall ℕ
appended = append_call knows (asks "return?") "return?" found cited "Within seven days."

abbrev reply : Reply ℕ
reply =
    answered knows (asks "return?") found cited skill "Within seven days."
      (found.entries ++ trace_entry (returns knowledge) appended.arguments ∷ []) (returns knowledge)

abbrev calls : Calls ℕ
calls = appended ∷ retrieve_call knows (asks "return?") "return?" ∷ []

answers : handle_core knows (asks "return?") [] ≡ (ok reply, calls)
unfolding handle_core strip explicit_human_request contains consult find_knowledge trusted_hits
    is_eligible_result mem keep_trusted citations citations_from add_citations is_traceable answer
    generate_answer is_infrastructure_failure
answers = refl

answers_rest_on_trusted_hits_example : Answered knows reply calls
unfolding strip answered result
answers_rest_on_trusted_hits_example =
    answers_rest_on_trusted_hits knows (asks "return?") [] calls reply answers refl refl

abbrev called : ToolCall ℕ
called = handoff_call human (asks "转人工") "explicit_human_request"

abbrev handed : Reply ℕ
handed =
    handed_off human (asks "转人工") [] "explicit_human_request" skill
      (returns (obj (field "mode" (str "HUMAN") end)))

hands_over : handle_core human (asks "转人工") [] ≡ (ok handed, called ∷ [])
unfolding handle_core strip explicit_human_request contains handoff
hands_over = refl

human_mode_is_confirmed_example :
    (c : ToolCall ℕ) × (earlier_calls : Calls ℕ) × (called ∷ [] ≡ c ∷ earlier_calls)
    × (c.name ≡ "handoff_to_human")
    × (handed.need_human ≡ true)
    × (confirmed human (human.tools earlier_calls c) ≡ true)
unfolding handed_off result confirmed upper
human_mode_is_confirmed_example =
    human_mode_is_confirmed human (asks "转人工") [] (called ∷ []) handed hands_over refl

handle_core-Ordered_example : Ordered knows [] (handle_core knows (asks "return?") []).1
handle_core-Ordered_example = handle_core-Ordered knows [] (asks "return?")
