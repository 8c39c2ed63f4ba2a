-- ===== src/Consultation/Ports.antt =====
-- What the consultation relies on, and what it replies.
use ecommerce_after_sales_sy.Prelude.{
  String, Bool, true, false, not, Option, some, List, if◌then◌else◌,
}
use ecommerce_after_sales_sy.Python.Value.{Value, null, str, obj, Fields, end, field, get, is_dict}
use ecommerce_after_sales_sy.Python.Result.{Result}
use ecommerce_after_sales_sy.Python.Runtime.{Runtime}
use ecommerce_after_sales_sy.Python.Convert.{or_else, text, text_or_empty, nonblank}
use ecommerce_after_sales_sy.FormalReview.Contracts.{ToolResult}
use ecommerce_after_sales_sy.FormalReview.Graph.State.{AgentSkill}
use ecommerce_after_sales_sy.FormalReview.Workflow.PolicyState.{RewriteDecision}
use ecommerce_after_sales_sy.FormalReview.Workflow.Ports.{Tools}

-- What `evaluate` of the rewriting is given that is not fixed.
pub record RewriteQuestion (F : Type 0) : Type 0 where
  pub user_question : String
  pub known_facts : Value F
  pub original_query : String
  pub retrieval_result : Value F

-- What the model is asked: the texts that are not fixed.
pub record AnswerPrompt (F : Type 0) : Type 0 where
  pub skill : AgentSkill
  pub user_prompt : Value F

-- The fields of `ConsultationWorkflow`, and `json.dumps(v, ensure_ascii=False, default=str)`.
pub record ConsultationWorkflow (F : Type 0) : Type 0 where
  pub tools : Tools F
  pub llm : AnswerPrompt F → Result (Fields F)
  pub select_skill : String → Option AgentSkill
  pub rag_rewrite_service : Option (RewriteQuestion F → Result RewriteDecision)
  pub dumps : Value F → String

-- `_trace_entry`
pub record ChatTraceEntry (F : Type 0) : Type 0 where
  pub tool : String
  pub arguments : Value F
  pub ok : Bool
  pub data_value : Value F
  pub error : Option String
  pub error_code : Option String
  pub error_category : Option String
  pub retryable : Bool

abbrev pub trace_entry : {F : Type 0} → ToolResult F → Value F → ChatTraceEntry F
trace_entry result arguments = record {
  tool = result.name;
  arguments = arguments;
  ok = result.ok;
  data_value = result.data_value;
  error = result.error;
  error_code = result.error_code;
  error_category = result.error_category;
  retryable = result.retryable;
}

-- The reply; `ticket`, `review_result` and `ticket_no` are None, and no evidence is needed.
pub record Reply (F : Type 0) : Type 0 where
  pub assistant_reply : String
  pub session_mode : String
  pub need_human : Bool
  pub tool_trace : List (ChatTraceEntry F)
  pub session_id : Option String
  pub raw : Fields F

abbrev pub is_null : {F : Type 0} → Value F → Bool
is_null null = true
is_null _ = false

-- `data if isinstance(data, dict) else {}`
abbrev pub dict_or_empty : {F : Type 0} → Value F → Value F
dict_or_empty v = if is_dict v then v else obj end

module _ {F : Type 0} ⦃r : Runtime F⦄ where
  abbrev pub session_of : Value F → Value F → Option String
  session_of persisted payload =
      let found = or_else (get "session_id" persisted) (get "sessionId" persisted) in
      if not (is_null found)
      then some (text found)
      else nonblank (text_or_empty (get "session_id" payload))

  -- `_result`, where `persistence` is a dictionary
  unfoldable pub result :
      String → String → Bool → List (ChatTraceEntry F) → Fields F → Value F → Value F → Reply F
  result reply session_mode need_human trace raw payload persistence = record {
    assistant_reply = reply;
    session_mode = session_mode;
    need_human = need_human;
    tool_trace = trace;
    session_id = session_of persistence payload;
    raw = field "runtime" (str "agentic_rag_chat") raw;
  }

  -- `payload.get("client_context")`, and its `selected_order_hint`
  abbrev pub context_of : Value F → Value F
  context_of payload = dict_or_empty (get "client_context" payload)

  abbrev pub order_of : Value F → Value F
  order_of payload = dict_or_empty (get "selected_order_hint" (context_of payload))
