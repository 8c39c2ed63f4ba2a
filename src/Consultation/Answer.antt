-- ===== src/Consultation/Answer.antt =====
-- `_generate_answer`, `_explicit_human_request` and `_handle_core`. The steps of the trace are left out.
use ecommerce_after_sales_sy.Prelude.{
  String, Bool, false, not, ◌&&◌, ◌||◌, List, [], ◌∷◌, ◌++◌, length, take, drop, nonempty, ◌-◌,
  if◌then◌else◌,
}
use ecommerce_after_sales_sy.Python.Text.{strip, is_text, contains}
use ecommerce_after_sales_sy.Python.Value.{pos, Value, null, int, str, arr, obj, end, field, get}
use ecommerce_after_sales_sy.Python.Result.{Result, ok}
use ecommerce_after_sales_sy.Python.Result.{◌>>=◌ as bind}
use ecommerce_after_sales_sy.Python.Runtime.{Runtime}
use ecommerce_after_sales_sy.Python.Convert.{text_or_empty, iterate_or_empty, items_of}
use ecommerce_after_sales_sy.FormalReview.Contracts.{ToolResult}
use ecommerce_after_sales_sy.FormalReview.Graph.State.{AgentSkill, or_text}
use ecommerce_after_sales_sy.FormalReview.Workflow.Failure.{is_infrastructure_failure}
use ecommerce_after_sales_sy.FormalReview.Workflow.Ports.{ToolCall}
use ecommerce_after_sales_sy.Consultation.Flow.{Run, return, lift, call, ◌>>=◌}
use ecommerce_after_sales_sy.Consultation.Hits.{citations, trusted_hits}
use ecommerce_after_sales_sy.Consultation.Ports.{
  ConsultationWorkflow, ChatTraceEntry, trace_entry, Reply, dict_or_empty, result,
}
use ecommerce_after_sales_sy.Consultation.Handoff.{required_skill, conversation, handoff}
use ecommerce_after_sales_sy.Consultation.Rewrite.{Found, retrieve_call, rewrite_and_retrieve}

-- `_explicit_human_request`
unfoldable pub explicit_human_request : String → Bool
unfolding contains
explicit_human_request message =
    contains "转人工" message
    || contains "人工客服" message
    || contains "真人客服" message
    || contains "联系客服" message

-- `xs[-10:]`
abbrev last_ten : {A : Type 0} → List A → List A
last_ten xs = drop (length xs - 10) xs

module _ {F : Type 0} ⦃r : Runtime F⦄ (flow : ConsultationWorkflow F) where
  abbrev user_prompt : Value F → Value F → List (Value F) → List (Value F) → Value F
  user_prompt payload knowledge hits history = obj (
      field "question" (get "message" payload) (
        field "recent_history" (arr (items_of (last_ten history))) (
          field "knowledge_mode" (get "mode" knowledge)
            (field "trusted_hits" (arr (items_of (take 5 hits))) end))))

  abbrev reply_or_default : String → String
  reply_or_default reply = if is_text reply then reply else "已查询到相关售后政策，建议您按照政策要求准备对应的订单信息和问题凭证。"

  -- `_generate_answer`
  unfoldable pub generate_answer : Value F → Value F → List (Value F) → AgentSkill → Result String
  unfolding strip
  generate_answer payload knowledge hits skill =
      bind (iterate_or_empty (get "recent_history" payload)) (λ history.
        bind
          (flow.llm
            (record { skill = skill; user_prompt = user_prompt payload knowledge hits history }))
          (λ raw. ok (reply_or_default (strip (text_or_empty (get "assistant_reply" (obj raw)))))))

  -- What goes into the conversation.
  unfoldable pub append_call : Value F → String → Found F → List (Value F) → String → ToolCall F
  append_call payload message found cited reply = record {
    name = "append_chat_message";
    arguments = obj (
        conversation flow payload (
          field "role" (str "ASSISTANT") (
            field "content" (str reply) (
              field "message_type" (str "TEXT") (
                field "knowledge_query" (str message) (
                  field "knowledge_retrieval_mode" (get "mode" found.knowledge) (
                    field "knowledge_hit_count" (int (pos (length found.trusted))) (
                      field "knowledge_hits_json"
                        (str (flow.dumps (arr (items_of (take 5 found.trusted)))))
                        (field "knowledge_trace_json"
                          (str (flow.dumps (obj (field "citations" (arr (items_of cited)) end))))
                          end)))))))));
  }

  unfoldable pub answered :
      Value F
      → Found F
      → List (Value F)
      → AgentSkill
      → String
      → List (ChatTraceEntry F)
      → ToolResult F
      → Reply F
  unfolding result
  answered payload found cited skill reply trace persisted =
      result reply "AI" false trace
        (field "knowledge_mode" (get "mode" found.knowledge) (
          field "knowledge_hit_count" (int (pos (length found.trusted))) (
            field "policy_citations" (arr (items_of cited)) (
              field "skill_versions" (obj (field skill.name (str skill.version) end))
                (field "handoff_reason" null end)))))
        payload (dict_or_empty persisted.data_value)

  -- From the citations to the end, where there are trusted hits.
  unfoldable pub answer : Value F → String → Found F → Run F (Reply F)
  unfolding citations generate_answer append_call answered handoff
  answer payload message found = do
    cited ← lift (citations found.trusted)
    skill ← lift (required_skill flow "policy_explanation")
    reply ← lift (generate_answer payload found.knowledge found.trusted skill)
    persisted ← call flow.tools (append_call payload message found cited reply)
    let trace =
        found.entries
        ++ trace_entry persisted (append_call payload message found cited reply).arguments ∷ []
    if not persisted.ok
        then handoff flow payload trace "answer_persistence_failed"
        else return (answered payload found cited skill reply trace persisted)

  -- Where the first retrieval found nothing that is trusted, and did not fail.
  abbrev pub may_rewrite : ToolResult F → Value F → List (Value F) → Bool
  may_rewrite retrieval knowledge hits =
      not (nonempty hits) && retrieval.ok && not (is_infrastructure_failure knowledge)

  -- The trace of the first retrieval, before that of the second.
  abbrev pub behind : ChatTraceEntry F → Found F → Found F
  behind entry found = record {
    knowledge = found.knowledge;
    trusted = found.trusted;
    entries = entry ∷ found.entries;
  }

  abbrev handoff_reason : ToolResult F → String
  handoff_reason retrieval =
      if not retrieval.ok
      then or_text retrieval.error_category "knowledge_service_failed"
      else "knowledge_not_trusted"

  -- The retrieval, with the second one where it is wanted.
  unfoldable pub find_knowledge : Value F → String → ToolResult F → Run F (Found F)
  unfolding is_infrastructure_failure trusted_hits rewrite_and_retrieve
  find_knowledge payload message retrieval =
      let knowledge = if retrieval.ok then dict_or_empty retrieval.data_value else obj end in
      lift (trusted_hits knowledge) >>= (λ hits.
        if may_rewrite retrieval knowledge hits
        then rewrite_and_retrieve flow payload message knowledge
        else return (record { knowledge = knowledge; trusted = hits; entries = [] }))

  unfoldable pub consult : Value F → String → Run F (Reply F)
  unfolding retrieve_call find_knowledge answer handoff
  consult payload message = do
    retrieval ← call flow.tools (retrieve_call flow payload message)
    found ← find_knowledge payload message retrieval
    let all = behind (trace_entry retrieval (retrieve_call flow payload message).arguments) found
    if nonempty found.trusted
        then answer payload message all
        else handoff flow payload all.entries (handoff_reason retrieval)

  abbrev pub asks_for_message : Value F → Reply F
  unfolding result
  asks_for_message payload =
      result "请描述您需要咨询的售后政策问题。" "AI" false [] (field "handoff_reason" null end) payload (obj end)

  -- `_handle_core`
  unfoldable pub handle_core : Value F → Run F (Reply F)
  unfolding strip explicit_human_request consult handoff
  handle_core payload =
      let message = strip (text_or_empty (get "message" payload)) in
      if not (is_text message)
      then return (asks_for_message payload)
      else if explicit_human_request message
      then handoff flow payload [] "explicit_human_request"
      else consult payload message
