-- ===== src/Consultation/Handoff.antt =====
-- `_require_skill` and `_handoff`.
use Prim.Native.String.{◌++◌ as append}
use ecommerce_after_sales_sy.Prelude.{
  String, Bool, true, ◌&&◌, str_eq, Option, none, some, List, [], ◌∷◌, ◌++◌, if◌then◌else◌,
}
use ecommerce_after_sales_sy.Python.Text.{strip, join}
use ecommerce_after_sales_sy.Python.Value.{
  pos, Value, null, bool, int, str, arr, obj, nil, Fields, end, field, get, is_dict,
}
use ecommerce_after_sales_sy.Python.Result.{Result, ok, raise, runtime_error}
use ecommerce_after_sales_sy.Python.Runtime.{Runtime}
use ecommerce_after_sales_sy.Python.Convert.{or_else, text, text_or_empty, upper}
use ecommerce_after_sales_sy.FormalReview.Contracts.{ToolResult}
use ecommerce_after_sales_sy.FormalReview.Graph.State.{AgentSkill}
use ecommerce_after_sales_sy.FormalReview.Workflow.Ports.{ToolCall}
use ecommerce_after_sales_sy.Consultation.Flow.{Run, return, lift, call, ◌>>=◌}
use ecommerce_after_sales_sy.Consultation.Ports.{
  ConsultationWorkflow, ChatTraceEntry, trace_entry, Reply, dict_or_empty, result,
}

abbrev pub found_skill : String → Option AgentSkill → Result AgentSkill
found_skill stage none =
    raise (runtime_error (append "required consultation skill is missing: " stage))
found_skill stage (some skill) = ok skill

module _ {F : Type 0} ⦃r : Runtime F⦄ (flow : ConsultationWorkflow F) where
  -- `_require_skill`
  abbrev pub required_skill : String → Result AgentSkill
  required_skill stage = found_skill stage (flow.select_skill stage)

  -- Java has put the session into the mode HUMAN.
  unfoldable pub confirmed : ToolResult F → Bool
  unfolding upper
  confirmed answer =
      answer.ok
      && is_dict answer.data_value
      && str_eq (upper r.other_upper (text_or_empty (get "mode" answer.data_value))) "HUMAN"

  abbrev summary : Value F → String → String
  summary payload reason = join "\n" (
      append "用户诉求：" (strip (text (or_else (get "message" payload) (str "售后问题核对"))))
      ∷ "已核实：自动知识检索未形成可直接回答的可信结论。"
      ∷ "待核实：适用政策、订单事实及后续处理方案。"
      ∷ append "转人工原因：" reason
      ∷ "建议下一步：人工客服结合订单和有效政策继续核对。"
      ∷ [])

  -- The fields that say whose conversation it is.
  abbrev pub conversation : Value F → Fields F → Fields F
  conversation payload rest = field "user_id" (get "user_id" payload) (
      field "session_id" (get "session_id" payload) (
        field "order_id" (get "order_id" payload)
          (field "ticket_id" (get "ticket_id" payload) rest)))

  unfoldable pub handoff_call : Value F → String → ToolCall F
  unfolding strip join
  handoff_call payload reason = record {
    name = "handoff_to_human";
    arguments = obj (conversation payload (field "summary" (str (summary payload reason)) end));
  }

  -- The reply behind the handoff's call.
  unfoldable pub handed_off :
      Value F → List (ChatTraceEntry F) → String → AgentSkill → ToolResult F → Reply F
  unfolding confirmed result handoff_call
  handed_off payload trace reason skill answer =
      let done = confirmed answer in
      result (if done then "当前知识库无法可靠回答该问题，已为您转接人工客服继续核对。" else "当前问题需要人工进一步核对，但人工转接暂未确认成功，请稍后重试。")
        (if done then "HUMAN" else "AI") true
        (trace ++ trace_entry answer (handoff_call payload reason).arguments ∷ [])
        (field "knowledge_mode" null (
          field "knowledge_hit_count" (int (pos 0)) (
            field "policy_citations" (arr nil) (
              field "handoff_reason" (str reason) (
                field "handoff_succeeded" (bool done)
                  (field "skill_versions" (obj (field skill.name (str skill.version) end)) end))))))
        payload (dict_or_empty answer.data_value)

  -- `_handoff`
  unfoldable pub handoff : Value F → List (ChatTraceEntry F) → String → Run F (Reply F)
  unfolding handed_off
  handoff payload trace reason = do
    skill ← lift (required_skill "human_handoff")
    answer ← call flow.tools (handoff_call payload reason)
    return (handed_off payload trace reason skill answer)
