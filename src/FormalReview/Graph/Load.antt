-- ===== src/FormalReview/Graph/Load.antt =====
-- graph.py: `load_trusted_context`, `validate_review_inputs`, `sop_plan`, the two tasks, and the
-- nodes that hand them to the policy and evidence workflows.
use Prim.Native.String.{◌++◌ as append}
use ecommerce_after_sales_sy.Prelude.{
  String, true, false, not, ◌||◌, Option, some, List, [], ◌∷◌, ◌++◌, nonempty, str_eq,
  if◌then◌else◌,
}
use ecommerce_after_sales_sy.Python.Text.{is_text, strip, slice_to}
use ecommerce_after_sales_sy.Python.Value.{Value, get, is_dict}
use ecommerce_after_sales_sy.Python.Result.{Result, ok, ◌>>=◌}
use ecommerce_after_sales_sy.Python.Runtime.{Runtime}
use ecommerce_after_sales_sy.Python.Convert.{text_or_empty, nonblank}
use ecommerce_after_sales_sy.FormalReview.Contracts.{
  TrustedCaseContext, PolicyTask, EvidenceTask, ToolResult,
}
use ecommerce_after_sales_sy.FormalReview.Context.{from_ticket}
use ecommerce_after_sales_sy.FormalReview.Sop.{plan, reason_if}
use ecommerce_after_sales_sy.FormalReview.Graph.State.{
  Call, get_after_sales_ticket, FormalReviewState, Collaborators, Settings, Machine, GateAction,
  need, or_text,
}

module _ {F : Type 0} ⦃r : Runtime F⦄ where
  unfoldable pub missing_inputs : Value F → TrustedCaseContext F → List String
  unfolding strip
  missing_inputs ticket context =
      reason_if
        (not (
          is_text (strip (text_or_empty (get "reason_detail" ticket)))
          || is_text (strip (text_or_empty (get "description" ticket)))))
        "问题描述"
      ++ reason_if (not (nonempty context.attachments)) "商品问题图片"

  unfoldable pub validate_review_inputs : FormalReviewState F → Result (FormalReviewState F)
  unfolding missing_inputs
  validate_review_inputs s = do
    context ← need "trusted_context" s.trusted_context
    let missing = missing_inputs s.ticket_data context
    if nonempty missing
        then ok (record s {
          gate_action = GateAction.request_evidence;
          gate_reasons = "evidence_missing" ∷ [];
          evidence_needed = missing;
          need_human = false;
        })
        else ok (record s { evidence_needed = [] })

  unfoldable pub sop_plan : FormalReviewState F → Result (FormalReviewState F)
  sop_plan s = do
    context ← need "trusted_context" s.trusted_context
    ok (record s { workflow_plan = some (plan context s.issue) })

module _ {F : Type 0} ⦃r : Runtime F⦄ (env : Collaborators F) (cfg : Settings F) where
  abbrev pub ticket_call : FormalReviewState F → Call F
  ticket_call s = get_after_sales_ticket (record {
    user_id = text_or_empty (get "user_id" s.payload);
    ticket_id = text_or_empty (get "ticket_id" s.payload);
    order_id = get "order_id" s.payload;
  })

  abbrev pub ticket_traced : FormalReviewState F → ToolResult F → FormalReviewState F
  ticket_traced s result = record s {
    tool_trace = (record { tool = ticket_call s; result = result }) ∷ [];
  }

  -- The branch on the status of the ticket that was read.
  unfoldable pub accept_context :
      FormalReviewState F → Value F → TrustedCaseContext F → FormalReviewState F
  accept_context s ticket context =
      if str_eq context.ticket_status "PENDING" || str_eq context.ticket_status "PENDING_REVIEW"
      then record s {
        ticket_data = ticket;
        trusted_context = some context;
        issue = context.issue_description;
      }
      else record s {
        ticket_data = ticket;
        trusted_context = some context;
        failure_reason = some "ticket_status_changed";
        gate_action = GateAction.manual_review;
        gate_reasons = "ticket_status_changed" ∷ [];
        need_human = true;
      }

  -- `load_trusted_context`, after the answer to its call
  unfoldable pub receive_ticket : FormalReviewState F → ToolResult F → Result (FormalReviewState F)
  unfolding accept_context
  receive_ticket s result =
      let t = ticket_traced s result in
      if not result.ok || not (is_dict result.data_value)
      then ok (record t {
        failure_reason = some (or_text result.error_category "ticket_lookup_failed");
        gate_action = GateAction.manual_review;
        gate_reasons = "trusted_context_unavailable" ∷ [];
        need_human = true;
      })
      else do
        context ← from_ticket cfg.tool_base_url s.payload result.data_value
        ok (accept_context t result.data_value context)

  unfoldable pub load_trusted_context : Machine F → Result (Machine F)
  unfolding receive_ticket
  load_trusted_context m = do
    s ← receive_ticket m.state (env.call m.calls (ticket_call m.state))
    ok (record { state = s; calls = ticket_call m.state ∷ m.calls })

  -- `_workflow_task_id`
  workflow_task_id : String → String → String → String
  workflow_task_id request specialist version =
      slice_to 24
        (r.digest_text (append request (append ":" (append specialist (append ":" version)))))

  -- `_state_trace_id`
  state_trace_id : Machine F → Option String
  state_trace_id m =
      if is_text m.state.trace_id
      then some m.state.trace_id
      else nonblank (env.current_trace_id m.calls)

  -- `_formal_skill_instructions`
  skill_instructions : String → Result String
  skill_instructions reference = do
    loaded ← env.load_reference cfg.formal_review_skill.name reference
    ok (append "按需加载的工作流参考（" (append reference (append "）：\n" loaded)))

  -- `_policy_task`
  unfoldable pub policy_task : Machine F → Result PolicyTask
  unfolding workflow_task_id state_trace_id skill_instructions
  policy_task m = do
    context ← need "trusted_context" m.state.trusted_context
    review_plan ← need "workflow_plan" m.state.workflow_plan
    instructions ← skill_instructions "policy-workflow.md"
    let request = text_or_empty (get "review_request_id" m.state.payload)
    ok (record {
      task_id = workflow_task_id request "POLICY" context.context_version;
      trace_id = state_trace_id m;
      review_request_id = request;
      ticket_id = context.ticket_id;
      context_version = context.context_version;
      user_id = context.user_id;
      issue = m.state.issue;
      query = review_plan.policy_query;
      merchant_code = context.merchant_code;
      product_name = context.product_name;
      product_category = context.product_category;
      after_sales_type = context.after_sales_type;
      policy_version = context.policy_version;
      business_time = context.business_time;
      skill_name = cfg.formal_review_skill.name;
      skill_version = cfg.formal_review_skill.version;
      skill_instructions = instructions;
    })

  -- `_evidence_task`
  unfoldable pub evidence_task : Machine F → Result (EvidenceTask F)
  unfolding workflow_task_id state_trace_id skill_instructions
  evidence_task m = do
    context ← need "trusted_context" m.state.trusted_context
    instructions ← skill_instructions "evidence-workflow.md"
    let request = text_or_empty (get "review_request_id" m.state.payload)
    ok (record {
      task_id = workflow_task_id request "EVIDENCE" context.context_version;
      trace_id = state_trace_id m;
      review_request_id = request;
      ticket_id = context.ticket_id;
      context_version = context.context_version;
      user_id = context.user_id;
      order_id = context.order_id;
      issue = m.state.issue;
      product_name = context.product_name;
      product_category = context.product_category;
      after_sales_type = context.after_sales_type;
      attachments = context.attachments;
      skill_name = cfg.formal_review_skill.name;
      skill_version = cfg.formal_review_skill.version;
      skill_instructions = instructions;
    })

  -- `policy_workflow_node` and `evidence_workflow_node`: the graph runs both from one state and
  -- joins what they write.
  unfoldable pub run_specialists : Machine F → Result (Machine F)
  run_specialists m = do
    ptask ← policy_task m
    p ← env.policy m.calls ptask
    etask ← evidence_task m
    e ← env.evidence m.calls etask
    ok (record m {
      state = record m.state { policy_assessment = some p; evidence_assessment = some e };
    })
