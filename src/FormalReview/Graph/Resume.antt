-- ===== src/FormalReview/Graph/Resume.antt =====
-- graph.py: the nodes that wait for a signal, and `prepare_resumed_attempt`.
use ecommerce_after_sales_sy.Prelude.{false, none, [], if◌then◌else◌}
use ecommerce_after_sales_sy.Python.Text.{is_text}
use ecommerce_after_sales_sy.Python.Value.{Value, null, obj, end, is_dict}
use ecommerce_after_sales_sy.FormalReview.Sop.{sop_review_mode}
use ecommerce_after_sales_sy.FormalReview.Graph.State.{
  FormalReviewState, Collaborators, Settings, Machine, GateAction,
}
use ecommerce_after_sales_sy.FormalReview.Graph.Java.{formal_skill_versions}

module _ {F : Type 0} where
  -- `await_evidence` and `await_newer_evidence`, after the interrupt was answered
  unfoldable pub take_signal : FormalReviewState F → Value F → FormalReviewState F
  take_signal s signal = record s { resume_signal = if is_dict signal then signal else obj end }

module _ {F : Type 0} (env : Collaborators F) (cfg : Settings F) where
  unfoldable pub prepare_resumed_attempt : Machine F → FormalReviewState F
  unfolding formal_skill_versions
  prepare_resumed_attempt m =
      let current = env.current_trace_id m.calls in
      record m.state {
        trace_id = if is_text current then current else m.state.trace_id;
        trusted_context = none;
        ticket_data = obj end;
        workflow_plan = none;
        policy_assessment = none;
        evidence_assessment = none;
        review_proposal = none;
        review_result = null;
        submission_outcome = "";
        gate_action = GateAction.unset;
        gate_reasons = [];
        evidence_needed = [];
        evidence_request_applied = false;
        evidence_request_outcome = "";
        need_human = false;
        failure_reason = none;
        final_reply = "";
        tool_trace = [];
        review_mode = sop_review_mode;
        escalation_reasons = [];
        skill_versions = formal_skill_versions cfg;
      }
