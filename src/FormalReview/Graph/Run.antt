-- ===== src/FormalReview/Graph/Run.antt =====
-- graph.py: the routing functions, the edges of `__post_init__`, `start`, `resume` and `_invoke`.
use ecommerce_after_sales_sy.Prelude.{
  is_some, ℕ, zero, suc, String, Bool, true, false, not, ◌&&◌, none, List, [], nonempty, str_eq,
  if◌then◌else◌,
}
use ecommerce_after_sales_sy.Python.Text.{is_text, strip}
use ecommerce_after_sales_sy.Python.Value.{Value, null, obj, end, get}
use ecommerce_after_sales_sy.Python.Result.{
  Result, ok, raise, value_error, runtime_error, ◌>>=◌, ◌>>◌, raise_if,
}
use ecommerce_after_sales_sy.Python.Runtime.{Runtime}
use ecommerce_after_sales_sy.Python.Convert.{text_or_empty}
use ecommerce_after_sales_sy.FormalReview.Sop.{sop_review_mode}
use ecommerce_after_sales_sy.FormalReview.Graph.State.{
  Call, approve, manual_review_required, FormalReviewState, Collaborators, Settings, Machine,
  GateAction, has_text,
}
use ecommerce_after_sales_sy.FormalReview.Graph.Load.{
  load_trusted_context, validate_review_inputs, sop_plan, run_specialists,
}
use ecommerce_after_sales_sy.FormalReview.Graph.Decide.{review_synthesis, deterministic_gate}
use ecommerce_after_sales_sy.FormalReview.Graph.Java.{stale, formal_skill_versions}
use ecommerce_after_sales_sy.FormalReview.Graph.Request.{request_evidence_node}
use ecommerce_after_sales_sy.FormalReview.Graph.Submit.{submit_verdict}
use ecommerce_after_sales_sy.FormalReview.Graph.Resume.{take_signal, prepare_resumed_attempt}

-- The node that runs next; `at_specialists` is the superstep of the two workflows, `at_end` is END.
pub data Position : Type 0 where
  at_context at_inputs at_plan at_specialists at_synthesis at_gate at_submit at_request : Position
  at_await at_newer at_prepare at_manual at_end : Position

abbrev pub route_after_action : GateAction → Position
route_after_action GateAction.submit_review = at_submit
route_after_action GateAction.request_evidence = at_request
route_after_action _ = at_manual

module _ {F : Type 0} where
  unfoldable pub route_after_context : FormalReviewState F → Position
  route_after_context s =
      if is_some s.trusted_context && not (has_text s.failure_reason) then at_inputs else at_manual

  unfoldable pub route_after_input_validation : FormalReviewState F → Position
  route_after_input_validation s = if nonempty s.evidence_needed then at_request else at_plan

  unfoldable pub route_after_gate : FormalReviewState F → Position
  route_after_gate s = route_after_action s.gate_action

  unfoldable pub route_after_evidence_request : FormalReviewState F → Position
  route_after_evidence_request s =
      if s.evidence_request_applied
      then at_await
      else if str_eq s.evidence_request_outcome stale
      then at_prepare
      else at_manual

  unfoldable pub route_after_submission : FormalReviewState F → Position
  route_after_submission s = if str_eq s.submission_outcome stale then at_newer else at_end

-- The graph stops at an interrupt and at END.
abbrev pub is_resting : Position → Bool
is_resting at_await = true
is_resting at_newer = true
is_resting at_end = true
is_resting _ = false

module _ {F : Type 0} ⦃r : Runtime F⦄ (env : Collaborators F) (cfg : Settings F) where
  abbrev pub Configuration : Type 0
  Configuration = Position × Machine F

  abbrev go : (FormalReviewState F → Position) → Machine F → Configuration
  go route m = (route m.state, m)

  abbrev with_state : Machine F → FormalReviewState F → Machine F
  with_state m s = record m { state = s }

  -- One superstep: a node, and the edge that leaves it.
  unfoldable pub step : Position → Machine F → Result Configuration
  step at_context m = do m' ← load_trusted_context env cfg m; ok (go route_after_context m')
  step at_inputs m = do
    s ← validate_review_inputs m.state
    ok (go route_after_input_validation (with_state m s))
  step at_plan m = do s ← sop_plan m.state; ok (at_specialists, with_state m s)
  step at_specialists m = do m' ← run_specialists env cfg m; ok (at_synthesis, m')
  step at_synthesis m = do m' ← review_synthesis env cfg m; ok (at_gate, m')
  step at_gate m = do s ← deterministic_gate cfg m.state; ok (go route_after_gate (with_state m s))
  step at_submit m = ok (go route_after_submission (submit_verdict env cfg m approve))
  step at_manual m =
      ok (go route_after_submission (submit_verdict env cfg m manual_review_required))
  step at_request m = do m' ← request_evidence_node env m; ok (go route_after_evidence_request m')
  step at_prepare m = ok (at_context, with_state m (prepare_resumed_attempt env cfg m))
  step at_await m = raise (runtime_error "interrupted")
  step at_newer m = raise (runtime_error "interrupted")
  step at_end m = raise (runtime_error "finished")

  -- `graph.invoke` with a limit on the supersteps, LangGraph's `recursion_limit`.
  unfoldable pub run : ℕ → Position → Machine F → Result Configuration
  run zero p m = if is_resting p then ok (p, m) else raise (runtime_error "GraphRecursionError")
  run (suc limit) p m = if is_resting p then ok (p, m) else (step p m >>= λ c. run limit c.0 c.1)

  -- The state that `start` hands to the graph.
  unfoldable pub initial_state : Value F → String → FormalReviewState F
  unfolding formal_skill_versions
  initial_state payload trace_id = record {
    payload = payload;
    trace_id = trace_id;
    trusted_context = none;
    ticket_data = obj end;
    issue = strip (text_or_empty (get "message" payload));
    workflow_plan = none;
    policy_assessment = none;
    evidence_assessment = none;
    review_proposal = none;
    gate_action = GateAction.unset;
    gate_reasons = [];
    evidence_needed = [];
    tool_trace = [];
    review_result = null;
    evidence_request_applied = false;
    evidence_request_outcome = "";
    final_reply = "";
    need_human = false;
    failure_reason = none;
    resume_signal = obj end;
    submission_outcome = "";
    review_mode = sop_review_mode;
    escalation_reasons = [];
    skill_versions = formal_skill_versions cfg;
  }

  -- `start`; `calls` are the calls of Java made before.
  unfoldable pub start : ℕ → Value F → String → List (Call F) → Result Configuration
  start limit payload trace_id calls = do
    raise_if (not (is_text (strip (text_or_empty (get "review_request_id" payload)))))
        (value_error "review_request_id is required")
    run limit at_context (record { state = initial_state payload trace_id; calls = calls })

  -- `resume`, of the configuration that the checkpointer kept
  unfoldable pub resume : ℕ → String → Value F → Machine F → Result Configuration
  resume limit review_id signal m = do
    raise_if (not (is_text (strip review_id))) (value_error "review_id is required")
    raise_if (not cfg.durable_checkpointer)
        (runtime_error "durable checkpointer is required to resume a review")
    run limit at_prepare (with_state m (take_signal m.state signal))
