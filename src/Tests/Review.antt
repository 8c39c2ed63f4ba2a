-- ===== src/Tests/Review.antt =====
-- The review graph at a ticket that is approved.
use ecommerce_after_sales_sy.Prelude.{ℕ, ◌≡◌, ◌≢◌, refl, [], All, arith}
use ecommerce_after_sales_sy.Python.Result.{Result, ok, raise, key_error}
use ecommerce_after_sales_sy.Python.Text.{strip, has_prefix, slice_to, join, dedup, mem}
use ecommerce_after_sales_sy.Python.Convert.{upper, lower}
use ecommerce_after_sales_sy.FormalReview.Context.{from_ticket, present, clean_string}
use ecommerce_after_sales_sy.FormalReview.Confidence.{
  apply_deterministic_confidence, confidence_of, contributions, policy_is_sound, evidence_is_sound,
}
use ecommerce_after_sales_sy.FormalReview.Score.{clamp, score_float}
use ecommerce_after_sales_sy.FormalReview.Requirement.{is_core_requirement}
use ecommerce_after_sales_sy.FormalReview.Sop.{plan, assess_escalation, build_routine_proposal}
use ecommerce_after_sales_sy.FormalReview.Graph.State.{Machine}
use ecommerce_after_sales_sy.FormalReview.Graph.Load.{
  load_trusted_context, validate_review_inputs, sop_plan, run_specialists, policy_task,
  evidence_task,
}
use ecommerce_after_sales_sy.FormalReview.Graph.Decide.{
  review_synthesis, with_unresolved, deterministic_gate,
}
use ecommerce_after_sales_sy.FormalReview.Graph.Submit.{submit_verdict}
use ecommerce_after_sales_sy.FormalReview.Graph.Run.{
  Position, at_context, at_end, step, run, initial_state, route_after_context,
  route_after_input_validation, route_after_gate, route_after_submission,
}
use ecommerce_after_sales_sy.FormalReview.Graph.Approved.{SubmitsJustified}
use ecommerce_after_sales_sy.FormalReview.Graph.Reach.{
  started, run-Reach, approvals_justified, step_finds_keys, NotKeyError,
}
use ecommerce_after_sales_sy.FormalReview.Graph.Sound.Reason.{AllRaise}
use ecommerce_after_sales_sy.FormalReview.Graph.Progress.{Ends, attempt-Ends}
use ecommerce_after_sales_sy.Tests.Demo.{demo, payload, env, cfg}

abbrev pub begun : Machine ℕ
begun = record { state = initial_state env cfg payload "trace"; calls = [] }

abbrev machine_of : Result (Position × Machine ℕ) → Machine ℕ
machine_of (ok c) = c.1
machine_of (raise e) = begun

abbrev approved : Machine ℕ
approved = machine_of (run env cfg 9 at_context begun)

-- The whole graph, from the ticket to the end.
run_approves : run env cfg 9 at_context begun ≡ ok (at_end, approved)
unfolding run step initial_state load_trusted_context from_ticket present clean_string upper lower
    strip has_prefix slice_to join dedup mem validate_review_inputs sop_plan plan run_specialists
    policy_task evidence_task review_synthesis with_unresolved assess_escalation is_core_requirement
    build_routine_proposal apply_deterministic_confidence confidence_of contributions
    policy_is_sound evidence_is_sound clamp score_float deterministic_gate submit_verdict
    route_after_context route_after_input_validation route_after_gate route_after_submission
run_approves = refl

approvals_justified_example : All (SubmitsJustified cfg) approved.calls
approvals_justified_example =
    approvals_justified env cfg (run-Reach env cfg 9 (started payload "trace") run_approves)

quiet : AllRaise env NotKeyError
quiet = record {
  policy = λ h t. tt;
  evidence = λ h t. tt;
  llm = λ h q. tt;
  reference = λ name file. tt;
}

step_finds_keys_example : step env cfg at_context begun ≢ raise (key_error "payload")
step_finds_keys_example = step_finds_keys env cfg (started payload "trace") quiet "payload"

attempt-Ends_example : Ends env cfg 8 at_context begun
attempt-Ends_example = attempt-Ends env cfg 8 at_context begun (λ e. cc) (omega arith)
