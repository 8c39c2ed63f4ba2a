-- ===== src/FormalReview/Graph/Sound/Steps.antt =====
-- Every superstep, every run and every resumption keeps `IsSound`.
use ecommerce_after_sales_sy.Prelude.{
  ℕ, zero, suc, String, inl, inr, Option, none, some, All, str_eq, Bool-cases,
}
use ecommerce_after_sales_sy.Python.Result.{
  Exn, value_error, type_error, overflow_error, runtime_error,
}
use ecommerce_after_sales_sy.Python.Ensures.{Ensures, Raises, Ensures-bind, Ensures-if}
use ecommerce_after_sales_sy.Python.Runtime.{Runtime}
use ecommerce_after_sales_sy.FormalReview.Graph.State.{
  AgentSkill, approve, manual_review_required, FormalReviewState, Collaborators, Settings, Machine,
}
use ecommerce_after_sales_sy.FormalReview.Graph.Load.{
  load_trusted_context, validate_review_inputs, sop_plan, run_specialists,
}
use ecommerce_after_sales_sy.FormalReview.Graph.Java.{stale}
use ecommerce_after_sales_sy.FormalReview.Graph.Decide.{review_synthesis, deterministic_gate}
use ecommerce_after_sales_sy.FormalReview.Graph.Request.{request_evidence_node, require_skill}
use ecommerce_after_sales_sy.FormalReview.Graph.Submit.{submit_verdict}
use ecommerce_after_sales_sy.FormalReview.Graph.Run.{
  Position, at_context, at_inputs, at_plan, at_specialists, at_synthesis, at_gate, at_submit,
  at_request, at_await, at_newer, at_prepare, at_manual, at_end, is_resting, Configuration, step,
  run, route_after_submission, route_after_evidence_request,
}
use ecommerce_after_sales_sy.FormalReview.Graph.Approved.{Ready, IsSound, SubmitsJustified}
use ecommerce_after_sales_sy.FormalReview.Graph.Sound.Read.{
  Loaded, load_trusted_context-Loaded, Validated, validate_review_inputs-Validated,
  sop_plan-HasPlan,
}
use ecommerce_after_sales_sy.FormalReview.Graph.Sound.Reason.{
  AllRaise, Assessed, run_specialists-Assessed, Proposed, review_synthesis-Proposed,
}
use ecommerce_after_sales_sy.FormalReview.Graph.Sound.Gate.{Gated, deterministic_gate-Gated}
use ecommerce_after_sales_sy.FormalReview.Graph.Sound.Write.{
  submit_approval-justified, submit_manual-justified,
}

module _ {F : Type 0} ⦃r : Runtime F⦄ (cfg : Settings F) where
  submission-Ready : (s : FormalReviewState F) → Ready cfg (route_after_submission s) s
  unfolding route_after_submission
  submission-Ready s = elim (Bool-cases (str_eq s.submission_outcome stale)) [
    | inl h ↦ rw h tt
    | inr h ↦ rw h tt
  ]

  request-Ready : (s : FormalReviewState F) → Ready cfg (route_after_evidence_request s) s
  unfolding route_after_evidence_request
  request-Ready s = elim (Bool-cases s.evidence_request_applied) [
    | inl h ↦ rw h tt
    | inr h ↦ elim (Bool-cases (str_eq s.evidence_request_outcome stale)) [
      | inl k ↦ rw (h, k) tt
      | inr k ↦ rw (h, k) tt
    ]
  ]

module _ {F : Type 0} ⦃r : Runtime F⦄ (env : Collaborators F) (cfg : Settings F) (E : Exn → Type 0)
    (value : (t : String) → E (value_error t)) (type : E type_error) (overflow : E overflow_error)
    (runtime : (t : String) → E (runtime_error t)) (raised : AllRaise env E) where
  abbrev Keeps : Configuration env cfg → Type 0
  Keeps c = IsSound cfg c.0 c.1

  require_skill-Raises : (stage : String) (o : Option AgentSkill) → Raises E (require_skill stage o)
  unfolding require_skill
  require_skill-Raises stage none = runtime _
  require_skill-Raises stage (some skill) = tt

  abbrev KeepsCalls : Machine F → Type 0
  KeepsCalls n = All (SubmitsJustified cfg) n.calls

  request-KeepsCalls :
      (m : Machine F) → KeepsCalls m → Ensures E (request_evidence_node env m) KeepsCalls
  unfolding request_evidence_node
  request-KeepsCalls m h =
      Ensures-bind E (require_skill "evidence_collection" (env.select_skill "evidence_collection"))
        _ (λ _. Unit) KeepsCalls
        (require_skill-Raises "evidence_collection" (env.select_skill "evidence_collection"))
        (λ skill _. (tt, h))

  -- One superstep.
  pub step-IsSound :
      (p : Position) (m : Machine F) → IsSound cfg p m → Ensures E (step env cfg p m) Keeps
  unfolding step
  step-IsSound at_context m h =
      Ensures-bind E (load_trusted_context env cfg m) _
        (Loaded env cfg E value type overflow (SubmitsJustified cfg)) Keeps
        (load_trusted_context-Loaded env cfg E value type overflow m (SubmitsJustified cfg)
          (λ _. tt) h.justified)
        λ n k. record { ready = k.0; justified = k.1 }
  step-IsSound at_inputs m h =
      Ensures-bind E (validate_review_inputs m.state) _ (Validated cfg E) Keeps
        (validate_review_inputs-Validated cfg E m.state h.ready)
        λ s k. record { ready = k; justified = h.justified }
  step-IsSound at_plan m h =
      Ensures-bind E (sop_plan m.state) _ _ Keeps (sop_plan-HasPlan cfg E m.state h.ready)
        λ s k. record { ready = k; justified = h.justified }
  step-IsSound at_specialists m h =
      Ensures-bind E (run_specialists env cfg m) _
        (Assessed env cfg E value type overflow raised (SubmitsJustified cfg)) Keeps
        (run_specialists-Assessed env cfg E value type overflow raised m (SubmitsJustified cfg)
          h.ready.0 h.ready.1 h.justified)
        λ n k. record { ready = k.0; justified = k.1 }
  step-IsSound at_synthesis m h =
      Ensures-bind E (review_synthesis env cfg m) _
        (Proposed env cfg E value type overflow raised (SubmitsJustified cfg)) Keeps
        (review_synthesis-Proposed env cfg E value type overflow raised m (SubmitsJustified cfg)
          h.ready.0 h.ready.1 h.justified)
        λ n k. record { ready = k.0; justified = k.1 }
  step-IsSound at_gate m h =
      Ensures-bind E (deterministic_gate cfg m.state) _ (Gated cfg E) Keeps
        (deterministic_gate-Gated cfg E m.state h.ready)
        λ s k. record { ready = k; justified = h.justified }
  step-IsSound at_submit m h = record {
    ready = submission-Ready cfg (submit_verdict env cfg m approve).state;
    justified = submit_approval-justified env cfg m h.ready h.justified;
  }
  step-IsSound at_manual m h = record {
    ready = submission-Ready cfg (submit_verdict env cfg m manual_review_required).state;
    justified = submit_manual-justified env cfg m h.justified;
  }
  step-IsSound at_request m h =
      Ensures-bind E (request_evidence_node env m) _ KeepsCalls Keeps
        (request-KeepsCalls m h.justified)
        λ n k. record { ready = request-Ready cfg n.state; justified = k }
  step-IsSound at_prepare m h = record { ready = tt; justified = h.justified }
  step-IsSound at_await m h = runtime "interrupted"
  step-IsSound at_newer m h = runtime "interrupted"
  step-IsSound at_end m h = runtime "finished"

  -- A run of any length.
  pub run-IsSound :
      (limit : ℕ) (p : Position) (m : Machine F)
      → IsSound cfg p m
      → Ensures E (run env cfg limit p m) Keeps
  unfolding run
  run-IsSound zero p m h =
      Ensures-if E (is_resting p) _ _ Keeps (λ _. h) (λ _. runtime "GraphRecursionError")
  run-IsSound (suc limit) p m h =
      Ensures-if E (is_resting p) _ _ Keeps (λ _. h)
        λ _.
          Ensures-bind E (step env cfg p m) _ Keeps Keeps (step-IsSound p m h)
            (λ c. run-IsSound limit c.0 c.1)
