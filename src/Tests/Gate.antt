-- ===== src/Tests/Gate.antt =====
-- The gate and the routine path at one case.
use ecommerce_after_sales_sy.Prelude.{ℕ, ◌≡◌, ◌↔◌, refl, true, false, some, none}
use ecommerce_after_sales_sy.Python.Result.{ok}
use ecommerce_after_sales_sy.FormalReview.Contracts.{ReviewProposal}
use ecommerce_after_sales_sy.FormalReview.Confidence.{apply_deterministic_confidence}
use ecommerce_after_sales_sy.FormalReview.Sop.{IsRoutine, assess_escalation, build_routine_proposal}
use ecommerce_after_sales_sy.FormalReview.Graph.State.{FormalReviewState, GateAction}
use ecommerce_after_sales_sy.FormalReview.Graph.Decide.{decide, deterministic_gate}
use ecommerce_after_sales_sy.FormalReview.Graph.Gate.{IsApprovable, gate_approves_iff}
use ecommerce_after_sales_sy.FormalReview.Graph.Routine.{
  IsRoutine-iff, routine_approves_iff, gate_ignores_model_confidence,
}
use ecommerce_after_sales_sy.FormalReview.Graph.Run.{initial_state}
use ecommerce_after_sales_sy.Tests.Demo.{
  demo, payload, env, cfg, policy, evidence, context, proposal,
}

abbrev drafted : FormalReviewState ℕ
drafted = record (initial_state env cfg payload "trace") {
  trusted_context = some context;
  policy_assessment = some policy;
  evidence_assessment = some evidence;
  review_proposal = some proposal;
  failure_reason = none;
}

gate_approves_iff_example :
    (t : FormalReviewState ℕ) × (deterministic_gate cfg drafted ≡ ok t)
    × ((t.gate_action ≡ GateAction.submit_review)
        ↔ IsApprovable cfg context policy evidence proposal)
    × ((t.need_human ≡ true) ↔ (t.gate_action ≡ GateAction.manual_review))
gate_approves_iff_example = gate_approves_iff cfg drafted refl refl refl refl refl

IsRoutine-iff_example :
    ((assess_escalation policy evidence 7500).required ≡ false) ↔ IsRoutine policy evidence 7500
IsRoutine-iff_example = IsRoutine-iff policy evidence 7500

is_routine : IsRoutine policy evidence 7500
is_routine = (refl, refl, refl, refl, refl, refl, refl, refl, refl, refl, refl, refl)

routine_approves_iff_example :
    ((build_routine_proposal policy evidence).proposed_verdict ≡ "APPROVE")
    ↔ (evidence.evidence_consistent ≡ some true)
routine_approves_iff_example = routine_approves_iff policy evidence 7500 is_routine

abbrev boastful : ReviewProposal ℕ
boastful = record proposal { model_confidence = 10000; confidence = 10000 }

gate_ignores_model_confidence_example :
    (decide cfg context policy evidence (apply_deterministic_confidence proposal policy evidence)
      ≡ decide cfg context policy evidence
          (apply_deterministic_confidence boastful policy evidence))
    × ((apply_deterministic_confidence proposal policy evidence).confidence
        ≡ (apply_deterministic_confidence boastful policy evidence).confidence)
    × ((apply_deterministic_confidence proposal policy evidence).model_confidence
        ≡ proposal.model_confidence)
gate_ignores_model_confidence_example =
    gate_ignores_model_confidence cfg context policy evidence proposal boastful refl
