-- ===== src/FormalReview/Graph/Decide.antt =====
-- graph.py: `review_synthesis` and `deterministic_gate`.
use ecommerce_after_sales_sy.Prelude.{
  String, Bool, true, false, not, ◌&&◌, ◌||◌, some, List, [], ◌∷◌, ◌++◌, keep, nonempty, str_eq,
  if◌then◌else◌,
}
use ecommerce_after_sales_sy.Python.Text.{mem, dedup}
use ecommerce_after_sales_sy.Python.Result.{Result, ok, ◌>>=◌}
use ecommerce_after_sales_sy.Python.Runtime.{Runtime, less}
use ecommerce_after_sales_sy.FormalReview.Contracts.{
  TrustedCaseContext, PolicyAssessment, EvidenceAssessment, ReviewProposal,
}
use ecommerce_after_sales_sy.FormalReview.Confidence.{
  opt_is, opt_true, apply_deterministic_confidence,
}
use ecommerce_after_sales_sy.FormalReview.Requirement.{is_core_requirement, mentions}
use ecommerce_after_sales_sy.FormalReview.Sop.{
  assess_escalation, build_routine_proposal, reason_if, sop_review_mode, escalated_review_mode,
}
use ecommerce_after_sales_sy.FormalReview.Synthesis.{synthesize}
use ecommerce_after_sales_sy.FormalReview.Graph.State.{
  FormalReviewState, Collaborators, Settings, Machine, GateAction, need,
}

abbrev pub version_mismatch : String
version_mismatch = "specialist_context_version_mismatch"

abbrev pub is_manual : GateAction → Bool
is_manual GateAction.manual_review = true
is_manual _ = false

module _ {F : Type 0} where
  policy_reasons : PolicyAssessment F → List String
  policy_reasons p =
      reason_if (not p.success || not p.trusted_policy_eligible) "policy_not_trusted"
      ++ reason_if (not p.policy_version_matched) "policy_version_not_matched"

  unfoldable pub evidence_failure_reasons : EvidenceAssessment F → List String
  evidence_failure_reasons e =
      reason_if (nonempty e.risk_signals) "evidence_risk_detected"
      ++ reason_if (not e.success) "evidence_service_failed"

  -- Set equality of two texts with one.
  abbrev pub versions_agree : String → PolicyAssessment F → EvidenceAssessment F → Bool
  versions_agree v p e = str_eq p.context_version v && str_eq e.context_version v

  is_unresolved : EvidenceAssessment F → String → Bool
  is_unresolved e item =
      is_core_requirement item
      && not (mem item e.satisfied_evidence)
      && not (mem item e.missing_evidence)
      && not (e.visual_verifiable && mentions ("图片" ∷ "照片" ∷ "截图" ∷ []) item)

  -- The evidence with the policy's unresolved requirements among what is missing.
  unfoldable pub with_unresolved : PolicyAssessment F → EvidenceAssessment F → EvidenceAssessment F
  unfolding is_unresolved
  with_unresolved p e =
      let unresolved = keep (is_unresolved e) p.required_evidence in
      if nonempty unresolved
      then record e { missing_evidence = dedup (e.missing_evidence ++ unresolved) }
      else e

module _ {F : Type 0} ⦃r : Runtime F⦄ (env : Collaborators F) (cfg : Settings F) where
  -- The proposal of either path, before its confidence is replaced.
  unfoldable pub draft_proposal :
      Machine F
      → TrustedCaseContext F
      → PolicyAssessment F
      → EvidenceAssessment F
      → Bool
      → Result (ReviewProposal F)
  draft_proposal m context p e true = synthesize (env.llm m.calls) context m.state.issue p e
  draft_proposal m context p e false = ok (build_routine_proposal p e)

  -- What is written where the versions agree; `full` has the unresolved requirements.
  unfoldable pub propose :
      Machine F
      → TrustedCaseContext F
      → PolicyAssessment F
      → EvidenceAssessment F
      → Result (Machine F)
  unfolding draft_proposal
  propose m context p full = do
    let escalation = assess_escalation p full cfg.minimum_review_confidence
    q ← draft_proposal m context p full escalation.required
    ok (record m {
      state = record m.state {
        evidence_assessment = some full;
        review_proposal = some (apply_deterministic_confidence q p full);
        review_mode = if escalation.required then escalated_review_mode else sop_review_mode;
        escalation_reasons = escalation.reasons;
      };
    })

  unfoldable pub review_synthesis : Machine F → Result (Machine F)
  unfolding propose
  review_synthesis m = do
    p ← need "policy_assessment" m.state.policy_assessment
    e ← need "evidence_assessment" m.state.evidence_assessment
    context ← need "trusted_context" m.state.trusted_context
    if versions_agree context.context_version p e
        then propose m context p (with_unresolved p e)
        else ok (record m {
          state = record m.state {
            failure_reason = some version_mismatch;
            gate_action = GateAction.manual_review;
            gate_reasons = version_mismatch ∷ [];
            need_human = true;
          };
        })

module _ {F : Type 0} ⦃r : Runtime F⦄ (cfg : Settings F) where
  -- The `elif` chain behind the test of `evidence_failure_reasons`.
  -- The action and its reasons.
  unfoldable pub decide :
      TrustedCaseContext F
      → PolicyAssessment F
      → EvidenceAssessment F
      → ReviewProposal F
      → GateAction × List String
  unfolding policy_reasons
  decide context p e q =
      if not (nonempty context.attachments)
      then (GateAction.request_evidence, "evidence_missing" ∷ [])
      else if not e.visual_verifiable
      then (GateAction.manual_review, "visual_evidence_not_verifiable" ∷ [])
      else if less e.visual_confidence cfg.minimum_review_confidence
      then (GateAction.manual_review, "visual_confidence_below_threshold" ∷ [])
      else if nonempty (policy_reasons p)
      then (GateAction.manual_review, policy_reasons p)
      else if less q.confidence cfg.minimum_review_confidence
      then (GateAction.manual_review, "review_confidence_below_threshold" ∷ [])
      else if cfg.auto_approve_enabled
          && str_eq q.proposed_verdict "APPROVE"
          && e.visual_verifiable
          && opt_true e.evidence_consistent
      then (GateAction.submit_review, [])
      else (
        GateAction.manual_review,
        (if not cfg.auto_approve_enabled
              then "auto_approve_disabled"
              else "approval_conditions_not_met")
            ∷ [],
      )

  abbrev pub settle : FormalReviewState F → GateAction × List String → FormalReviewState F
  settle s d = record s { gate_action = d.0; gate_reasons = d.1; need_human = is_manual d.0 }

  unfoldable pub deterministic_gate : FormalReviewState F → Result (FormalReviewState F)
  unfolding decide evidence_failure_reasons
  deterministic_gate s =
      if opt_is s.failure_reason version_mismatch
      then ok (record s {
        failure_reason = some version_mismatch;
        gate_action = GateAction.manual_review;
        gate_reasons = version_mismatch ∷ [];
        need_human = true;
      })
      else do
        p ← need "policy_assessment" s.policy_assessment
        e ← need "evidence_assessment" s.evidence_assessment
        q ← need "review_proposal" s.review_proposal
        if nonempty (evidence_failure_reasons e)
            then ok (settle s (GateAction.manual_review, evidence_failure_reasons e))
            else do
              context ← need "trusted_context" s.trusted_context
              ok (settle s (decide context p e q))
