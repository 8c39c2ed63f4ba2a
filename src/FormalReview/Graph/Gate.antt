-- ===== src/FormalReview/Graph/Gate.antt =====
-- The gate of graph.py (`deterministic_gate`): when it lets an approval through.
use ecommerce_after_sales_sy.Prelude.{
  ◌≡◌, ◌↔◌, true, false, some, nonempty, arith, eq_iff, if◌then◌else◌, Bool-cases, inl, inr,
}
use ecommerce_after_sales_sy.Python.Result.{ok}
use ecommerce_after_sales_sy.Python.Runtime.{Runtime, less}
use ecommerce_after_sales_sy.FormalReview.Contracts.{
  TrustedCaseContext, PolicyAssessment, EvidenceAssessment, ReviewProposal,
}
use ecommerce_after_sales_sy.FormalReview.Confidence.{opt_is}
use ecommerce_after_sales_sy.FormalReview.Graph.State.{FormalReviewState, Settings, GateAction}
use ecommerce_after_sales_sy.FormalReview.Graph.Decide.{
  version_mismatch, decide, deterministic_gate, evidence_failure_reasons, settle,
}

-- What an approval needs, of the context, the two assessments, the proposal and the settings.
pub record IsApprovable {F : Type 0} ⦃r : Runtime F⦄ (cfg : Settings F) (c : TrustedCaseContext F)
    (p : PolicyAssessment F) (e : EvidenceAssessment F) (q : ReviewProposal F) : Type 0 where
  pub attached : nonempty c.attachments ≡ true
  pub policy_read : p.success ≡ true
  pub policy_trusted : p.trusted_policy_eligible ≡ true
  pub version_matched : p.policy_version_matched ≡ true
  pub evidence_read : e.success ≡ true
  pub riskless : nonempty e.risk_signals ≡ false
  pub verifiable : e.visual_verifiable ≡ true
  pub consistent : e.evidence_consistent ≡ some true
  pub seen_clearly : less e.visual_confidence cfg.minimum_review_confidence ≡ false
  pub confident : less q.confidence cfg.minimum_review_confidence ≡ false
  pub enabled : cfg.auto_approve_enabled ≡ true
  pub proposed : q.proposed_verdict ≡ "APPROVE"

module _ {F : Type 0} ⦃r : Runtime F⦄ (cfg : Settings F) where
  -- What the gate writes where no version differs and every part is there.
  abbrev pub gated :
      FormalReviewState F
      → TrustedCaseContext F
      → PolicyAssessment F
      → EvidenceAssessment F
      → ReviewProposal F
      → FormalReviewState F
  gated s c p e q =
      if nonempty (evidence_failure_reasons e)
      then settle cfg s (GateAction.manual_review, evidence_failure_reasons e)
      else settle cfg s (decide cfg c p e q)

  pub gated_approves :
      (s : FormalReviewState F) (c : TrustedCaseContext F) (p : PolicyAssessment F)
      (e : EvidenceAssessment F) (q : ReviewProposal F)
      → (gated s c p e q).gate_action ≡ GateAction.submit_review
      → IsApprovable cfg c p e q
  unfolding decide evidence_failure_reasons
  gated_approves s c p e q h = ground (arith, eq_iff q.proposed_verdict "APPROVE")

  gated_approvable :
      (s : FormalReviewState F) (c : TrustedCaseContext F) (p : PolicyAssessment F)
      (e : EvidenceAssessment F) (q : ReviewProposal F)
      → IsApprovable cfg c p e q
      → (gated s c p e q).gate_action ≡ GateAction.submit_review
  unfolding decide evidence_failure_reasons
  gated_approvable s c p e q h = ground (arith, eq_iff q.proposed_verdict "APPROVE")

  module _ (s : FormalReviewState F) {c : TrustedCaseContext F} {p : PolicyAssessment F}
      {e : EvidenceAssessment F} {q : ReviewProposal F} (hc : s.trusted_context ≡ some c)
      (hp : s.policy_assessment ≡ some p) (he : s.evidence_assessment ≡ some e)
      (hq : s.review_proposal ≡ some q)
      (fresh : opt_is s.failure_reason version_mismatch ≡ false) where
    deterministic_gate-eq-gated : deterministic_gate cfg s ≡ ok (gated s c p e q)
    unfolding deterministic_gate
    deterministic_gate-eq-gated =
        rw (fresh, hp, he, hq)
          (elim (Bool-cases (nonempty (evidence_failure_reasons e))) [
            | inl h ↦ rw h
            | inr h ↦ rw (h, hc)
          ])

    -- Where the specialists agree on the version and the context, both assessments and the
    -- proposal are there, the gate returns, and its action is SUBMIT_REVIEW exactly when every
    -- condition of an approval holds; it asks for a human exactly when its action is a manual review.
    pub gate_approves_iff :
        (t : FormalReviewState F) × (deterministic_gate cfg s ≡ ok t)
        × ((t.gate_action ≡ GateAction.submit_review) ↔ IsApprovable cfg c p e q)
        × ((t.need_human ≡ true) ↔ (t.gate_action ≡ GateAction.manual_review))
    unfolding decide
    gate_approves_iff = (
      gated s c p e q,
      deterministic_gate-eq-gated,
      (gated_approves s c p e q, gated_approvable s c p e q),
      ground arith,
    )
