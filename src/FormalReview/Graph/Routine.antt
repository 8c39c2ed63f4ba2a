-- ===== src/FormalReview/Graph/Routine.antt =====
-- The routine path of sop.py, the confidence of confidence.py, and what the gate makes of them.
use ecommerce_after_sales_sy.Prelude.{◌≡◌, refl, ◌↔◌, true, false, some, nonempty, arith, eq_iff}
use ecommerce_after_sales_sy.Python.Runtime.{Runtime}
use ecommerce_after_sales_sy.FormalReview.Contracts.{
  TrustedCaseContext, PolicyAssessment, EvidenceAssessment, ReviewProposal,
}
use ecommerce_after_sales_sy.FormalReview.Confidence.{apply_deterministic_confidence}
use ecommerce_after_sales_sy.FormalReview.Sop.{
  IsRoutine, escalation_reasons, assess_escalation, build_routine_proposal,
}
use ecommerce_after_sales_sy.FormalReview.Graph.State.{Settings}
use ecommerce_after_sales_sy.FormalReview.Graph.Decide.{decide}

module _ {F : Type 0} ⦃r : Runtime F⦄ (p : PolicyAssessment F) (e : EvidenceAssessment F)
    (minimum : F) where
  IsRoutine-no_reason : IsRoutine p e minimum → nonempty (escalation_reasons p e minimum) ≡ false
  unfolding escalation_reasons
  IsRoutine-no_reason h = ground arith

  no_reason-IsRoutine : nonempty (escalation_reasons p e minimum) ≡ false → IsRoutine p e minimum
  unfolding escalation_reasons
  no_reason-IsRoutine h = ground arith

  -- A case is left to the routine path exactly when the policy was read, is trusted, is of the
  -- matched version and was retrieved strictly, by a reranker or by fusion, with citations, and
  -- the evidence was read, is verifiable, seen with the minimum confidence, neither risky nor
  -- contradictory, and misses no core requirement.
  pub IsRoutine-iff : ((assess_escalation p e minimum).required ≡ false) ↔ IsRoutine p e minimum
  unfolding assess_escalation
  IsRoutine-iff = (no_reason-IsRoutine, IsRoutine-no_reason)

  -- On the routine path the proposal is an approval exactly when the evidence is known to be
  -- consistent; otherwise it asks for a manual review.
  pub routine_approves_iff :
      IsRoutine p e minimum
      → ((build_routine_proposal p e).proposed_verdict ≡ "APPROVE")
        ↔ (e.evidence_consistent ≡ some true)
  unfolding build_routine_proposal
  routine_approves_iff h =
      (λ a. ground (arith, eq_iff "MANUAL_REVIEW_REQUIRED" "APPROVE"), λ a. ground arith)

module _ {F : Type 0} ⦃r : Runtime F⦄ (cfg : Settings F) (c : TrustedCaseContext F)
    (p : PolicyAssessment F) (e : EvidenceAssessment F) where
  -- The gate's decision depends on the drafted proposal by nothing but its verdict: two drafts
  -- with one verdict, whatever confidence their model claims, are decided alike and with one
  -- confidence.
  pub gate_ignores_model_confidence :
      (q q' : ReviewProposal F)
      → q.proposed_verdict ≡ q'.proposed_verdict
      → (decide cfg c p e (apply_deterministic_confidence q p e)
          ≡ decide cfg c p e (apply_deterministic_confidence q' p e))
        × ((apply_deterministic_confidence q p e).confidence
            ≡ (apply_deterministic_confidence q' p e).confidence)
        × ((apply_deterministic_confidence q p e).model_confidence ≡ q.model_confidence)
  unfolding decide apply_deterministic_confidence
  gate_ignores_model_confidence q q' h = (rw h, refl, refl)
