-- ===== src/FormalReview/Sop.antt =====
-- formal_review/sop.py: the plan, the escalation test and the proposal of the routine path.
use ecommerce_after_sales_sy.Prelude.{
  String, ◌≡◌, Bool, true, false, not, ◌&&◌, ◌||◌, none, some, List, [], ◌∷◌, ◌++◌, any, nonempty,
  if◌then◌else◌,
}
use ecommerce_after_sales_sy.Python.Text.{strip, slice_to, join, dedup}
use ecommerce_after_sales_sy.Python.Runtime.{Runtime, less}
use ecommerce_after_sales_sy.FormalReview.Contracts.{
  TrustedCaseContext, ReviewWorkflowPlan, PolicyAssessment, EvidenceAssessment, ReviewProposal,
}
use ecommerce_after_sales_sy.FormalReview.Context.{present}
use ecommerce_after_sales_sy.FormalReview.Confidence.{opt_is, opt_true, opt_false}
use ecommerce_after_sales_sy.FormalReview.Requirement.{is_core_requirement}

abbrev pub sop_review_mode : String
sop_review_mode = "SOP_AUTOMATED"

abbrev pub escalated_review_mode : String
escalated_review_mode = "COMPLEX_SKILL_REVIEW"

pub record EscalationDecision : Type 0 where
  pub required : Bool
  pub reasons : List String

-- `if test: reasons.append(reason)`
abbrev pub reason_if : Bool → String → List String
reason_if test reason = if test then reason ∷ [] else []

module _ {F : Type 0} where
  unfoldable pub plan : TrustedCaseContext F → String → ReviewWorkflowPlan
  unfolding strip present join dedup
  plan context issue = record {
    action = "RUN_REVIEW_SKILLS";
    specialists = "EVIDENCE" ∷ "POLICY" ∷ [];
    policy_query =
        slice_to 500 (join " " (dedup (present (some (strip issue) ∷ context.product_name ∷ []))));
    reason_codes = "FORMAL_REVIEW_SOP" ∷ [];
  }

  -- The test of `build_routine_proposal`.
  unfoldable pub approvable : PolicyAssessment F → EvidenceAssessment F → Bool
  approvable p e =
      p.success
      && p.trusted_policy_eligible
      && p.policy_version_matched
      && e.success
      && e.visual_verifiable
      && opt_true e.evidence_consistent
      && not (nonempty e.risk_signals)

module _ {F : Type 0} ⦃r : Runtime F⦄ where
  -- `elif` makes the last two tests on the evidence exclusive.
  unfoldable pub evidence_reasons : EvidenceAssessment F → F → List String
  evidence_reasons e minimum =
      if not e.success
      then "evidence_skill_failed" ∷ []
      else reason_if (not e.visual_verifiable || less e.visual_confidence minimum)
          "visual_evidence_uncertain"

  unfoldable pub escalation_reasons : PolicyAssessment F → EvidenceAssessment F → F → List String
  unfolding evidence_reasons is_core_requirement
  escalation_reasons p e minimum =
      reason_if (not p.success) "policy_skill_failed"
      ++ (reason_if (not p.trusted_policy_eligible || not p.policy_version_matched)
            "policy_not_authoritative"
          ++ (reason_if
                (not (opt_is p.filter_level "strict")
                  || (not p.reranker_succeeded && not (opt_is p.retrieval_mode "multi_query_rrf"))
                  || not (nonempty p.citations))
                "policy_retrieval_insufficient"
              ++ (reason_if (nonempty e.risk_signals || opt_false e.evidence_consistent)
                    "evidence_conflict"
                  ++ (evidence_reasons e minimum
                      ++ reason_if (any is_core_requirement e.missing_evidence)
                          "core_evidence_missing"))))

  unfoldable pub assess_escalation :
      PolicyAssessment F → EvidenceAssessment F → F → EscalationDecision
  unfolding escalation_reasons dedup
  assess_escalation p e minimum =
      let reasons = escalation_reasons p e minimum in
      record { required = nonempty reasons; reasons = dedup reasons }

  unfoldable pub build_routine_proposal :
      PolicyAssessment F → EvidenceAssessment F → ReviewProposal F
  unfolding approvable
  build_routine_proposal p e = record {
    proposed_verdict = if approvable p e then "APPROVE" else "MANUAL_REVIEW_REQUIRED";
    reason =
        if approvable p e
        then "Policy and evidence checks satisfy the automated review SOP."
        else "The automated review SOP could not establish a reliable result.";
    confidence = r.nought;
    risk_reasons = [];
    assistant_reply =
        if approvable p e
        then "The automated initial review is complete."
        else "The request has been routed for manual review.";
    model_confidence = r.nought;
    confidence_model_version = none;
    confidence_breakdown = none;
  }

  -- The routine path is taken exactly where every check of the escalation policy passes.
  abbrev pub IsRoutine : PolicyAssessment F → EvidenceAssessment F → F → Type 0
  IsRoutine p e minimum =
      (p.success ≡ true)
      × (p.trusted_policy_eligible ≡ true)
      × (p.policy_version_matched ≡ true)
      × (opt_is p.filter_level "strict" ≡ true)
      × ((p.reranker_succeeded || opt_is p.retrieval_mode "multi_query_rrf") ≡ true)
      × (nonempty p.citations ≡ true)
      × (nonempty e.risk_signals ≡ false)
      × (opt_false e.evidence_consistent ≡ false)
      × (e.success ≡ true)
      × (e.visual_verifiable ≡ true)
      × (less e.visual_confidence minimum ≡ false)
      × (any is_core_requirement e.missing_evidence ≡ false)
