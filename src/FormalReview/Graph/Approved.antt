-- ===== src/FormalReview/Graph/Approved.antt =====
-- What holds of the graph's state before each node, and that every superstep keeps it.
use ecommerce_after_sales_sy.Prelude.{
  String, ◌≡◌, ◌⊎◌, true, false, ◌||◌, some, nonempty, All, str_eq,
}
use ecommerce_after_sales_sy.Python.Runtime.{Runtime, less}
use ecommerce_after_sales_sy.FormalReview.Contracts.{
  TrustedCaseContext, PolicyAssessment, EvidenceAssessment, ReviewProposal, ReviewWorkflowPlan,
}
use ecommerce_after_sales_sy.FormalReview.Confidence.{opt_is}
use ecommerce_after_sales_sy.FormalReview.Graph.State.{
  Call, get_after_sales_ticket, request_missing_evidence, submit_ai_review, VerdictArguments,
  approve, FormalReviewState, Settings, Machine,
}
use ecommerce_after_sales_sy.FormalReview.Graph.Decide.{versions_agree, version_mismatch}
use ecommerce_after_sales_sy.FormalReview.Graph.Run.{
  Position, at_inputs, at_plan, at_specialists, at_synthesis, at_gate, at_submit,
}
use ecommerce_after_sales_sy.FormalReview.Graph.Gate.{IsApprovable}

-- The ticket waits for a review.
abbrev pub InReview : {F : Type 0} → TrustedCaseContext F → Type 0
InReview c = (str_eq c.ticket_status "PENDING" || str_eq c.ticket_status "PENDING_REVIEW") ≡ true

-- The specialists answered for one version of a ticket in review, and a proposal was drafted.
pub record IsDrafted {F : Type 0} (s : FormalReviewState F) (c : TrustedCaseContext F)
    (p : PolicyAssessment F) (e : EvidenceAssessment F) (q : ReviewProposal F) : Type 0 where
  pub has_context : s.trusted_context ≡ some c
  pub has_policy : s.policy_assessment ≡ some p
  pub has_evidence : s.evidence_assessment ≡ some e
  pub has_proposal : s.review_proposal ≡ some q
  pub in_review : InReview c
  pub agreed : versions_agree c.context_version p e ≡ true

abbrev pub Drafted : {F : Type 0} → FormalReviewState F → Type 0
Drafted {F} s =
    (c : TrustedCaseContext F) × (p : PolicyAssessment F) × (e : EvidenceAssessment F)
    × (q : ReviewProposal F) × IsDrafted s c p e q

-- The state carries what an approval rests on.
abbrev pub Approved : {F : Type 0} ⦃r : Runtime F⦄ → Settings F → FormalReviewState F → Type 0
Approved {F} cfg s =
    (c : TrustedCaseContext F) × (p : PolicyAssessment F) × (e : EvidenceAssessment F)
    × (q : ReviewProposal F) × IsDrafted s c p e q
    × IsApprovable cfg c p e q

-- The arguments of an approval as Java receives them.
pub record IsJustified {F : Type 0} ⦃r : Runtime F⦄ (cfg : Settings F) (a : VerdictArguments F)
    : Type 0 where
  pub policy_trusted : a.trusted_policy_eligible ≡ true
  pub policy_certain : a.policy_uncertain ≡ false
  pub visual_certain : a.visual_uncertain ≡ false
  pub consistent : a.evidence_consistent ≡ some true
  pub seen_clearly : less a.visual_confidence cfg.minimum_review_confidence ≡ false
  pub confident : less a.ai_review_confidence cfg.minimum_review_confidence ≡ false
  pub enabled : cfg.auto_approve_enabled ≡ true
  pub policy : PolicyAssessment F
  pub evidence : EvidenceAssessment F
  pub version : String
  pub has_policy : a.policy_assessment ≡ some policy
  pub has_evidence : a.evidence_assessment ≡ some evidence
  pub has_version : a.context_version ≡ some version
  pub same_version : versions_agree version policy evidence ≡ true
  pub policy_matched : policy.policy_version_matched ≡ true
  pub riskless : nonempty evidence.risk_signals ≡ false

module _ {F : Type 0} ⦃r : Runtime F⦄ (cfg : Settings F) where
  -- Of a call: if it submits an approval, the approval is justified.
  abbrev pub SubmitsJustified : Call F → Type 0
  SubmitsJustified (get_after_sales_ticket a) = Unit
  SubmitsJustified (request_missing_evidence a) = Unit
  SubmitsJustified (submit_ai_review a) = a.verdict ≡ approve → IsJustified cfg a

abbrev pub HasContext : {F : Type 0} → FormalReviewState F → Type 0
HasContext {F} s = (c : TrustedCaseContext F) × (s.trusted_context ≡ some c) × InReview c

abbrev pub HasPlan : {F : Type 0} → FormalReviewState F → Type 0
HasPlan s = (w : ReviewWorkflowPlan) × (s.workflow_plan ≡ some w)

abbrev pub HasAssessments : {F : Type 0} → FormalReviewState F → Type 0
HasAssessments {F} s =
    (p : PolicyAssessment F) × (e : EvidenceAssessment F) × (s.policy_assessment ≡ some p)
    × (s.evidence_assessment ≡ some e)

-- What a node finds in the state.
abbrev pub Ready :
    {F : Type 0} ⦃r : Runtime F⦄ → Settings F → Position → FormalReviewState F → Type 0
Ready cfg at_inputs s = HasContext s
Ready cfg at_plan s = HasContext s
Ready cfg at_specialists s = HasContext s × HasPlan s
Ready cfg at_synthesis s = HasContext s × HasAssessments s
Ready cfg at_gate s = (opt_is s.failure_reason version_mismatch ≡ true) ⊎ Drafted s
Ready cfg at_submit s = Approved cfg s
Ready cfg _ s = Unit

-- The invariant of a configuration.
pub record IsSound {F : Type 0} ⦃r : Runtime F⦄ (cfg : Settings F) (p : Position) (m : Machine F)
    : Type 0 where
  pub ready : Ready cfg p m.state
  pub justified : All (SubmitsJustified cfg) m.calls
