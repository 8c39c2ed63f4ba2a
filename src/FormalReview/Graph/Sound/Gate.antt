-- ===== src/FormalReview/Graph/Sound/Gate.antt =====
-- The gate: a state that leaves it for the submission of an approval carries what justifies one.
use ecommerce_after_sales_sy.Prelude.{String, ◌≡◌, refl, inl, inr, false, List, nonempty}
use ecommerce_after_sales_sy.Python.Result.{Exn}
use ecommerce_after_sales_sy.Python.Ensures.{Ensures, Ensures-if}
use ecommerce_after_sales_sy.Python.Runtime.{Runtime}
use ecommerce_after_sales_sy.FormalReview.Contracts.{
  TrustedCaseContext, PolicyAssessment, EvidenceAssessment, ReviewProposal,
}
use ecommerce_after_sales_sy.FormalReview.Confidence.{opt_is}
use ecommerce_after_sales_sy.FormalReview.Graph.State.{FormalReviewState, Settings, GateAction}
use ecommerce_after_sales_sy.FormalReview.Graph.Decide.{
  version_mismatch, decide, deterministic_gate, evidence_failure_reasons, settle,
}
use ecommerce_after_sales_sy.FormalReview.Graph.Gate.{gated_approves}
use ecommerce_after_sales_sy.FormalReview.Graph.Run.{at_gate, route_after_action, route_after_gate}
use ecommerce_after_sales_sy.FormalReview.Graph.Approved.{Ready, IsDrafted, Approved}
use ecommerce_after_sales_sy.FormalReview.Graph.Sound.Reason.{need-Ensures}

module _ {F : Type 0} ⦃r : Runtime F⦄ (cfg : Settings F) (E : Exn → Type 0) where
  abbrev pub Gated : FormalReviewState F → Type 0
  Gated s = Ready cfg (route_after_gate s) s

  by_action :
      (t : FormalReviewState F) (a : GateAction)
      → (a ≡ GateAction.submit_review → Approved cfg t)
      → Ready cfg (route_after_action a) t
  by_action t GateAction.submit_review h = h refl
  by_action t GateAction.request_evidence h = tt
  by_action t GateAction.manual_review h = tt
  by_action t GateAction.stale_evidence h = tt
  by_action t GateAction.unset h = tt

  settle-Gated :
      (s : FormalReviewState F) (d : GateAction × List String)
      → (d.0 ≡ GateAction.submit_review → Approved cfg s)
      → Gated (settle cfg s d)
  unfolding route_after_gate
  settle-Gated s d h = by_action (settle cfg s d) d.0 (λ e. moved (h e))
    where
      moved : Approved cfg s → Approved cfg (settle cfg s d)
      moved (c, p, e, q, drafted, enough) = (
        c,
        p,
        e,
        q,
        record {
          has_context = drafted.has_context;
          has_policy = drafted.has_policy;
          has_evidence = drafted.has_evidence;
          has_proposal = drafted.has_proposal;
          in_review = drafted.in_review;
          agreed = drafted.agreed;
        },
        enough,
      )

  -- The last branch of the gate.
  decide-Gated :
      (s : FormalReviewState F) (c : TrustedCaseContext F) (p : PolicyAssessment F)
      (e : EvidenceAssessment F) (q : ReviewProposal F)
      → IsDrafted s c p e q
      → nonempty (evidence_failure_reasons e) ≡ false
      → Gated (settle cfg s (decide cfg c p e q))
  decide-Gated s c p e q d clean =
      settle-Gated s (decide cfg c p e q)
        (λ a. (c, p, e, q, d, gated_approves cfg s c p e q (rw clean a)))

  pub deterministic_gate-Gated :
      (s : FormalReviewState F) → Ready cfg at_gate s → Ensures E (deterministic_gate cfg s) Gated
  unfolding deterministic_gate route_after_gate
  deterministic_gate-Gated s (inl h) = rw h tt
  deterministic_gate-Gated s (inr (c, p, e, q, d)) =
      Ensures-if E (opt_is s.failure_reason version_mismatch) _ _ Gated (λ _. tt)
        λ _. need-Ensures E _ _ Gated d.has_policy (
          need-Ensures E _ _ Gated d.has_evidence (
            need-Ensures E _ _ Gated d.has_proposal (
              Ensures-if E (nonempty (evidence_failure_reasons e)) _ _ Gated (λ _. tt)
                (λ clean.
                  need-Ensures E _ _ Gated d.has_context (decide-Gated s c p e q d clean)))))
