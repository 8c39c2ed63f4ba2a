-- ===== src/FormalReview/Graph/Sound/Write.antt =====
-- The submissions: the arguments of an approval are justified by the state that is ready for it.
use ecommerce_after_sales_sy.Prelude.{All}
use ecommerce_after_sales_sy.Python.Runtime.{Runtime}
use ecommerce_after_sales_sy.FormalReview.Graph.State.{
  approve, manual_review_required, FormalReviewState, Collaborators, Settings, Machine,
}
use ecommerce_after_sales_sy.FormalReview.Graph.Submit.{verdict_arguments, submit_verdict}
use ecommerce_after_sales_sy.FormalReview.Graph.Approved.{Approved, IsJustified, SubmitsJustified}

module _ {F : Type 0} ⦃r : Runtime F⦄ (env : Collaborators F) (cfg : Settings F) where
  verdict_arguments-IsJustified :
      (s : FormalReviewState F)
      → Approved cfg s
      → IsJustified cfg (verdict_arguments env cfg s approve)
  unfolding verdict_arguments
  verdict_arguments-IsJustified s (c, p, e, q, d, a) = record {
    policy_trusted = rw d.has_policy a.policy_trusted;
    policy_certain = rw (d.has_policy, a.policy_trusted);
    visual_certain = rw (d.has_evidence, a.verifiable);
    consistent = rw d.has_evidence a.consistent;
    seen_clearly = rw d.has_evidence a.seen_clearly;
    confident = rw d.has_proposal a.confident;
    enabled = a.enabled;
    policy = p;
    evidence = e;
    version = c.context_version;
    has_policy = d.has_policy;
    has_evidence = d.has_evidence;
    has_version = rw d.has_context;
    same_version = d.agreed;
    policy_matched = a.version_matched;
    riskless = a.riskless;
  }

  pub submit_approval-justified :
      (m : Machine F)
      → Approved cfg m.state
      → All (SubmitsJustified cfg) m.calls
      → All (SubmitsJustified cfg) (submit_verdict env cfg m approve).calls
  unfolding submit_verdict
  submit_approval-justified m a h = ((λ _. verdict_arguments-IsJustified m.state a), h)

  pub submit_manual-justified :
      (m : Machine F)
      → All (SubmitsJustified cfg) m.calls
      → All (SubmitsJustified cfg) (submit_verdict env cfg m manual_review_required).calls
  unfolding submit_verdict verdict_arguments
  submit_manual-justified m h = ((λ e. cc), h)
