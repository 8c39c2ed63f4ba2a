-- ===== src/Tests/Workflow.antt =====
-- The two specialists at one policy answer and at one task without attachments.
use ecommerce_after_sales_sy.Prelude.{ℕ, ◌≡◌, refl, some, [], ◌∷◌}
use ecommerce_after_sales_sy.Python.Result.{ok, raise, rag_rewrite_error}
use ecommerce_after_sales_sy.Python.Ensures.{Ensures}
use ecommerce_after_sales_sy.FormalReview.Workflow.Ports.{Tools, retrieve}
use ecommerce_after_sales_sy.FormalReview.Workflow.PolicyState.{RewriteService}
use ecommerce_after_sales_sy.FormalReview.Context.{dicts}
use ecommerce_after_sales_sy.FormalReview.Score.{clamp}
use ecommerce_after_sales_sy.FormalReview.Evaluate.Citation.{
  traceable_citations, is_traceable, parse_time,
}
use ecommerce_after_sales_sy.FormalReview.Evaluate.Hit.{is_trusted_hit}
use ecommerce_after_sales_sy.FormalReview.Evaluate.Policy
use ecommerce_after_sales_sy.FormalReview.Workflow.Policy.{
  handle_policy, route_after_receive, receive_policy_task, observe_policy_result,
  decide_retrieval_next, assess_policy,
}
use ecommerce_after_sales_sy.FormalReview.Workflow.Answered.{NotRuntimeError, IsAnswered}
use ecommerce_after_sales_sy.FormalReview.Workflow.Handled.{handle_policy-IsAnswered}
use ecommerce_after_sales_sy.FormalReview.Workflow.Trusted.{RestsOnHit, workflow_trusts_hit}
use ecommerce_after_sales_sy.FormalReview.Workflow.Evidence.{handle_evidence}
use ecommerce_after_sales_sy.FormalReview.Workflow.Seen.{specified, handle_evidence-eq-specified}
use ecommerce_after_sales_sy.Tests.Demo.{demo}
use ecommerce_after_sales_sy.Tests.Evaluate.{
  task, photo, found, genuine, trusted_policy, found_is_trusted,
}

abbrev registry : Tools ℕ
registry h c = found

abbrev cameras : Tools ℕ
cameras h c = genuine

abbrev rewriting : RewriteService ℕ
rewriting = some (λ q. raise rag_rewrite_error)

handle_policy-IsAnswered_example :
    Ensures NotRuntimeError
      (handle_policy registry rewriting task)
      (λ c. IsAnswered registry rewriting task c.0 c.1)
handle_policy-IsAnswered_example = handle_policy-IsAnswered registry rewriting (λ q t e. cc) task

handled : handle_policy registry rewriting task ≡ ok (trusted_policy, retrieve task ∷ [])
unfolding handle_policy route_after_receive receive_policy_task observe_policy_result Policy.assess
    dicts is_trusted_hit traceable_citations is_traceable parse_time clamp decide_retrieval_next
    assess_policy
handled = refl

workflow_trusts_hit_example : RestsOnHit registry rewriting task (retrieve task ∷ [])
workflow_trusts_hit_example =
    workflow_trusts_hit registry rewriting task (λ q t e. cc) handled found_is_trusted

handle_evidence-eq-specified_example : handle_evidence cameras photo ≡ specified cameras photo
handle_evidence-eq-specified_example = handle_evidence-eq-specified cameras photo
