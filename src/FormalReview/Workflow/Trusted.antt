-- ===== src/FormalReview/Workflow/Trusted.antt =====
-- What a trusted assessment of `PolicyWorkflow` rests on.
use ecommerce_after_sales_sy.Prelude.{◌≡◌, refl, true, some, List, ◌∷◌}
use ecommerce_after_sales_sy.Python.Result.{ok}
use ecommerce_after_sales_sy.Python.Ensures.{Ensures-ok}
use ecommerce_after_sales_sy.Python.Runtime.{Runtime}
use ecommerce_after_sales_sy.FormalReview.Contracts.{PolicyTask, PolicyAssessment}
use ecommerce_after_sales_sy.FormalReview.Evaluate.Trust.{FromHit, trusted_rests_on_hit}
use ecommerce_after_sales_sy.FormalReview.Workflow.Ports.{ToolCall, Tools}
use ecommerce_after_sales_sy.FormalReview.Workflow.PolicyState.{RewriteService, without_retrieval}
use ecommerce_after_sales_sy.FormalReview.Workflow.Policy.{handle_policy}
use ecommerce_after_sales_sy.FormalReview.Workflow.Answered.{
  NotRuntimeError, IsAnswered, rejected, answered, answered_again,
}
use ecommerce_after_sales_sy.FormalReview.Workflow.Nodes.{RewriteRaises}
use ecommerce_after_sales_sy.FormalReview.Workflow.Handled.{handle_policy-IsAnswered}

module _ {F : Type 0} ⦃r : Runtime F⦄ (tools : Tools F) (service : RewriteService F)
    (task : PolicyTask) where
  -- The last call was made, its answer is a success, and a hit of it is trusted for the task.
  abbrev pub RestsOnHit : List (ToolCall F) → Type 0
  RestsOnHit calls =
      (last : ToolCall F) × (earlier : List (ToolCall F)) × (calls ≡ last ∷ earlier)
      × ((tools earlier last).ok ≡ true)
      × FromHit task (tools earlier last).data_value

  answer_rests :
      {a : PolicyAssessment F} {calls : List (ToolCall F)}
      → IsAnswered tools service task a calls
      → a.trusted_policy_eligible ≡ true
      → RestsOnHit calls
  answer_rests (rejected blank failure e) trusted =
      let (success, _, _, _, _, _) =
        trusted_rests_on_hit task (without_retrieval (some failure)) e trusted in
      absurd cc
  answer_rests (answered complete e) trusted =
      let (success, _, _, _, _, hit) = trusted_rests_on_hit task _ e trusted in
      (_, _, refl, success, hit)
  answer_rests (answered_again queries complete first low short e) trusted =
      let (success, _, _, _, _, hit) = trusted_rests_on_hit task _ e trusted in
      (_, _, refl, success, hit)

  -- A trusted policy that the workflow returns rests on the answer to the last call it made: the
  -- call succeeded, and one of the hits is a policy of the task's merchant and version, marked as
  -- trusted, strictly retrieved and cited. The rewriting raises no RuntimeError.
  pub workflow_trusts_hit :
      RewriteRaises service
      → {a : PolicyAssessment F} {calls : List (ToolCall F)}
      → handle_policy tools service task ≡ ok (a, calls)
      → a.trusted_policy_eligible ≡ true
      → RestsOnHit calls
  workflow_trusts_hit raised e trusted =
      answer_rests
        (Ensures-ok NotRuntimeError (handle_policy tools service task)
          (λ c. IsAnswered tools service task c.0 c.1)
          (handle_policy-IsAnswered tools service raised task) e)
        trusted
