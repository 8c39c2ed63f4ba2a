-- ===== src/FormalReview/Workflow/Nodes.antt =====
-- What single nodes of `PolicyWorkflow` return, and what they raise.
use Prim.Native.String.{◌++◌ as append}
use Prim.Native.String.append as append_clauses
use ecommerce_after_sales_sy.Prelude.{
  ◌≡◌, refl, ap, String, Bool, true, false, not, ◌&&◌, Option, none, some, arith,
}
use ecommerce_after_sales_sy.Python.Value.{is_dict}
use ecommerce_after_sales_sy.Python.Result.{
  value_error, type_error, key_error, runtime_error, circuit_open, llm_error, rag_rewrite_error,
  index_error, function_calling_error, overflow_error, Result, ok, raise,
}
use ecommerce_after_sales_sy.Python.Ensures.{
  Ensures, Raises, Ensures-bind, Ensures-if, Ensures-self,
}
use ecommerce_after_sales_sy.Python.Runtime.{Runtime}
use ecommerce_after_sales_sy.FormalReview.Contracts.{PolicyTask, PolicyAssessment, ToolResult}
use ecommerce_after_sales_sy.FormalReview.Graph.State.{has_text}
use ecommerce_after_sales_sy.FormalReview.Evaluate.Policy
use ecommerce_after_sales_sy.FormalReview.Workflow.PolicyState.{
  PolicyWorkflowState, RewriteRequest, RewriteDecision, RewriteService, rewritten, unobserved,
}
use ecommerce_after_sales_sy.FormalReview.Workflow.Policy.{
  rewrite_of, rewrite_request, rewrite_policy_query, observe_policy_result,
}
use ecommerce_after_sales_sy.FormalReview.Workflow.Evaluated.{assess_policy-Raises}
use ecommerce_after_sales_sy.FormalReview.Workflow.Answered.{
  IsShort, queries_of-IsShort, NotRuntimeError,
}

-- The rewriting, if there is any, raises no RuntimeError but its own RagRewriteError.
abbrev pub RewriteRaises : {F : Type 0} → RewriteService F → Type 0
RewriteRaises {F} none = Unit
RewriteRaises {F} (some evaluate) = (q : RewriteRequest F) → Raises NotRuntimeError (evaluate q)

-- The queries of a rewriting are few, and no error of the workflow's own is raised.
rewritten-IsShort :
    (m : Result RewriteDecision) (failure : Option String)
    → Raises NotRuntimeError m
    → Ensures NotRuntimeError (rewritten m failure) (λ d. IsShort d.0)
rewritten-IsShort (ok d) failure h = queries_of-IsShort d
rewritten-IsShort (raise (value_error t)) failure h = h
rewritten-IsShort (raise type_error) failure h = h
rewritten-IsShort (raise (key_error k)) failure h = h
rewritten-IsShort (raise (runtime_error t)) failure h = h
rewritten-IsShort (raise circuit_open) failure h = h
rewritten-IsShort (raise llm_error) failure h = h
rewritten-IsShort (raise index_error) failure h = h
rewritten-IsShort (raise function_calling_error) failure h = h
rewritten-IsShort (raise overflow_error) failure h = h
rewritten-IsShort (raise rag_rewrite_error) failure h = (omega arith, tt)

pub rejection_is_text :
    (names : String) → has_text (some (append "invalid_policy_task:" names)) ≡ true
rejection_is_text names =
    ap (λ t. has_text (some t)) (append_clauses.cons "i" "nvalid_policy_task:" names)

pub second_and : (a b c d e : Bool) → (a && b && c && d && e) ≡ true → b ≡ true
second_and a b c d e h = ground arith

pub not-eq-true : (b : Bool) → not b ≡ true → b ≡ false
not-eq-true b h = ground arith

module _ {F : Type 0} ⦃r : Runtime F⦄ where
  pub evaluated :
      (task : PolicyTask) (result : ToolResult F)
      → Ensures NotRuntimeError (Policy.assess task result) (λ a. Policy.assess task result ≡ ok a)
  evaluated task result =
      Ensures-self NotRuntimeError (Policy.assess task result)
        (assess_policy-Raises NotRuntimeError (λ t u e. cc) (λ u e. cc) (λ u e. cc) task result)

  -- What `observe_policy_result` leaves in the state.
  abbrev pub Observed : PolicyTask → ToolResult F → PolicyWorkflowState F → Type 0
  Observed task result s =
      (s.task ≡ task)
      × (a : PolicyAssessment F) × (s.assessment ≡ some a)
      × (Policy.assess task result ≡ ok a)
      × (unobserved s.retrieval_observation (λ o. o.trusted_policy_eligible)
          ≡ not a.trusted_policy_eligible)

  pub observe-Observed :
      (s : PolicyWorkflowState F) {task : PolicyTask} {result : ToolResult F}
      → s.task ≡ task
      → s.retrieval_result ≡ some result
      → Ensures NotRuntimeError (observe_policy_result s) (Observed task result)
  unfolding observe_policy_result
  observe-Observed s {task = task} {result = result} same given =
      rw (same, given)
        (Ensures-bind NotRuntimeError (Policy.assess task result) _
          (λ a. Policy.assess task result ≡ ok a) (Observed task result) (evaluated task result)
          (λ a e. (refl, a, refl, e, refl)))

  rewrite_of-IsShort :
      (service : RewriteService F) (s : PolicyWorkflowState F) (o : Option (ToolResult F))
      → RewriteRaises service
      → Ensures NotRuntimeError (rewrite_of service s o) (λ d. IsShort d.0)
  rewrite_of-IsShort none s o h = (omega arith, tt)
  rewrite_of-IsShort (some evaluate) s none h = (omega arith, tt)
  rewrite_of-IsShort (some evaluate) s (some result) h =
      Ensures-if NotRuntimeError (result.ok && is_dict result.data_value) _ _ (λ d. IsShort d.0)
        (λ _.
          rewritten-IsShort (evaluate (rewrite_request s.task result.data_value)) s.failure_category
            (h _))
        (λ _. (omega arith, tt))

  -- A rewriting leaves the rest of the state alone.
  pub rewrite-IsShort :
      (service : RewriteService F) (s : PolicyWorkflowState F)
      → RewriteRaises service
      → Ensures NotRuntimeError
          (rewrite_policy_query service s)
          (λ t. IsShort t.rewrite_queries × (t.task ≡ s.task) × (t.assessment ≡ s.assessment))
  unfolding rewrite_policy_query
  rewrite-IsShort service s h =
      Ensures-bind NotRuntimeError (rewrite_of service s s.retrieval_result) _ (λ d. IsShort d.0) _
        (rewrite_of-IsShort service s s.retrieval_result h) (λ d short. (short, refl, refl))
