-- ===== src/FormalReview/Workflow/PolicyState.antt =====
-- formal_review/workflows.py: the state of `PolicyWorkflow`, its positions, and the parts of its nodes.
use ecommerce_after_sales_sy.Prelude.{
  ℕ, String, Bool, true, false, not, Option, none, some, List, [], ◌∷◌, ◌++◌, keep, take,
  if◌then◌else◌,
}
use ecommerce_after_sales_sy.Python.Text.{is_text, strip}
use ecommerce_after_sales_sy.Python.Value.{Value, null}
use ecommerce_after_sales_sy.Python.Result.{Result, ok, raise, rag_rewrite_error}
use ecommerce_after_sales_sy.FormalReview.Contracts.{PolicyTask, PolicyAssessment, ToolResult}
use ecommerce_after_sales_sy.FormalReview.Graph.State.{has_text, or_text}
use ecommerce_after_sales_sy.FormalReview.Workflow.Ports.{ToolCall}

-- `retrieval_observation`
pub record Observation : Type 0 where
  pub trusted_policy_eligible : Bool
  pub retrieval_mode : Option String
  pub infrastructure_failure : Bool
  pub attempt : ℕ

pub record PolicyWorkflowState (F : Type 0) : Type 0 where
  pub task : PolicyTask
  pub retrieval_result : Option (ToolResult F)
  pub assessment : Option (PolicyAssessment F)
  pub retrieval_observation : Option Observation
  pub rewrite_queries : List String
  pub rewrite_completed : Bool
  pub retrieval_attempts : ℕ
  pub failure_category : Option String
  pub steps : ℕ

-- What `RagQueryRewriteService.evaluate` is given that is not fixed, and what it decides.
pub record RewriteRequest (F : Type 0) : Type 0 where
  pub user_question : String
  pub task : String
  pub product_name : Option String
  pub product_category : Option String
  pub after_sales_type : Option String
  pub original_query : String
  pub retrieval_result : Value F

pub record RewriteDecision : Type 0 where
  pub sufficient : Bool
  pub queries : List String

abbrev pub RewriteService : Type 0 → Type 0
RewriteService F = Option (RewriteRequest F → Result RewriteDecision)

-- The nodes, and END.
pub data PolicyPosition : Type 0 where
  at_receive at_retrieve at_observe at_rewrite at_multi at_observe_rewritten at_finalize at_done :
      PolicyPosition

-- The state, and the calls of the registry, the last one first.
pub record PolicyMachine (F : Type 0) : Type 0 where
  pub state : PolicyWorkflowState F
  pub calls : List (ToolCall F)

abbrev pub named : String → String → List String
named name value = if is_text value then [] else name ∷ []

-- The names of the required fields that are blank.
unfoldable pub missing_fields : PolicyTask → List String
unfolding strip
missing_fields task =
    named "task_id" (strip task.task_id)
    ++ named "review_request_id" (strip task.review_request_id)
    ++ named "ticket_id" (strip task.ticket_id)
    ++ named "context_version" (strip task.context_version)
    ++ named "user_id" (strip task.user_id)
    ++ named "query" (strip task.query)
    ++ named "skill_name" (strip task.skill_name)
    ++ named "skill_version" (strip task.skill_version)
    ++ named "skill_instructions" (strip task.skill_instructions)

-- A result that was not ok, which the node makes up.
abbrev failed_retrieval : {F : Type 0} → String → String → String → ToolResult F
failed_retrieval error code category = record {
  ok = false;
  name = "retrieve_knowledge";
  data_value = null;
  error = some error;
  error_code = some code;
  error_category = some category;
  retryable = false;
}

abbrev pub result_or_missing : {F : Type 0} → Option (ToolResult F) → ToolResult F
result_or_missing (some result) = result
result_or_missing none =
    failed_retrieval "policy retrieval result is missing" "MISSING_SUBAGENT_RESULT" "tool_error"

-- What `assess_policy` assesses where nothing was assessed.
abbrev pub without_retrieval : {F : Type 0} → Option String → ToolResult F
without_retrieval failure =
    failed_retrieval (or_text failure "policy retrieval result is missing")
      (if has_text failure then "INVALID_SUBAGENT_TASK" else "MISSING_SUBAGENT_RESULT")
      (if has_text failure then "validation" else "tool_error")

-- The queries of a decision, at most three and none blank.
unfoldable pub queries_of : RewriteDecision → List String
unfolding strip
queries_of d = if d.sufficient then [] else take 3 (keep (λ q. is_text (strip q)) d.queries)

-- `except RagRewriteError`
abbrev pub rewritten : Result RewriteDecision → Option String → Result (List String × Option String)
rewritten (ok d) failure = ok (queries_of d, failure)
rewritten (raise rag_rewrite_error) failure = ok ([], some "rag_query_rewrite_failed")
rewritten (raise e) failure = raise e

-- `observation.get(key) is not True`
abbrev pub unobserved : Option Observation → (Observation → Bool) → Bool
unobserved none field = true
unobserved (some o) field = not (field o)
