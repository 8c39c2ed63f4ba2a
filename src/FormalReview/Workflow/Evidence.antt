-- ===== src/FormalReview/Workflow/Evidence.antt =====
-- formal_review/workflows.py: `EvidenceWorkflow`, its nodes, its edges and `handle`.
use Prim.Native.String.{◌++◌ as append}
use ecommerce_after_sales_sy.Prelude.{
  ℕ, zero, suc, ◌+◌, String, false, not, ◌||◌, Option, none, some, List, [], ◌∷◌, ◌++◌, nonempty,
  if◌then◌else◌,
}
use ecommerce_after_sales_sy.Python.Text.{strip, join}
use ecommerce_after_sales_sy.Python.Value.{null}
use ecommerce_after_sales_sy.Python.Result.{Result, ok, raise, runtime_error, ◌>>=◌}
use ecommerce_after_sales_sy.Python.Runtime.{Runtime}
use ecommerce_after_sales_sy.FormalReview.Contracts.{EvidenceTask, EvidenceAssessment, ToolResult}
use ecommerce_after_sales_sy.FormalReview.Graph.State.{has_text}
use ecommerce_after_sales_sy.FormalReview.Evaluate.Evidence
use ecommerce_after_sales_sy.FormalReview.Workflow.Ports.{ToolCall, Tools, review}
use ecommerce_after_sales_sy.FormalReview.Workflow.PolicyState.{named}

pub record EvidenceWorkflowState (F : Type 0) : Type 0 where
  pub task : EvidenceTask F
  pub image_review_result : Option (ToolResult F)
  pub assessment : Option (EvidenceAssessment F)
  pub failure_category : Option String
  pub steps : ℕ

pub record EvidenceMachine (F : Type 0) : Type 0 where
  pub state : EvidenceWorkflowState F
  pub calls : List (ToolCall F)

-- The nodes, and END.
pub data EvidencePosition : Type 0 where
  at_receive at_review at_assess at_done : EvidencePosition

module _ {F : Type 0} where
  -- The names of the required fields that are blank.
  unfoldable pub missing_evidence_fields : EvidenceTask F → List String
  unfolding strip
  missing_evidence_fields task =
      named "task_id" (strip task.task_id)
      ++ named "review_request_id" (strip task.review_request_id)
      ++ named "ticket_id" (strip task.ticket_id)
      ++ named "context_version" (strip task.context_version)
      ++ named "user_id" (strip task.user_id)
      ++ named "order_id" (strip task.order_id)
      ++ named "skill_name" (strip task.skill_name)
      ++ named "skill_version" (strip task.skill_version)
      ++ named "skill_instructions" (strip task.skill_instructions)

  abbrev pub evidence_failure : EvidenceTask F → Option String
  evidence_failure task =
      if nonempty (missing_evidence_fields task)
      then some (append "invalid_evidence_task:" (join "," (missing_evidence_fields task)))
      else none

  unfoldable pub receive_evidence_task : EvidenceWorkflowState F → EvidenceWorkflowState F
  unfolding missing_evidence_fields join
  receive_evidence_task s = record s { failure_category = evidence_failure s.task; steps = 1 }

  unfoldable pub route_after_evidence_task : EvidenceWorkflowState F → EvidencePosition
  route_after_evidence_task s =
      if has_text s.failure_category || not (nonempty s.task.attachments)
      then at_assess
      else at_review

  -- What a rejected task is assessed with.
  abbrev pub rejected_review : Option String → ToolResult F
  rejected_review failure = record {
    ok = false;
    name = "review_images";
    data_value = null;
    error = failure;
    error_code = some "INVALID_SUBAGENT_TASK";
    error_category = some "validation";
    retryable = false;
  }

  abbrev pub review_result : EvidenceWorkflowState F → Option (ToolResult F)
  review_result s =
      if has_text s.failure_category
      then some (rejected_review s.failure_category)
      else s.image_review_result

  abbrev failed_category : Option (ToolResult F) → Option String
  failed_category none = none
  failed_category (some result) = if result.ok then none else result.error_category

module _ {F : Type 0} ⦃r : Runtime F⦄ where
  unfoldable pub assess_evidence : EvidenceWorkflowState F → Result (EvidenceWorkflowState F)
  assess_evidence s = do
    a ← Evidence.assess s.task (review_result s) []
    ok (record s {
      assessment = some a;
      failure_category =
          if has_text s.failure_category
          then s.failure_category
          else failed_category (review_result s);
      steps = s.steps + 1;
    })

  module _ (tools : Tools F) where
    unfoldable pub review_evidence : EvidenceMachine F → EvidenceMachine F
    unfolding review
    review_evidence m =
        let call = review m.state.task in
        record {
          state = record m.state {
            image_review_result = some (tools m.calls call);
            steps = m.state.steps + 1;
          };
          calls = call ∷ m.calls;
        }

    -- A node and the edge that leaves it.
    unfoldable pub evidence_step :
        EvidencePosition → EvidenceMachine F → Result (EvidencePosition × EvidenceMachine F)
    unfolding review_evidence receive_evidence_task route_after_evidence_task
    evidence_step at_receive m =
        let s = receive_evidence_task m.state in
        ok (route_after_evidence_task s, record m { state = s })
    evidence_step at_review m = ok (at_assess, review_evidence m)
    evidence_step at_assess m = do s ← assess_evidence m.state; ok (at_done, record m { state = s })
    evidence_step at_done m = raise (runtime_error "finished")

    -- `graph.invoke`, within a limit on the supersteps.
    unfoldable pub evidence_run :
        ℕ → EvidencePosition → EvidenceMachine F → Result (EvidenceMachine F)
    unfolding evidence_step
    evidence_run limit at_done m = ok m
    evidence_run zero p m = raise (runtime_error "GraphRecursionError")
    evidence_run (suc limit) p m = evidence_step p m >>= λ c. evidence_run limit c.0 c.1

    abbrev pub begin_evidence : EvidenceTask F → EvidenceMachine F
    begin_evidence task = record {
      state = record {
        task = task;
        image_review_result = none;
        assessment = none;
        failure_category = none;
        steps = 0;
      };
      calls = [];
    }

    abbrev pub evidence_of :
        EvidenceMachine F
        → Option (EvidenceAssessment F)
        → Result (EvidenceAssessment F × List (ToolCall F))
    evidence_of m (some a) = ok (a, m.calls)
    evidence_of m none = raise (runtime_error "evidence workflow did not produce an assessment")

    -- `EvidenceWorkflow.handle`, with the calls it made; LangGraph's limit is 25 supersteps.
    unfoldable pub handle_evidence :
        EvidenceTask F → Result (EvidenceAssessment F × List (ToolCall F))
    unfolding evidence_run
    handle_evidence task = do
      m ← evidence_run 25 at_receive (begin_evidence task)
      evidence_of m m.state.assessment
