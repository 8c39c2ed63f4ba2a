-- ===== src/FormalReview/Workflow/Policy.antt =====
-- formal_review/workflows.py: `PolicyWorkflow`, its nodes, its edges and `handle`.
use Prim.Native.String.{◌++◌ as append}
use ecommerce_after_sales_sy.Prelude.{
  ℕ, zero, suc, ◌+◌, String, Bool, true, false, not, ◌&&◌, ◌||◌, Option, none, some, List, [], ◌∷◌,
  nonempty, ltb, if◌then◌else◌,
}
use ecommerce_after_sales_sy.Python.Text.{join}
use ecommerce_after_sales_sy.Python.Value.{Value, obj, end, is_dict}
use ecommerce_after_sales_sy.Python.Result.{Result, ok, raise, runtime_error, ◌>>=◌}
use ecommerce_after_sales_sy.Python.Runtime.{Runtime}
use ecommerce_after_sales_sy.FormalReview.Contracts.{PolicyTask, PolicyAssessment, ToolResult}
use ecommerce_after_sales_sy.FormalReview.Graph.State.{has_text}
use ecommerce_after_sales_sy.FormalReview.Evaluate.Policy
use ecommerce_after_sales_sy.FormalReview.Workflow.Failure.{is_infrastructure_failure}
use ecommerce_after_sales_sy.FormalReview.Workflow.Ports.{ToolCall, Tools, retrieve, retrieve_multi}
use ecommerce_after_sales_sy.FormalReview.Workflow.PolicyState.{
  PolicyWorkflowState, RewriteRequest, RewriteService, PolicyPosition, PolicyMachine,
  missing_fields, result_or_missing, without_retrieval, queries_of, rewritten, unobserved,
  at_receive, at_retrieve, at_observe, at_rewrite, at_multi, at_observe_rewritten, at_finalize,
  at_done,
}

module _ {F : Type 0} where
  unfoldable pub rewrite_request : PolicyTask → Value F → RewriteRequest F
  unfolding join
  rewrite_request task found = record {
    user_question = task.issue;
    task = join "" (
        "评估正式售后审核所需的可信政策覆盖，只改写检索问题，不作业务决定。\nActive skill (" ∷ task.skill_name ∷ "@"
        ∷ task.skill_version ∷ "):\n" ∷ task.skill_instructions ∷ []);
    product_name = task.product_name;
    product_category = task.product_category;
    after_sales_type = task.after_sales_type;
    original_query = task.query;
    retrieval_result = found;
  }

  unfoldable pub receive_policy_task : PolicyWorkflowState F → PolicyWorkflowState F
  unfolding missing_fields join
  receive_policy_task s =
      let missing = missing_fields s.task in
      record s {
        failure_category =
            if nonempty missing
            then some (append "invalid_policy_task:" (join "," missing))
            else none;
        steps = 1;
      }

  -- The rewriting of the queries, where the service, an ok result and a dictionary are there.
  abbrev pub rewrite_of :
      RewriteService F
      → PolicyWorkflowState F
      → Option (ToolResult F)
      → Result (List String × Option String)
  rewrite_of (some evaluate) s (some result) =
      if result.ok && is_dict result.data_value
      then rewritten (evaluate (rewrite_request s.task result.data_value)) s.failure_category
      else ok ([], s.failure_category)
  rewrite_of _ s _ = ok ([], s.failure_category)

  unfoldable pub rewrite_policy_query :
      RewriteService F → PolicyWorkflowState F → Result (PolicyWorkflowState F)
  unfolding rewrite_request queries_of
  rewrite_policy_query service s = do
    d ← rewrite_of service s s.retrieval_result
    ok (record s {
      rewrite_queries = d.0;
      rewrite_completed = true;
      failure_category = d.1;
      steps = s.steps + 1;
    })

  abbrev pub service_present : RewriteService F → Bool
  service_present none = false
  service_present (some evaluate) = true

  unfoldable pub decide_retrieval_next : RewriteService F → PolicyWorkflowState F → PolicyPosition
  decide_retrieval_next service s =
      if service_present service
        && unobserved s.retrieval_observation (λ o. o.trusted_policy_eligible)
        && unobserved s.retrieval_observation (λ o. o.infrastructure_failure)
        && not s.rewrite_completed
        && ltb s.retrieval_attempts 2
      then at_rewrite
      else at_finalize

  unfoldable pub route_after_rewrite : PolicyWorkflowState F → PolicyPosition
  route_after_rewrite s = if nonempty s.rewrite_queries then at_multi else at_finalize

  unfoldable pub route_after_receive : PolicyWorkflowState F → PolicyPosition
  route_after_receive s = if has_text s.failure_category then at_finalize else at_retrieve

module _ {F : Type 0} ⦃r : Runtime F⦄ where
  unfoldable pub observe_policy_result : PolicyWorkflowState F → Result (PolicyWorkflowState F)
  unfolding is_infrastructure_failure
  observe_policy_result s = do
    let result = result_or_missing s.retrieval_result
    a ← Policy.assess s.task result
    let found = if result.ok && is_dict result.data_value then result.data_value else obj end
    ok (record s {
      assessment = some a;
      retrieval_observation = some (record {
        trusted_policy_eligible = a.trusted_policy_eligible;
        retrieval_mode = a.retrieval_mode;
        infrastructure_failure = not result.ok || is_infrastructure_failure found;
        attempt = s.retrieval_attempts;
      });
      failure_category = if result.ok then none else result.error_category;
      steps = s.steps + 1;
    })

  abbrev pub assessed :
      PolicyWorkflowState F → Option (PolicyAssessment F) → Result (PolicyAssessment F)
  assessed s (some a) = ok a
  assessed s none = Policy.assess s.task (without_retrieval s.failure_category)

  unfoldable pub assess_policy : PolicyWorkflowState F → Result (PolicyWorkflowState F)
  assess_policy s = do
    a ← assessed s s.assessment
    ok (record s { assessment = some a; steps = s.steps + 1 })

  module _ (tools : Tools F) (service : RewriteService F) where
    unfoldable pub retrieve_policy : PolicyMachine F → PolicyMachine F
    unfolding retrieve
    retrieve_policy m =
        let call = retrieve m.state.task in
        record {
          state = record m.state {
            retrieval_result = some (tools m.calls call);
            retrieval_attempts = 1;
            steps = m.state.steps + 1;
          };
          calls = call ∷ m.calls;
        }

    unfoldable pub retrieve_policy_multi : PolicyMachine F → PolicyMachine F
    unfolding retrieve_multi
    retrieve_policy_multi m =
        let call = retrieve_multi m.state.task m.state.rewrite_queries in
        record {
          state = record m.state {
            retrieval_result = some (tools m.calls call);
            retrieval_attempts = m.state.retrieval_attempts + 1;
            steps = m.state.steps + 1;
          };
          calls = call ∷ m.calls;
        }

    abbrev pub PolicyConfiguration : Type 0
    PolicyConfiguration = PolicyPosition × PolicyMachine F

    -- A node and the edge that leaves it.
    unfoldable pub policy_step : PolicyPosition → PolicyMachine F → Result PolicyConfiguration
    unfolding retrieve_policy retrieve_policy_multi
    policy_step at_receive m =
        let s = receive_policy_task m.state in ok (route_after_receive s, record m { state = s })
    policy_step at_retrieve m = ok (at_observe, retrieve_policy m)
    policy_step at_observe m = do
      s ← observe_policy_result m.state
      ok (decide_retrieval_next service s, record m { state = s })
    policy_step at_rewrite m = do
      s ← rewrite_policy_query service m.state
      ok (route_after_rewrite s, record m { state = s })
    policy_step at_multi m = ok (at_observe_rewritten, retrieve_policy_multi m)
    policy_step at_observe_rewritten m = do
      s ← observe_policy_result m.state
      ok (at_finalize, record m { state = s })
    policy_step at_finalize m = do s ← assess_policy m.state; ok (at_done, record m { state = s })
    policy_step at_done m = raise (runtime_error "finished")

    -- `graph.invoke`, within a limit on the supersteps.
    unfoldable pub policy_run : ℕ → PolicyPosition → PolicyMachine F → Result (PolicyMachine F)
    unfolding policy_step
    policy_run limit at_done m = ok m
    policy_run zero p m = raise (runtime_error "GraphRecursionError")
    policy_run (suc limit) p m = policy_step p m >>= λ c. policy_run limit c.0 c.1

    abbrev pub begin_policy : PolicyTask → PolicyMachine F
    begin_policy task = record {
      state = record {
        task = task;
        retrieval_result = none;
        assessment = none;
        retrieval_observation = none;
        rewrite_queries = [];
        rewrite_completed = false;
        retrieval_attempts = 0;
        failure_category = none;
        steps = 0;
      };
      calls = [];
    }

    abbrev pub assessment_of :
        PolicyMachine F
        → Option (PolicyAssessment F)
        → Result (PolicyAssessment F × List (ToolCall F))
    assessment_of m (some a) = ok (a, m.calls)
    assessment_of m none = raise (runtime_error "policy workflow did not produce an assessment")

    -- `PolicyWorkflow.handle`, with the calls it made; LangGraph's limit is 25 supersteps.
    unfoldable pub handle_policy : PolicyTask → Result (PolicyAssessment F × List (ToolCall F))
    unfolding policy_run
    handle_policy task = do
      m ← policy_run 25 at_receive (begin_policy task)
      assessment_of m m.state.assessment
