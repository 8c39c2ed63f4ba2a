-- ===== src/FormalReview/Workflow/Ports.antt =====
-- formal_review/tool_ports.py: the calls of the tool registry that the specialists make.
use ecommerce_after_sales_sy.Prelude.{String, List, [], ◌∷◌, map, take}
use ecommerce_after_sales_sy.Python.Text.{join}
use ecommerce_after_sales_sy.Python.Value.{Value, int, pos, str, arr, obj, Fields, end, field}
use ecommerce_after_sales_sy.Python.Convert.{items_of}
use ecommerce_after_sales_sy.FormalReview.Contracts.{PolicyTask, EvidenceTask, ToolResult}
use ecommerce_after_sales_sy.FormalReview.Context.{present}
use ecommerce_after_sales_sy.FormalReview.Graph.State.{opt_str}

-- A call of the registry.
pub record ToolCall (F : Type 0) : Type 0 where
  pub name : String
  pub arguments : Value F

-- The registry: what it answers to a call may depend on the calls before, the last one first.
abbrev pub Tools : Type 0 → Type 0
Tools F = List (ToolCall F) → ToolCall F → ToolResult F

module _ {F : Type 0} where
  abbrev filters : PolicyTask → Fields F
  filters task = field "merchant_code" (opt_str task.merchant_code) (
      field "product_category" (opt_str task.product_category) (
        field "source_type" (str "after_sales_policy") (
          field "policy_version" (opt_str task.policy_version)
            (field "as_of_time" (opt_str task.business_time) (field "top_k" (int (pos 5)) end)))))

  -- `RegistryPolicyRetrievalPort.retrieve`
  unfoldable pub retrieve : PolicyTask → ToolCall F
  retrieve task = record {
    name = "retrieve_knowledge";
    arguments =
        obj (field "user_id" (str task.user_id) (field "query" (str task.query) (filters task)));
  }

  -- `RegistryPolicyRetrievalPort.retrieve_multi`
  unfoldable pub retrieve_multi : PolicyTask → List String → ToolCall F
  retrieve_multi task queries = record {
    name = "retrieve_knowledge_multi";
    arguments = obj (
        field "user_id" (str task.user_id) (
          field "original_query" (str task.query)
            (field "queries" (arr (items_of (map str (take 3 queries)))) (filters task))));
  }

  -- `RegistryEvidenceReviewPort.review`
  unfoldable pub review : EvidenceTask F → ToolCall F
  unfolding present join
  review task = record {
    name = "review_images";
    arguments = obj (
        field "user_id" (str task.user_id) (
          field "order_id" (str task.order_id) (
            field "attachments" (arr (items_of task.attachments)) (
              field "order_hint"
                (str (join " " (present (task.product_name ∷ task.product_category ∷ []))))
                (field "issue_hint" (str task.issue) (
                  field "skill_name" (str task.skill_name) (
                    field "skill_version" (str task.skill_version)
                      (field "skill_instructions" (str task.skill_instructions) end))))))));
  }
