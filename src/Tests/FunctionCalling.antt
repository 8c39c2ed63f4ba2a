-- ===== src/Tests/FunctionCalling.antt =====
-- A decision on a response in the shape of Ollama that asks for one search of orders.
use ecommerce_after_sales_sy.Prelude.{ℕ, ◌≡◌, refl, String, false, [], ◌∷◌}
use ecommerce_after_sales_sy.Python.Text.{strip, lstrip, rstrip, mem}
use ecommerce_after_sales_sy.Python.Value.{
  Value, null, bool, int, pos, str, arr, obj, nil, cons, end, field,
}
use ecommerce_after_sales_sy.Python.Result.{ok, raise, value_error, function_calling_error}
use ecommerce_after_sales_sy.FunctionCalling.Schema.{
  has_other, lacks, has_unknown, check_object, is_scalar, validate_scalar, validate_value,
}
use ecommerce_after_sales_sy.FunctionCalling.Message.{
  NativeDecision, ollama, first_choice, assistant_message, single_tool_call, call_id,
  validate_call_type, arguments, canonical_call, canonical_assistant_message, normalize_action,
  tool_action,
}
use ecommerce_after_sales_sy.FunctionCalling.Decide.{
  ToolSpec, Registry, Provider, provider_tools, known_names, schema_for_name, messages, read_call,
  decide_on, decide_call,
}
use ecommerce_after_sales_sy.FunctionCalling.Decided.{Decided, decide_call-Decided}
use ecommerce_after_sales_sy.Python.Ensures.{Raises}
use ecommerce_after_sales_sy.FunctionCalling.Refused.{Protocol, IsValueError}
use ecommerce_after_sales_sy.FunctionCalling.Raises.{decide_on-Raises}
use ecommerce_after_sales_sy.Tests.Demo.{demo}

abbrev of_type : String → Value ℕ
of_type t = obj (field "type" (str t) end)

abbrev search_orders : ToolSpec ℕ
search_orders = record {
  name = "search_user_orders";
  description = "Search only the current user's orders.";
  input_schema = obj (
      field "type" (str "object") (
        field "properties"
          (obj (
            field "keyword" (of_type "string") (
              field "status_filter"
                (obj (field "type" (str "array") (field "items" (of_type "string") end))) end)))
          (field "required" (arr nil) (field "additionalProperties" (bool false) end))));
}

abbrev registry : Registry ℕ
registry = record { tool_specs = search_orders ∷ []; names = "search_user_orders" ∷ [] }

abbrev asked : Value ℕ → Value ℕ
asked args = obj (
    field "message"
      (obj (
        field "role" (str "assistant") (
          field "tool_calls"
            (arr (
              cons
                (obj (
                  field "id" (str "c1") (
                    field "function"
                      (obj (field "name" (str "search_user_orders ") (field "arguments" args end)))
                      end)))
                nil))
            end)))
      end)

abbrev filter_of : Value ℕ → Value ℕ
filter_of v = obj (field "status_filter" (arr (cons v nil)) end)

abbrev provider : Value ℕ → Provider ℕ
provider args = record {
  chat = λ messages tools. ok (asked args);
  dumps = λ v. "{}";
  loads = λ s. raise (value_error "no JSON");
  hex = "0";
}

abbrev decision : NativeDecision ℕ
decision = record {
  action =
      tool_action "search_user_orders" (field "status_filter" (arr (cons (str "paid") nil)) end)
        "c1";
  assistant_message = obj (
      field "role" (str "assistant") (
        field "content" null (
          field "tool_calls"
            (arr (
              cons
                (canonical_call "c1" "search_user_orders"
                  (field "status_filter" (arr (cons (str "paid") nil)) end))
                nil))
            end)));
  provider_tool_call_shape = ollama;
}

decides : decide_call (provider (filter_of (str "paid"))) registry "help" null [] ≡ ok decision
unfolding decide_call decide_on read_call normalize_action canonical_assistant_message arguments
    validate_call_type call_id single_tool_call assistant_message first_choice messages
    schema_for_name known_names provider_tools validate_value validate_scalar is_scalar check_object
    has_unknown lacks has_other mem strip lstrip rstrip
decides = refl

-- An item of the wrong type is refused.
refuses :
    decide_call (provider (filter_of (int (pos 1)))) registry "help" null []
    ≡ raise function_calling_error
unfolding decide_call decide_on read_call normalize_action canonical_assistant_message arguments
    validate_call_type call_id single_tool_call assistant_message first_choice messages
    schema_for_name known_names provider_tools validate_value validate_scalar is_scalar check_object
    has_unknown lacks has_other mem strip lstrip rstrip
refuses = refl

decide_call-Decided_example : Decided (provider (filter_of (str "paid"))) registry decision
decide_call-Decided_example =
    decide_call-Decided (provider (filter_of (str "paid"))) registry "help" null [] decision decides

no_json : (s : String) → Raises IsValueError ((provider null).loads s)
no_json s = ("no JSON", refl)

decide_on-Raises_example :
    Raises Protocol
      (decide_on (provider (filter_of (int (pos 1)))) registry (asked (filter_of (int (pos 1)))))
decide_on-Raises_example =
    decide_on-Raises (provider (filter_of (int (pos 1)))) registry no_json
      (asked (filter_of (int (pos 1))))
