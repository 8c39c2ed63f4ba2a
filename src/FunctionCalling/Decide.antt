-- ===== src/FunctionCalling/Decide.antt =====
-- `FunctionCallingAdapter.decide`. The client, the JSON codec and the random id are parameters.
use ecommerce_after_sales_sy.Prelude.{String, false, not, List, [], ◌∷◌, ◌++◌, map, if◌then◌else◌}
use ecommerce_after_sales_sy.Python.Text.{strip, mem}
use ecommerce_after_sales_sy.Python.Value.{
  Value, Fields, bool, str, arr, obj, nil, cons, end, field, get, is_dict, is_str,
}
use ecommerce_after_sales_sy.Python.Result.{
  Result, ok, raise_if, function_calling_error, ◌>>=◌, ◌>>◌,
}
use ecommerce_after_sales_sy.Python.Runtime.{Runtime}
use ecommerce_after_sales_sy.FunctionCalling.Schema.{protocol_error, validate_value}
use ecommerce_after_sales_sy.FunctionCalling.Message.{
  ProviderShape, NativeDecision, nonblank, assistant_message, single_tool_call, call_id,
  validate_call_type, arguments, canonical_assistant_message, normalize_action,
}

-- What the adapter reads of an entry of `registry.tool_specs()`.
pub record ToolSpec (F : Type 0) : Type 0 where
  pub name : String
  pub description : String
  pub input_schema : Value F

pub record Registry (F : Type 0) : Type 0 where
  pub tool_specs : List (ToolSpec F)
  -- The keys of `registry.registry()`.
  pub names : List String

-- `chat messages tools` calls the model, with the fixed options.
pub record Provider (F : Type 0) : Type 0 where
  pub chat : List (Value F) → List (Value F) → Result (Value F)
  pub dumps : Value F → String
  pub loads : String → Result (Value F)
  pub hex : String

-- The tool call that the model asks for, once it is checked.
pub record Call (F : Type 0) : Type 0 where
  pub id : String
  pub name : String
  pub arguments : Fields F

module _ {F : Type 0} where
  abbrev typed : String → Fields F → Value F
  typed t fs = obj (field "type" (str t) fs)

  abbrev final_schema : Value F
  final_schema = typed "object" (
      field "properties"
        (obj (
          field "assistant_reply" (typed "string" end) (
            field "need_human" (typed "boolean" end) (
              field "evidence_needed" (typed "array" (field "items" (typed "string" end) end))
                end))))
        (field "required" (arr (cons (str "assistant_reply") nil))
          (field "additionalProperties" (bool false) end)))

  abbrev pub provider_tool : ToolSpec F → Value F
  provider_tool spec = typed "function" (
      field "function"
        (obj (
          field "name" (str spec.name) (
            field "description" (str spec.description) (field "parameters" spec.input_schema end))))
        end)

  abbrev final_spec : ToolSpec F
  final_spec = record {
    name = "final_reply";
    description = "Return the final user-facing reply without executing a tool.";
    input_schema = final_schema;
  }

  -- `_provider_tools`
  unfoldable pub provider_tools : Registry F → List (Value F)
  provider_tools registry = map provider_tool (registry.tool_specs ++ (final_spec ∷ []))

  -- `_known_names`
  unfoldable pub known_names : Registry F → List String
  known_names registry = registry.names ++ ("final_reply" ∷ [])

  -- `_schema_for_name`
  unfoldable pub schema_for_name : String → List (Value F) → Result (Value F)
  schema_for_name name [] = protocol_error
  schema_for_name name (tool ∷ tools) =
      let rest = schema_for_name name tools in
      let function = get "function" tool in
      if is_str (get "name" function) name
      then if is_dict (get "parameters" function)
        then ok (get "parameters" function)
        else protocol_error
      else rest

  abbrev said : String → Value F → Value F
  said role content = obj (field "role" (str role) (field "content" content end))

  -- The conversation that the model is sent.
  unfoldable pub messages : (Value F → String) → String → Value F → List (Value F) → List (Value F)
  messages dumps system_prompt payload prior =
      said "system" (str system_prompt) ∷ (prior ++ (said "user" (str (dumps payload)) ∷ []))

  abbrev pub function_of : Value F → Result (Value F)
  function_of call = do
    raise_if (not (is_dict (get "function" call))) function_calling_error
    ok (get "function" call)

  module _ ⦃r : Runtime F⦄ (provider : Provider F) (registry : Registry F) where
    -- The name and the arguments of a call, which must fit the schema of the tool.
    unfoldable pub read_call : Value F → ProviderShape → String → Result (Call F)
    unfolding known_names mem strip arguments schema_for_name provider_tools validate_value
    read_call call shape id = do
      function ← function_of call
      spelled ← nonblank (get "name" function)
      raise_if (not (mem (strip spelled) (known_names registry))) function_calling_error
      args ← arguments provider.loads (get "arguments" function) shape
      schema ← schema_for_name (strip spelled) (provider_tools registry)
      validate_value r.fits_float (obj args) schema
      ok (record { id = id; name = strip spelled; arguments = args })

    -- The decision on a response of the model.
    unfoldable pub decide_on : Value F → Result (NativeDecision F)
    unfolding assistant_message single_tool_call call_id validate_call_type read_call
        canonical_assistant_message normalize_action
    decide_on response = do
      found ← assistant_message response
      call ← single_tool_call found.0
      id ← call_id provider.hex call found.1
      validate_call_type call found.1
      checked ← read_call call found.1 id
      message ← canonical_assistant_message found.0 checked.id checked.name checked.arguments
      action ← normalize_action checked.name checked.arguments checked.id
      ok (record {
        action = action;
        assistant_message = message;
        provider_tool_call_shape = found.1;
      })

    -- `decide`
    unfoldable pub decide_call : String → Value F → List (Value F) → Result (NativeDecision F)
    unfolding messages provider_tools decide_on
    decide_call system_prompt payload prior =
        provider.chat (messages provider.dumps system_prompt payload prior)
          (provider_tools registry)
        >>= decide_on
