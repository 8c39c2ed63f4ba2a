-- ===== src/FunctionCalling/Message.antt =====
-- The parts of the model's response, and the action that the workflow is given.
use ecommerce_after_sales_sy.Prelude.{
  String, Bool, true, false, not, Option, none, some, is_some, str_eq, if◌then◌else◌,
}
use Prim.Native.String.{◌++◌ as append}
use ecommerce_after_sales_sy.Python.Text.{strip, is_text}
use ecommerce_after_sales_sy.Python.Value.{
  Value, Fields, null, bool, str, arr, obj, nil, cons, end, field, find, get, is_dict, is_str,
}
use ecommerce_after_sales_sy.Python.Result.{
  Result, ok, raise, raise_if, value_error, function_calling_error, ◌>>=◌, ◌>>◌,
}
use ecommerce_after_sales_sy.FunctionCalling.Schema.{protocol_error}

pub data ProviderShape : Type 0 where
  openai : ProviderShape
  ollama : ProviderShape

pub record NativeDecision (F : Type 0) : Type 0 where
  pub action : Value F
  pub assistant_message : Value F
  pub provider_tool_call_shape : ProviderShape

module _ {F : Type 0} where
  abbrev pub fields_of : Value F → Result (Fields F)
  fields_of (obj fs) = ok fs
  fields_of v = protocol_error

  abbrev pub text_of : Value F → Result String
  text_of (str s) = ok s
  text_of v = protocol_error

  abbrev pub or_protocol_error : Option (Value F) → Result (Value F)
  or_protocol_error (some v) = ok v
  or_protocol_error none = protocol_error

  -- `response["choices"][0]["message"]`
  unfoldable pub first_choice : Value F → Result (Value F)
  first_choice (arr (cons (obj fs) xs)) = or_protocol_error (find "message" fs)
  first_choice v = protocol_error

  abbrev has : String → Fields F → Bool
  has k fs = is_some (find k fs)

  abbrev pub shaped : ProviderShape → Value F → Result (Value F × ProviderShape)
  shaped shape message = do
    raise_if (not (is_dict message)) function_calling_error
    ok (message, shape)

  abbrev pub of_assistant : Value F × ProviderShape → Result (Value F × ProviderShape)
  of_assistant (message, shape) = do
    raise_if (not (is_str (get "role" message) "assistant")) function_calling_error
    ok (message, shape)

  -- The message, given whether the response has choices and whether it has a message.
  abbrev pub message_of : Value F → Bool → Bool → Result (Value F × ProviderShape)
  message_of response true false = first_choice (get "choices" response) >>= shaped openai
  message_of response false true = shaped ollama (get "message" response) >>= of_assistant
  message_of response _ _ = protocol_error

  -- `_assistant_message`
  unfoldable pub assistant_message : Value F → Result (Value F × ProviderShape)
  unfolding first_choice
  assistant_message response = do
    fs ← fields_of response
    message_of response (has "choices" fs) (has "message" fs)

  -- `_single_tool_call`
  abbrev pub only_call : Value F → Result (Value F)
  only_call (arr (cons (obj fs) nil)) = ok (obj fs)
  only_call v = protocol_error

  unfoldable pub single_tool_call : Value F → Result (Value F)
  single_tool_call message = only_call (get "tool_calls" message)

  abbrev pub nonblank : Value F → Result String
  nonblank (str s) = if is_text (strip s) then ok s else protocol_error
  nonblank v = protocol_error

  abbrev pub id_of : String → ProviderShape → Value F → Result String
  id_of hex ollama null = ok (append "call_ollama_" hex)
  id_of hex shape v = nonblank v

  -- `_call_id`, where `hex` is `uuid.uuid4().hex`
  unfoldable pub call_id : String → Value F → ProviderShape → Result String
  unfolding strip
  call_id hex call shape = id_of hex shape (get "id" call)

  abbrev pub check_type : ProviderShape → Value F → Result (Unit {0})
  check_type ollama null = ok tt
  check_type shape v = raise_if (not (is_str v "function")) function_calling_error

  -- `_validate_call_type`
  unfoldable pub validate_call_type : Value F → ProviderShape → Result (Unit {0})
  validate_call_type call shape = check_type shape (get "type" call)

  -- `_arguments`, where `loads` is `json.loads` without the constants that JSON lacks
  abbrev pub or_invalid_json : Result (Value F) → Result (Value F)
  or_invalid_json (raise (value_error t)) = protocol_error
  or_invalid_json m = m

  unfoldable pub arguments :
      (String → Result (Value F)) → Value F → ProviderShape → Result (Fields F)
  arguments loads raw ollama = fields_of raw
  arguments loads raw openai = do
    text ← text_of raw
    value ← or_invalid_json (loads text)
    fields_of value

  -- The one tool call of a message that is kept.
  abbrev pub canonical_call : String → String → Fields F → Value F
  canonical_call id name args = obj (
      field "id" (str id) (
        field "type" (str "function") (
          field "function" (obj (field "name" (str name) (field "arguments" (obj args) end))) end)))

  abbrev pub is_content : Value F → Bool
  is_content null = true
  is_content (str s) = true
  is_content v = false

  -- `_canonical_assistant_message`
  unfoldable pub canonical_assistant_message :
      Value F → String → String → Fields F → Result (Value F)
  canonical_assistant_message source id name args = do
    raise_if (not (is_content (get "content" source))) function_calling_error
    ok (
        obj (
          field "role" (str "assistant") (
            field "content" (get "content" source)
              (field "tool_calls" (arr (cons (canonical_call id name args) nil)) end))))

  -- `if key in arguments: action[key] = arguments[key]`
  abbrev pub copy_key : String → Fields F → Fields F → Fields F
  copy_key k args rest = elim (find k args) [ some v ↦ field k v rest | none ↦ rest ]

  abbrev pub final_action : Fields F → String → String → Value F
  final_action args id reply = obj (
      field "action" (str "final_reply") (
        field "assistant_reply" (str reply) (
          field "tool_call_id" (str id)
            (copy_key "need_human" args (copy_key "evidence_needed" args end)))))

  abbrev pub handoff_action : Fields F → String → Value F
  handoff_action args id = obj (
      field "action" (str "human_handoff") (
        field "tool_call_id" (str id) (
          field "need_human" (bool true)
            (copy_key "assistant_reply" args (copy_key "evidence_needed" args end)))))

  abbrev pub tool_action : String → Fields F → String → Value F
  tool_action name args id = obj (
      field "action" (str "tool_call") (
        field "tool_name" (str name)
          (field "tool_arguments" (obj args) (field "tool_call_id" (str id) end))))

  -- `_normalize_action`
  unfoldable pub normalize_action : String → Fields F → String → Result (Value F)
  normalize_action name args id =
      if str_eq name "final_reply"
      then text_of (get "assistant_reply" (obj args)) >>= (λ reply. ok (final_action args id reply))
      else if str_eq name "handoff_to_human"
      then ok (handoff_action args id)
      else ok (tool_action name args id)
