-- ===== src/FunctionCalling/Raises.antt =====
-- What the adapter raises on a response.
use mathlib.Core.Path.{subst}
use ecommerce_after_sales_sy.Prelude.{sym, String, Bool, true, false, not, str_eq, is_some}
use ecommerce_after_sales_sy.Python.Text.{strip, mem}
use ecommerce_after_sales_sy.Python.Value.{
  Value, Fields, null, bool, int, float, str, arr, obj, find, get, is_dict, is_str,
}
use ecommerce_after_sales_sy.Python.Result.{Result, ok, raise}
use ecommerce_after_sales_sy.Python.Ensures.{Raises}
use ecommerce_after_sales_sy.Python.Runtime.{Runtime}
use ecommerce_after_sales_sy.FunctionCalling.Schema.{validate_value}
use ecommerce_after_sales_sy.FunctionCalling.Message.{
  ProviderShape, openai, ollama, fields_of, text_of, first_choice, shaped, message_of,
  assistant_message, id_of, check_type, single_tool_call, nonblank, call_id, validate_call_type,
  or_invalid_json, arguments, is_content, canonical_assistant_message, normalize_action,
}
use ecommerce_after_sales_sy.FunctionCalling.Decide.{
  Registry, Provider, provider_tools, known_names, schema_for_name, function_of, read_call,
  decide_on,
}
use ecommerce_after_sales_sy.FunctionCalling.Refused.{
  Protocol, IsValueError, own, chain, branch, raise_if-Raises, guarded, fields_of-Raises,
  text_of-Raises, nonblank-Raises, only_call-Raises, first_choice-Raises, schema_for_name-Raises,
  validate_value-Raises,
}

invalid_json :
    {F : Type 0} (m : Result (Value F))
    → Raises IsValueError m
    → Raises Protocol (or_invalid_json m)
invalid_json (ok v) h = tt
invalid_json {F = F} (raise e) (t, h) =
    subst (λ x. Raises Protocol (or_invalid_json {F = F} (raise x))) (sym h) own

module _ {F : Type 0} ⦃r : Runtime F⦄ (provider : Provider F) (registry : Registry F)
    (loads_raises : (s : String) → Raises IsValueError (provider.loads s)) where
  arguments-Raises :
      (raw : Value F) (shape : ProviderShape) → Raises Protocol (arguments provider.loads raw shape)
  unfolding arguments
  arguments-Raises raw ollama = fields_of-Raises raw
  arguments-Raises raw openai = chain (text_of raw) _ (text_of-Raises raw) (λ text.
      chain (or_invalid_json (provider.loads text)) _
        (invalid_json (provider.loads text) (loads_raises text)) fields_of-Raises)

  read_call-Raises :
      (call : Value F) (shape : ProviderShape) (id : String)
      → Raises Protocol (read_call provider registry call shape id)
  unfolding read_call
  read_call-Raises call shape id =
      chain (function_of call) _ (guarded (not (is_dict (get "function" call))) _ tt) (λ function.
        chain (nonblank (get "name" function)) _ (nonblank-Raises (get "name" function)) (λ spelled.
          guarded (not (mem (strip spelled) (known_names registry))) _ (
            chain (arguments provider.loads (get "arguments" function) shape) _
              (arguments-Raises _ shape)
              (λ args.
                chain (schema_for_name (strip spelled) (provider_tools registry)) _
                  (schema_for_name-Raises (strip spelled) (provider_tools registry))
                  (λ schema.
                    chain (validate_value r.fits_float (obj args) schema) _
                      (validate_value-Raises r.fits_float (obj args) schema) (λ done. tt))))))

  shaped-Raises : (shape : ProviderShape) (m : Value F) → Raises Protocol (shaped shape m)
  shaped-Raises shape m = guarded (not (is_dict m)) _ tt

  message_of-Raises : (response : Value F) (a b : Bool) → Raises Protocol (message_of response a b)
  message_of-Raises response true true = own
  message_of-Raises response true false =
      chain (first_choice (get "choices" response)) _ (first_choice-Raises (get "choices" response))
        (shaped-Raises openai)
  message_of-Raises response false true =
      chain (shaped ollama (get "message" response)) _
        (shaped-Raises ollama (get "message" response))
        (λ found. guarded (not (is_str (get "role" found.0) "assistant")) _ tt)
  message_of-Raises response false false = own

  assistant_message-Raises : (response : Value F) → Raises Protocol (assistant_message response)
  unfolding assistant_message
  assistant_message-Raises response =
      chain (fields_of response) _ (fields_of-Raises response) (λ fs.
        message_of-Raises response (is_some (find "choices" fs)) (is_some (find "message" fs)))

  call_id-Raises :
      (hex : String) (shape : ProviderShape) (v : Value F) → Raises Protocol (id_of hex shape v)
  call_id-Raises hex openai v = nonblank-Raises v
  call_id-Raises hex ollama null = tt
  call_id-Raises hex ollama (bool b) = own
  call_id-Raises hex ollama (int n) = own
  call_id-Raises hex ollama (float x) = own
  call_id-Raises hex ollama (str s) = nonblank-Raises {F = F} (str s)
  call_id-Raises hex ollama (arr xs) = own
  call_id-Raises hex ollama (obj fs) = own

  check_type-Raises : (shape : ProviderShape) (v : Value F) → Raises Protocol (check_type shape v)
  check_type-Raises openai v = raise_if-Raises (not (is_str v "function")) _ own
  check_type-Raises ollama null = tt
  check_type-Raises ollama (bool b) = own
  check_type-Raises ollama (int n) = own
  check_type-Raises ollama (float x) = own
  check_type-Raises ollama (str s) = raise_if-Raises (not (str_eq s "function")) _ own
  check_type-Raises ollama (arr xs) = own
  check_type-Raises ollama (obj fs) = own

  normalize_action-Raises :
      (name : String) (args : Fields F) (id : String)
      → Raises Protocol (normalize_action name args id)
  unfolding normalize_action
  normalize_action-Raises name args id =
      branch (str_eq name "final_reply") _ _
        (chain (text_of (get "assistant_reply" (obj args))) _ (text_of-Raises _) (λ reply. tt))
        (branch (str_eq name "handoff_to_human") _ _ tt tt)

  -- Whatever the model responds, where `json.loads` raises nothing but a ValueError, the adapter
  -- raises nothing but its own error, or the TypeError of a schema with a required name that is no text.
  pub decide_on-Raises :
      (response : Value F) → Raises Protocol (decide_on provider registry response)
  unfolding decide_on canonical_assistant_message single_tool_call call_id validate_call_type
  decide_on-Raises response =
      chain (assistant_message response) _ (assistant_message-Raises response) (λ found.
        chain (single_tool_call found.0) _ (only_call-Raises (get "tool_calls" found.0)) (λ call.
          chain (call_id provider.hex call found.1) _
            (call_id-Raises provider.hex found.1 (get "id" call))
            (λ id.
              chain (validate_call_type call found.1) _
                (check_type-Raises found.1 (get "type" call))
                (λ typed.
                  chain (read_call provider registry call found.1 id) _
                    (read_call-Raises call found.1 id)
                    (λ c.
                      chain (canonical_assistant_message found.0 c.id c.name c.arguments) _
                        (guarded (not (is_content (get "content" found.0))) _ tt)
                        (λ message.
                          chain (normalize_action c.name c.arguments c.id) _
                            (normalize_action-Raises c.name c.arguments c.id) (λ action. tt)))))))
