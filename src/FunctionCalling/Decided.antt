-- ===== src/FunctionCalling/Decided.antt =====
-- What a decision promises.
use mathlib.Core.Path.{subst}
use ecommerce_after_sales_sy.Prelude.{◌≡◌, refl, sym, ap, String, true, not, List, str_eq, arith}
use ecommerce_after_sales_sy.Python.Text.{strip, mem}
use ecommerce_after_sales_sy.Python.Value.{Value, str, obj, get}
use ecommerce_after_sales_sy.Python.Result.{
  ok, function_calling_error, raised, if_ok, >>=-eq-ok, ok-injective,
}
use ecommerce_after_sales_sy.Python.Runtime.{Runtime}
use ecommerce_after_sales_sy.FunctionCalling.Schema.{validate_value}
use ecommerce_after_sales_sy.FunctionCalling.Within.{Within, Fits, valid-all}
use ecommerce_after_sales_sy.FunctionCalling.Message.{
  NativeDecision, ProviderShape, nonblank, text_of, is_content, assistant_message, single_tool_call,
  call_id, validate_call_type, arguments, canonical_call, canonical_assistant_message,
  normalize_action,
}
use ecommerce_after_sales_sy.FunctionCalling.Decide.{
  Registry, Provider, Call, provider_tools, known_names, schema_for_name, function_of, messages,
  read_call, decide_on, decide_call,
}

module _ {F : Type 0} ⦃r : Runtime F⦄ (provider : Provider F) (registry : Registry F) where
  -- The tool is known, and every value within the arguments fits the schema it is under.
  abbrev pub Allowed : Call F → Type 0
  Allowed c =
      (mem c.name (known_names registry) ≡ true)
      × ((schema : Value F) × (schema_for_name c.name (provider_tools registry) ≡ ok schema)
          × ((w t : Value F) → Within (obj c.arguments) schema w t → Fits r.fits_float w t))

  read_call-Allowed :
      (call : Value F) (shape : ProviderShape) (id : String) (c : Call F)
      → read_call provider registry call shape id ≡ ok c
      → Allowed c
  unfolding read_call
  read_call-Allowed call shape id c h =
      let (function, f, h1) = >>=-eq-ok (function_of call) _ h in
      let (spelled, n, h2) = >>=-eq-ok (nonblank (get "name" function)) _ h1 in
      let (known, h3) = raised (not (mem (strip spelled) (known_names registry))) _ h2 in
      let (args, a, h4) =
        >>=-eq-ok (arguments provider.loads (get "arguments" function) shape) _ h3 in
      let (schema, s, h5) =
        >>=-eq-ok (schema_for_name (strip spelled) (provider_tools registry)) _ h4 in
      let (done, v, h6) = >>=-eq-ok (validate_value r.fits_float (obj args) schema) _ h5 in
      subst Allowed (ok-injective h6) (
        ground arith,
        (schema, s, λ w t inside. valid-all r.fits_float (obj args) schema w t inside v),
      )

  -- The action and the message that is kept both say the call.
  abbrev pub Says : NativeDecision F → Call F → Type 0
  Says d c =
      (normalize_action c.name c.arguments c.id ≡ ok d.action)
      × (get "tool_call_id" d.action ≡ str c.id)
      × (single_tool_call d.assistant_message ≡ ok (canonical_call c.id c.name c.arguments))

  abbrev pub Decided : NativeDecision F → Type 0
  Decided d = (c : Call F) × Allowed c × Says d c

  action_id :
      (c : Call F) (action : Value F)
      → normalize_action c.name c.arguments c.id ≡ ok action
      → get "tool_call_id" action ≡ str c.id
  unfolding normalize_action
  action_id c action h =
      if_ok (str_eq c.name "final_reply") _ _
        (λ p e.
          let (reply, t, e') = >>=-eq-ok (text_of (get "assistant_reply" (obj c.arguments))) _ e in
          ap (get "tool_call_id") (sym (ok-injective e')))
        (λ p e.
          if_ok (str_eq c.name "handoff_to_human") _ _
            (λ q f. ap (get "tool_call_id") (sym (ok-injective f)))
            (λ q f. ap (get "tool_call_id") (sym (ok-injective f))) e)
        h

  message_call :
      (source : Value F) (c : Call F) (message : Value F)
      → canonical_assistant_message source c.id c.name c.arguments ≡ ok message
      → single_tool_call message ≡ ok (canonical_call c.id c.name c.arguments)
  unfolding canonical_assistant_message single_tool_call
  message_call source c message h =
      let (content, e) =
        raised (not (is_content (get "content" source))) function_calling_error h in
      subst (λ m. single_tool_call m ≡ ok (canonical_call c.id c.name c.arguments)) (ok-injective e)
        refl

  decide_on-Decided :
      (response : Value F) (d : NativeDecision F)
      → decide_on provider registry response ≡ ok d
      → Decided d
  unfolding decide_on
  decide_on-Decided response d h =
      let (found, m, h1) = >>=-eq-ok (assistant_message response) _ h in
      let (call, o, h2) = >>=-eq-ok (single_tool_call found.0) _ h1 in
      let (id, i, h3) = >>=-eq-ok (call_id provider.hex call found.1) _ h2 in
      let (typed, t, h4) = >>=-eq-ok (validate_call_type call found.1) _ h3 in
      let (c, k, h5) = >>=-eq-ok (read_call provider registry call found.1 id) _ h4 in
      let (message, s, h6) =
        >>=-eq-ok (canonical_assistant_message found.0 c.id c.name c.arguments) _ h5 in
      let (action, a, h7) = >>=-eq-ok (normalize_action c.name c.arguments c.id) _ h6 in
      subst Decided (ok-injective h7) (
        c,
        read_call-Allowed call found.1 id c k,
        (a, action_id c action a, message_call found.0 c message s),
      )

  -- Where a decision is returned, it rests on one call of a known tool, and every value within the
  -- arguments, at whatever depth, fits the part of the tool's schema that it is under; the action is
  -- the one of this call and carries its id, and the message that is kept has exactly this call.
  pub decide_call-Decided :
      (system_prompt : String) (payload : Value F) (prior : List (Value F)) (d : NativeDecision F)
      → decide_call provider registry system_prompt payload prior ≡ ok d
      → Decided d
  unfolding decide_call
  decide_call-Decided system_prompt payload prior d h =
      let (response, a, e) =
        >>=-eq-ok
          (provider.chat (messages provider.dumps system_prompt payload prior)
            (provider_tools registry))
          _ h in
      decide_on-Decided response d e
