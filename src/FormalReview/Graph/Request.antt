-- ===== src/FormalReview/Graph/Request.antt =====
-- graph.py: `request_missing_evidence`.
use Prim.Native.String.{◌++◌ as append}
use ecommerce_after_sales_sy.Prelude.{
  String, not, ◌&&◌, ◌||◌, Option, none, some, List, [], ◌∷◌, ◌++◌, nonempty, str_eq, if◌then◌else◌,
}
use ecommerce_after_sales_sy.Python.Text.{join}
use ecommerce_after_sales_sy.Python.Value.{Value, get}
use ecommerce_after_sales_sy.Python.Result.{Result, ok, raise, runtime_error, ◌>>=◌}
use ecommerce_after_sales_sy.Python.Runtime.{Runtime}
use ecommerce_after_sales_sy.Python.Convert.{or_else, text_or_empty, upper}
use ecommerce_after_sales_sy.FormalReview.Contracts.{ToolResult}
use ecommerce_after_sales_sy.FormalReview.Graph.State.{
  request_missing_evidence, EvidenceArguments, FormalReviewState, Collaborators, Machine,
  GateAction, AgentSkill, opt_str, or_text,
}
use ecommerce_after_sales_sy.FormalReview.Graph.Java.{
  stale, from_context, with_default, outcome, wanted, answered,
}

-- `versions[name] = version`
put_version : String → String → List (String × String) → List (String × String)
put_version k v [] = (k, v) ∷ []
put_version k v ((j, w) ∷ rest) =
    if str_eq j k then (k, v) ∷ rest else (j, w) ∷ put_version k v rest

unfoldable pub require_skill : String → Option AgentSkill → Result AgentSkill
require_skill stage none =
    raise (runtime_error (append "required formal review skill is missing: " stage))
require_skill stage (some skill) = ok skill

module _ {F : Type 0} ⦃r : Runtime F⦄ (env : Collaborators F) where
  missing_items : FormalReviewState F → List String
  missing_items s =
      wanted s.evidence_needed (with_default s.evidence_assessment [] (λ e. e.missing_evidence))

  evidence_reply : List String → String
  unfolding join
  evidence_reply missing =
      if nonempty missing
      then append "为便于继续审核，请补充：" (append (join "、" missing) "。")
      else "为便于继续审核，请补充相关问题凭证。"

  evidence_arguments : FormalReviewState F → EvidenceArguments F
  unfolding missing_items evidence_reply
  evidence_arguments s = record {
    user_id =
        from_context (λ c. opt_str (some c.user_id)) s.trusted_context (get "user_id" s.payload);
    session_id =
        from_context (λ c. opt_str c.session_id) s.trusted_context (get "session_id" s.payload);
    ticket_id =
        from_context (λ c. opt_str (some c.ticket_id)) s.trusted_context
          (get "ticket_id" s.payload);
    order_id =
        from_context (λ c. opt_str (some c.order_id)) s.trusted_context (get "order_id" s.payload);
    review_request_id = text_or_empty (get "review_request_id" s.payload);
    evidence_revision = with_default s.trusted_context 0 (λ c. c.evidence_revision);
    assistant_reply = evidence_reply (missing_items s);
    evidence_needed = missing_items s;
  }

  -- The reason for which Java did not take the request.
  request_rejection : Value F → String
  request_rejection answer = upper r.other_upper (
      text_or_empty (or_else (get "review_reject_reason" answer) (get "reviewRejectReason" answer)))

  -- The update of `request_missing_evidence`, from the answer to its call
  receive_request : FormalReviewState F → AgentSkill → ToolResult F → FormalReviewState F
  unfolding request_rejection missing_items evidence_reply put_version
  receive_request s skill result =
      let rejection = request_rejection (answered result) in
      let stale_evidence = str_eq rejection stale in
      let applied = result.ok && not stale_evidence in
      record s {
        tool_trace =
            s.tool_trace
            ++ (record { tool = request_missing_evidence (evidence_arguments s); result = result })
              ∷ [];
        evidence_request_applied = applied;
        evidence_request_outcome = rejection;
        evidence_needed = missing_items s;
        skill_versions = put_version skill.name skill.version s.skill_versions;
        final_reply =
            outcome applied stale_evidence (evidence_reply (missing_items s)) ""
              "补充凭证请求暂时无法确认，售后申请将转由人工继续核对。";
        need_human = not result.ok && not stale_evidence;
        failure_reason =
            if applied || stale_evidence
            then none
            else some (or_text result.error_category "evidence_request_failed");
        gate_action =
            outcome applied stale_evidence GateAction.request_evidence GateAction.stale_evidence
              GateAction.manual_review;
      }

  unfoldable pub request_evidence_node : Machine F → Result (Machine F)
  unfolding receive_request require_skill evidence_arguments
  request_evidence_node m = do
    skill ← require_skill "evidence_collection" (env.select_skill "evidence_collection")
    let call = request_missing_evidence (evidence_arguments m.state)
    ok (record {
      state = receive_request m.state skill (env.call m.calls call);
      calls = call ∷ m.calls;
    })
