-- ===== src/FormalReview/Graph/Submit.antt =====
-- graph.py: `_submit_verdict`, the body of `submit_review` and `submit_manual_review`.
use ecommerce_after_sales_sy.Prelude.{
  String, Bool, false, not, ◌&&◌, Option, none, some, [], ◌∷◌, ◌++◌, str_eq, if◌then◌else◌,
}
use ecommerce_after_sales_sy.Python.Text.{dedup}
use ecommerce_after_sales_sy.Python.Value.{Value, null, get, is_dict, is_true}
use ecommerce_after_sales_sy.Python.Runtime.{Runtime}
use ecommerce_after_sales_sy.Python.Convert.{or_else, text, text_or_empty, upper}
use ecommerce_after_sales_sy.FormalReview.Contracts.{ToolResult}
use ecommerce_after_sales_sy.FormalReview.Graph.State.{
  submit_ai_review, VerdictArguments, Verdict, approve, manual_review_required, FormalReviewState,
  Collaborators, Settings, Machine, opt_str, or_text, has_text,
}
use ecommerce_after_sales_sy.FormalReview.Graph.Java.{
  stale, from_context, with_default, wanted, answered, formal_skill_versions,
}

-- `before or (None if applied else category or "review_not_applied")`
abbrev pending : Option String → Bool → Option String → Option String
pending before applied category =
    if has_text before
    then before
    else if applied
    then none
    else some (or_text category "review_not_applied")

abbrev verdict_name : Verdict → String
verdict_name approve = "APPROVE"
verdict_name manual_review_required = "MANUAL_REVIEW_REQUIRED"

module _ {F : Type 0} ⦃r : Runtime F⦄ where
  -- The verdict that Java says it recorded.
  pub actual_verdict : Value F → Verdict → String
  actual_verdict answer verdict = upper r.other_upper (
      text (
        or_else (or_else (get "verdict" answer) (get "ai_review_result" answer))
          (opt_str (some (verdict_name verdict)))))

module _ {F : Type 0} ⦃r : Runtime F⦄ (env : Collaborators F) (cfg : Settings F) where
  unfoldable pub verdict_arguments : FormalReviewState F → Verdict → VerdictArguments F
  unfolding formal_skill_versions
  verdict_arguments s verdict = record {
    user_id =
        from_context (λ c. opt_str (some c.user_id)) s.trusted_context (get "user_id" s.payload);
    session_id =
        from_context (λ c. opt_str c.session_id) s.trusted_context (get "session_id" s.payload);
    ticket_id =
        from_context (λ c. opt_str (some c.ticket_id)) s.trusted_context
          (get "ticket_id" s.payload);
    order_id =
        from_context (λ c. opt_str (some c.order_id)) s.trusted_context (get "order_id" s.payload);
    review_request_id = text_or_empty (get "review_request_id" s.payload);
    expected_evidence_revision = with_default s.trusted_context 0 (λ c. c.evidence_revision);
    agent_architecture = "single_agent_skills_tools_retrieval";
    skill_versions = wanted s.skill_versions (formal_skill_versions cfg);
    context_version = with_default s.trusted_context none (λ c. some c.context_version);
    verdict = verdict;
    ai_review_confidence = with_default s.review_proposal r.nought (λ q. q.confidence);
    model_confidence = with_default s.review_proposal r.nought (λ q. q.model_confidence);
    confidence_model_version =
        with_default s.review_proposal none (λ q. q.confidence_model_version);
    confidence_breakdown = with_default s.review_proposal none (λ q. q.confidence_breakdown);
    reason = with_default s.review_proposal "智能审核无法形成可靠结论，转人工审核。" (λ q. q.reason);
    evidence_needed = with_default s.evidence_assessment [] (λ e. e.missing_evidence);
    visual_uncertain = not (with_default s.evidence_assessment false (λ e. e.visual_verifiable));
    policy_uncertain =
        not (with_default s.policy_assessment false (λ p. p.trusted_policy_eligible));
    evidence_consistent = with_default s.evidence_assessment none (λ e. e.evidence_consistent);
    visual_confidence = with_default s.evidence_assessment r.nought (λ e. e.visual_confidence);
    risk_review_reasons = dedup (
        s.gate_reasons
        ++ (s.escalation_reasons
            ++ (with_default s.review_proposal [] (λ q. q.risk_reasons)
                ++ (with_default s.policy_assessment [] (λ p. p.uncertainty_reasons)
                    ++ with_default s.evidence_assessment [] (λ e. e.uncertainty_reasons)))));
    knowledge_retrieval_mode = with_default s.policy_assessment none (λ p. p.retrieval_mode);
    filter_level = with_default s.policy_assessment none (λ p. p.filter_level);
    reranker_succeeded = with_default s.policy_assessment false (λ p. p.reranker_succeeded);
    trusted_policy_eligible =
        with_default s.policy_assessment false (λ p. p.trusted_policy_eligible);
    policy_version = with_default s.trusted_context none (λ c. c.policy_version);
    policy_match_score = with_default s.policy_assessment r.nought (λ p. p.policy_match_score);
    policy_citations = with_default s.policy_assessment [] (λ p. p.citations);
    image_review = with_default s.evidence_assessment none (λ e. e.image_review);
    policy_assessment = s.policy_assessment;
    evidence_assessment = s.evidence_assessment;
  }

  -- The update of `_submit_verdict`, from the answer to its call
  unfoldable pub receive_verdict :
      FormalReviewState F → Verdict → ToolResult F → FormalReviewState F
  unfolding actual_verdict
  receive_verdict s verdict result =
      let answer = answered result in
      let kept = if result.ok && is_dict result.data_value then result.data_value else null in
      let applied = is_true (get "review_applied" answer) in
      let rejection = upper r.other_upper (text_or_empty (get "review_reject_reason" answer)) in
      let approved = str_eq (actual_verdict answer verdict) "APPROVE" in
      let traced = record s {
        tool_trace =
            s.tool_trace
            ++ (record { tool = submit_ai_review (verdict_arguments s verdict); result = result })
              ∷ [];
        review_result = kept;
      } in
      if not applied && str_eq rejection stale
      then record traced {
        submission_outcome = stale;
        final_reply = "";
        need_human = false;
        failure_reason = none;
      }
      else record traced {
        final_reply =
            if applied && approved
            then "您的售后申请已完成智能初审，当前已进入处理中。"
            else if applied
            then "您的售后申请需要人工进一步复核。"
            else "智能初审结果暂时无法确认，将由人工继续核对。";
        need_human = not (applied && approved);
        submission_outcome = if applied then "APPLIED" else "NOT_APPLIED";
        failure_reason = pending s.failure_reason applied result.error_category;
      }

  unfoldable pub submit_verdict : Machine F → Verdict → Machine F
  unfolding receive_verdict verdict_arguments
  submit_verdict m verdict =
      let call = submit_ai_review (verdict_arguments m.state verdict) in
      record {
        state = receive_verdict m.state verdict (env.call m.calls call);
        calls = call ∷ m.calls;
      }
