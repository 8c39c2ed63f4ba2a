-- ===== src/FormalReview/Synthesis.antt =====
-- formal_review/synthesis.py: the proposal for a complex case, read from the model's answer.
use ecommerce_after_sales_sy.Prelude.{String, ◌||◌, Option, none, map, keep, str_eq, if◌then◌else◌}
use ecommerce_after_sales_sy.Python.Text.{is_text, strip, slice_to}
use ecommerce_after_sales_sy.Python.Value.{Value, get}
use ecommerce_after_sales_sy.Python.Result.{Result, ok, raise_if, overflow_error, ◌>>=◌, ◌>>◌}
use ecommerce_after_sales_sy.Python.Runtime.{Runtime}
use ecommerce_after_sales_sy.Python.Convert.{text, text_or_empty, iterate_or_empty, upper}
use ecommerce_after_sales_sy.FormalReview.Contracts.{
  TrustedCaseContext, PolicyAssessment, EvidenceAssessment, ReviewProposal,
}
use ecommerce_after_sales_sy.FormalReview.Score.{score_value, score_overflows}

-- What the prompt of `synthesize` carries.
pub record SynthesisRequest (F : Type 0) : Type 0 where
  pub issue : String
  pub ticket_status : String
  pub policy_version : Option String
  pub context_version : String
  pub policy : PolicyAssessment F
  pub evidence : EvidenceAssessment F

-- A verdict outside the two that are allowed becomes a manual review.
abbrev pub known_verdict : String → String
known_verdict v =
    if str_eq v "APPROVE" || str_eq v "MANUAL_REVIEW_REQUIRED" then v else "MANUAL_REVIEW_REQUIRED"

abbrev or_default : String → String → String
or_default s d = if is_text s then s else d

module _ {F : Type 0} ⦃r : Runtime F⦄ where
  -- The proposal made of the dictionary `raw` that the model answered.
  unfoldable pub read_proposal : Value F → Result (ReviewProposal F)
  unfolding score_value strip slice_to
  read_proposal raw = do
    raise_if (score_overflows (get "confidence" raw)) overflow_error
    risks ← iterate_or_empty (get "risk_reasons" raw)
    ok (record {
      proposed_verdict =
          known_verdict (upper r.other_upper (strip (text_or_empty (get "proposed_verdict" raw))));
      reason =
          slice_to 500
            (or_default (strip (text_or_empty (get "reason" raw))) "工作流结果存在不确定性，建议人工复核。");
      confidence = r.nought;
      risk_reasons = map text (keep (λ v. is_text (strip (text_or_empty v))) risks);
      assistant_reply = slice_to 500 (
          or_default (strip (text_or_empty (get "assistant_reply" raw)))
            "您的售后申请已完成智能初审，实际结果以系统审核状态为准。");
      model_confidence = score_value (get "confidence" raw);
      confidence_model_version = none;
      confidence_breakdown = none;
    })

  -- `synthesize`; `llm` is `generate_structured`.
  unfoldable pub synthesize :
      (SynthesisRequest F → Result (Value F))
      → TrustedCaseContext F
      → String
      → PolicyAssessment F
      → EvidenceAssessment F
      → Result (ReviewProposal F)
  unfolding read_proposal
  synthesize llm context issue p e = do
    raw ← llm (record {
      issue = issue;
      ticket_status = context.ticket_status;
      policy_version = context.policy_version;
      context_version = context.context_version;
      policy = p;
      evidence = e;
    })
    read_proposal raw
