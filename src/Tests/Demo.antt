-- ===== src/Tests/Demo.antt =====
-- A runtime whose floats are ten-thousandths, and a ticket with its assessments and collaborators.
use ecommerce_after_sales_sy.Prelude.{
  ℕ, ◌+◌, ◌*◌, ◌/◌, ◌^◌, String, refl, Bool, true, false, none, some, List, [], ◌∷◌, arith, ltb,
  ◌==◌,
}
use ecommerce_after_sales_sy.Python.Value.{
  ℤ, pos, lt_ℤ, negsuc, Value, bool, str, arr, obj, nil, cons, end, field,
}
use ecommerce_after_sales_sy.Python.Result.{ok}
use ecommerce_after_sales_sy.Python.Runtime.{Runtime, IsOrdered}
use ecommerce_after_sales_sy.FormalReview.Contracts.{
  TrustedCaseContext, PolicyAssessment, EvidenceAssessment, ReviewProposal, ToolResult,
}
use ecommerce_after_sales_sy.FormalReview.Graph.State.{
  Call, get_after_sales_ticket, request_missing_evidence, submit_ai_review, Collaborators, Settings,
  AgentSkill,
}

abbrev total : List ℕ → ℕ
total [] = 0
total (x ∷ xs) = x + total xs

abbrev of_ℤ : ℤ → ℕ
of_ℤ (pos n) = n * 10000
of_ℤ (negsuc n) = 0

abbrev same_instant : Value ℕ → Value ℕ → Bool
same_instant a b = false

instance abbrev pub demo : Runtime ℕ
demo = record {
  nought = 0;
  one = 10000;
  lt = ltb;
  sum = total;
  mul = λ a b. a * b / 10000;
  decimal = λ n k. n * 10000 / 10 ^ k;
  round4 = λ x. x;
  is_nought = λ x. x == 0;
  of_int = of_ℤ;
  fits_float = λ n. lt_ℤ n (pos 1000);
  parse_float = λ s. none;
  trunc = λ x. some (pos (x / 10000));
  parse_int = λ s. none;
  instant = λ s. none;
  equal = same_instant;
  repr = λ v. "1";
  other_upper = λ c. String.◌∷◌ c String.[];
  other_lower = λ c. String.◌∷◌ c String.[];
  digest = λ v. "digest";
  digest_text = λ t. "task";
}

pub demo-IsOrdered : IsOrdered ℕ
demo-IsOrdered = record {
  trans = λ x y z p q. ground arith;
  asym = λ x y p. ground arith;
  one_pos = refl;
}

abbrev pub policy : PolicyAssessment ℕ
policy = record {
  context_version = "v1";
  success = true;
  trusted_policy_eligible = true;
  policy_version_matched = true;
  filter_level = some "strict";
  reranker_succeeded = true;
  retrieval_mode = some "hybrid_reranked";
  policy_match_score = 9000;
  policy_threshold = 5500;
  required_evidence = [];
  citations = obj end ∷ [];
  uncertainty_reasons = [];
  raw_summary = [];
}

abbrev pub evidence : EvidenceAssessment ℕ
evidence = record {
  context_version = "v1";
  success = true;
  visual_verifiable = true;
  evidence_consistent = some true;
  visual_confidence = 9000;
  satisfied_evidence = [];
  missing_evidence = [];
  risk_signals = [];
  uncertainty_reasons = [];
  image_review = none;
  evidence_categories = [];
  observed_issue_types = [];
  verification_limitations = [];
}

abbrev pub skill : AgentSkill
skill = record { name = "formal-review"; version = "1.0.0"; instructions = "Review." }

abbrev pub cfg : Settings ℕ
cfg = record {
  auto_approve_enabled = true;
  minimum_review_confidence = 7500;
  durable_checkpointer = true;
  formal_review_skill = skill;
  tool_base_url = "http://java:8080/api/internal/agent-tools";
}

abbrev pub attachment : Value ℕ
attachment = obj (field "kind" (str "image") end)

abbrev pub payload : Value ℕ
payload = obj (
    field "review_request_id" (str "r1") (
      field "user_id" (str "7")
        (field "ticket_id" (str "t1") (field "attachments" (arr (cons attachment nil)) end))))

abbrev pub ticket : Value ℕ
ticket = obj (
    field "ticket_id" (str "t1") (
      field "status" (str "pending")
        (field "context_version" (str "v1") (field "description" (str "屏幕破损") end))))

abbrev answer : Value ℕ → ToolResult ℕ
answer v = record {
  ok = true;
  name = "tool";
  data_value = v;
  error = none;
  error_code = none;
  error_category = none;
  retryable = false;
}

abbrev answers : Call ℕ → ToolResult ℕ
answers (get_after_sales_ticket a) = answer ticket
answers (request_missing_evidence a) = answer (obj end)
answers (submit_ai_review a) = answer (obj (field "review_applied" (bool true) end))

abbrev pub env : Collaborators ℕ
env = record {
  call = λ h c. answers c;
  policy = λ h t. ok policy;
  evidence = λ h t. ok evidence;
  llm = λ h q. ok (obj end);
  select_skill = λ stage. some skill;
  load_reference = λ name file. ok "text";
  current_trace_id = λ h. "";
}

abbrev pub context : TrustedCaseContext ℕ
context = record {
  user_id = "7";
  session_id = none;
  ticket_id = "t1";
  order_id = "o1";
  ticket_status = "PENDING";
  merchant_code = some "m1";
  policy_version = some "2026";
  product_name = none;
  product_category = none;
  after_sales_type = none;
  issue_description = "屏幕破损";
  business_time = none;
  context_version = "v1";
  evidence_revision = 0;
  request_source = "client";
  attachments = attachment ∷ [];
}

abbrev pub proposal : ReviewProposal ℕ
proposal = record {
  proposed_verdict = "APPROVE";
  reason = "ok";
  confidence = 9000;
  risk_reasons = [];
  assistant_reply = "";
  model_confidence = 4000;
  confidence_model_version = none;
  confidence_breakdown = none;
}
