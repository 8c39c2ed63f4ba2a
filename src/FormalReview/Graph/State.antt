-- ===== src/FormalReview/Graph/State.antt =====
-- graph.py: `FormalReviewState`, the arguments of the calls of Java, and what the graph is given.
use ecommerce_after_sales_sy.Prelude.{ℕ, String, Bool, Option, none, some, List, if◌then◌else◌}
use ecommerce_after_sales_sy.Python.Text.{is_text}
use ecommerce_after_sales_sy.Python.Value.{Value, null, str}
use ecommerce_after_sales_sy.Python.Result.{Result, ok, raise, key_error}
use ecommerce_after_sales_sy.FormalReview.Contracts.{
  TrustedCaseContext, PolicyTask, EvidenceTask, ReviewWorkflowPlan, PolicyAssessment,
  EvidenceAssessment, ReviewProposal, Breakdown, ToolResult,
}
use ecommerce_after_sales_sy.FormalReview.Synthesis.{SynthesisRequest}

-- The values of the key `gate_action`; `unset` is "" and a missing key.
pub data GateAction : Type 0 where
  unset manual_review request_evidence submit_review stale_evidence : GateAction

pub data Verdict : Type 0 where
  approve manual_review_required : Verdict

pub record TicketArguments (F : Type 0) : Type 0 where
  pub user_id : String
  pub ticket_id : String
  pub order_id : Value F

pub record EvidenceArguments (F : Type 0) : Type 0 where
  pub user_id : Value F
  pub session_id : Value F
  pub ticket_id : Value F
  pub order_id : Value F
  pub review_request_id : String
  pub evidence_revision : ℕ
  pub assistant_reply : String
  pub evidence_needed : List String

pub record VerdictArguments (F : Type 0) : Type 0 where
  pub user_id : Value F
  pub session_id : Value F
  pub ticket_id : Value F
  pub order_id : Value F
  pub review_request_id : String
  pub expected_evidence_revision : ℕ
  pub agent_architecture : String
  pub skill_versions : List (String × String)
  pub context_version : Option String
  pub verdict : Verdict
  pub ai_review_confidence : F
  pub model_confidence : F
  pub confidence_model_version : Option String
  pub confidence_breakdown : Option (Breakdown F)
  pub reason : String
  pub evidence_needed : List String
  pub visual_uncertain : Bool
  pub policy_uncertain : Bool
  pub evidence_consistent : Option Bool
  pub visual_confidence : F
  pub risk_review_reasons : List String
  pub knowledge_retrieval_mode : Option String
  pub filter_level : Option String
  pub reranker_succeeded : Bool
  pub trusted_policy_eligible : Bool
  pub policy_version : Option String
  pub policy_match_score : F
  pub policy_citations : List (Value F)
  pub image_review : Option (Value F)
  pub policy_assessment : Option (PolicyAssessment F)
  pub evidence_assessment : Option (EvidenceAssessment F)

-- `self.tools.call(name, arguments)`, by the tool's name.
pub data Call (F : Type 0) : Type 0 where
  get_after_sales_ticket : TicketArguments F → Call F
  request_missing_evidence : EvidenceArguments F → Call F
  submit_ai_review : VerdictArguments F → Call F

pub record TraceEntry (F : Type 0) : Type 0 where
  pub tool : Call F
  pub result : ToolResult F

pub record FormalReviewState (F : Type 0) : Type 0 where
  pub payload : Value F
  pub trace_id : String
  pub trusted_context : Option (TrustedCaseContext F)
  pub ticket_data : Value F
  pub issue : String
  pub workflow_plan : Option ReviewWorkflowPlan
  pub policy_assessment : Option (PolicyAssessment F)
  pub evidence_assessment : Option (EvidenceAssessment F)
  pub review_proposal : Option (ReviewProposal F)
  pub gate_action : GateAction
  pub gate_reasons : List String
  pub evidence_needed : List String
  pub tool_trace : List (TraceEntry F)
  pub review_result : Value F
  pub evidence_request_applied : Bool
  pub evidence_request_outcome : String
  pub final_reply : String
  pub need_human : Bool
  pub failure_reason : Option String
  pub resume_signal : Value F
  pub submission_outcome : String
  pub review_mode : String
  pub escalation_reasons : List String
  pub skill_versions : List (String × String)

pub record AgentSkill : Type 0 where
  pub name : String
  pub version : String
  pub instructions : String

-- The collaborators of the workflow. Each answer may depend on the calls of Java made so far,
-- the last one first.
pub record Collaborators (F : Type 0) : Type 0 where
  pub call : List (Call F) → Call F → ToolResult F
  pub policy : List (Call F) → PolicyTask → Result (PolicyAssessment F)
  pub evidence : List (Call F) → EvidenceTask F → Result (EvidenceAssessment F)
  pub llm : List (Call F) → SynthesisRequest F → Result (Value F)
  pub select_skill : String → Option AgentSkill
  pub load_reference : String → String → Result String
  pub current_trace_id : List (Call F) → String

-- The fields of `FormalReviewWorkflow` that are settings.
pub record Settings (F : Type 0) : Type 0 where
  pub auto_approve_enabled : Bool
  pub minimum_review_confidence : F
  pub durable_checkpointer : Bool
  pub formal_review_skill : AgentSkill
  pub tool_base_url : String

-- The state of the graph, and the calls of Java made so far, the last one first.
pub record Machine (F : Type 0) : Type 0 where
  pub state : FormalReviewState F
  pub calls : List (Call F)

-- `state[key]`
abbrev pub need {ℓ} : {A : Type ℓ} → String → Option A → Result A
need key none = raise (key_error key)
need key (some a) = ok a

abbrev pub opt_str : {F : Type 0} → Option String → Value F
opt_str none = null
opt_str (some s) = str s

-- `a or b` of an optional text
abbrev pub or_text : Option String → String → String
or_text none d = d
or_text (some s) d = if is_text s then s else d

-- `bool(a)` of an optional text
abbrev pub has_text : Option String → Bool
has_text none = Bool.false
has_text (some s) = is_text s
