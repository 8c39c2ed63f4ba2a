-- ===== src/FormalReview/Contracts.antt =====
-- formal_review/contracts.py and tools/schemas.py: the frozen dataclasses that the workflow passes on.
use ecommerce_after_sales_sy.Prelude.{ℕ, String, Bool, Option, List}
use ecommerce_after_sales_sy.Python.Value.{Value}

pub record TrustedCaseContext (F : Type 0) : Type 0 where
  pub user_id : String
  pub session_id : Option String
  pub ticket_id : String
  pub order_id : String
  pub ticket_status : String
  pub merchant_code : Option String
  pub policy_version : Option String
  pub product_name : Option String
  pub product_category : Option String
  pub after_sales_type : Option String
  pub issue_description : String
  pub business_time : Option String
  pub context_version : String
  pub evidence_revision : ℕ
  pub request_source : String
  pub attachments : List (Value F)

pub record PolicyTask : Type 0 where
  pub task_id : String
  pub trace_id : Option String
  pub review_request_id : String
  pub ticket_id : String
  pub context_version : String
  pub user_id : String
  pub issue : String
  pub query : String
  pub merchant_code : Option String
  pub product_name : Option String
  pub product_category : Option String
  pub after_sales_type : Option String
  pub policy_version : Option String
  pub business_time : Option String
  pub skill_name : String
  pub skill_version : String
  pub skill_instructions : String

pub record EvidenceTask (F : Type 0) : Type 0 where
  pub task_id : String
  pub trace_id : Option String
  pub review_request_id : String
  pub ticket_id : String
  pub context_version : String
  pub user_id : String
  pub order_id : String
  pub issue : String
  pub product_name : Option String
  pub product_category : Option String
  pub after_sales_type : Option String
  pub attachments : List (Value F)
  pub skill_name : String
  pub skill_version : String
  pub skill_instructions : String

pub record ReviewWorkflowPlan : Type 0 where
  pub action : String
  pub specialists : List String
  pub policy_query : String
  pub reason_codes : List String

pub record PolicyAssessment (F : Type 0) : Type 0 where
  pub context_version : String
  pub success : Bool
  pub trusted_policy_eligible : Bool
  pub policy_version_matched : Bool
  pub filter_level : Option String
  pub reranker_succeeded : Bool
  pub retrieval_mode : Option String
  pub policy_match_score : F
  pub policy_threshold : F
  pub required_evidence : List String
  pub citations : List (Value F)
  pub uncertainty_reasons : List String
  pub raw_summary : List (String × ℕ)

pub record EvidenceAssessment (F : Type 0) : Type 0 where
  pub context_version : String
  pub success : Bool
  pub visual_verifiable : Bool
  pub evidence_consistent : Option Bool
  pub visual_confidence : F
  pub satisfied_evidence : List String
  pub missing_evidence : List String
  pub risk_signals : List String
  pub uncertainty_reasons : List String
  pub image_review : Option (Value F)
  pub evidence_categories : List String
  pub observed_issue_types : List String
  pub verification_limitations : List String

-- The dictionary `confidence_breakdown`, of which the keys are fixed.
pub record Signals (F : Type 0) : Type 0 where
  pub policy_relevance : F
  pub policy_threshold : F
  pub visual_confidence : F
  pub policy_integrity : F
  pub evidence_integrity : F

pub record Weighted (F : Type 0) : Type 0 where
  pub policy_relevance : F
  pub visual_confidence : F
  pub policy_integrity : F
  pub evidence_integrity : F

pub record Breakdown (F : Type 0) : Type 0 where
  pub kind : String
  pub model_version : String
  pub calibration_status : String
  pub signals : Signals F
  pub weights : Weighted F
  pub contributions : Weighted F

pub record ReviewProposal (F : Type 0) : Type 0 where
  pub proposed_verdict : String
  pub reason : String
  pub confidence : F
  pub risk_reasons : List String
  pub assistant_reply : String
  pub model_confidence : F
  pub confidence_model_version : Option String
  -- `none` is the empty dictionary.
  pub confidence_breakdown : Option (Breakdown F)

-- tools/schemas.py
pub record ToolResult (F : Type 0) : Type 0 where
  pub ok : Bool
  pub name : String
  pub data_value : Value F
  pub error : Option String
  pub error_code : Option String
  pub error_category : Option String
  pub retryable : Bool
