-- ===== src/Tests/Evaluate.antt =====
-- The evaluators at one policy hit and at two reviews of images.
use ecommerce_after_sales_sy.Prelude.{
  ℕ, ◌≡◌, refl, true, false, nonempty, none, some, List, [], ◌∷◌, All,
}
use ecommerce_after_sales_sy.Python.Text.{mem, strip, dedup}
use ecommerce_after_sales_sy.Python.Value.{
  Value, bool, int, float, str, arr, obj, nil, cons, end, field, pos, get, is_true,
}
use ecommerce_after_sales_sy.Python.Result.{Result, ok, raise, overflow_error}
use ecommerce_after_sales_sy.Python.Ensures.{Ensures}
use ecommerce_after_sales_sy.Python.Runtime.{less}
use ecommerce_after_sales_sy.Python.Convert.{text_or_empty, lower, too_large}
use ecommerce_after_sales_sy.FormalReview.Contracts.{
  PolicyTask, EvidenceTask, PolicyAssessment, EvidenceAssessment, ToolResult,
}
use ecommerce_after_sales_sy.FormalReview.Context.{dicts}
use ecommerce_after_sales_sy.FormalReview.Score.{
  clamp, score, score_value, score_overflows, InUnit, score-InUnit,
}
use ecommerce_after_sales_sy.FormalReview.Evaluate.Citation.{
  parse_time, is_traceable, traceable_citations,
}
use ecommerce_after_sales_sy.FormalReview.Evaluate.Hit.{scores_enough, is_trusted_hit}
use ecommerce_after_sales_sy.FormalReview.Evaluate.Policy
use ecommerce_after_sales_sy.FormalReview.Evaluate.Policy.{
  required_of, citations_of, trusted_of, is_eligible, assess_hits, trusted_modes, failed_policy,
}
use ecommerce_after_sales_sy.FormalReview.Evaluate.Trust.{FromHit, trusted_rests_on_hit}
use ecommerce_after_sales_sy.FormalReview.Evaluate.Evidence
use ecommerce_after_sales_sy.FormalReview.Evaluate.Evidence.{
  findings, consistency, verifiable, risk_signals, least, visual_confidence, stripped,
  assess_review, no_attachment, failed_evidence,
}
use ecommerce_after_sales_sy.FormalReview.Evaluate.Visual.{
  is_suspicious, visual_confidence-le, verifiable_rests_on_review, suspicion_is_kept,
}
use ecommerce_after_sales_sy.Tests.Demo.{demo, demo-IsOrdered, attachment}

score-InUnit_example :
    Ensures
      (λ e. (e ≡ overflow_error) × (too_large {F = ℕ} (int (pos 7)) ≡ true))
      (score (int (pos 7)))
      (λ x. InUnit {F = ℕ} x × (score_overflows {F = ℕ} (int (pos 7)) ≡ false))
score-InUnit_example = score-InUnit demo-IsOrdered (int (pos 7))

-- An integer that is too large for a float.
overflows : score {F = ℕ} (int (pos 5000)) ≡ raise overflow_error
unfolding score
overflows = refl

abbrev pub task : PolicyTask
task = record {
  task_id = "a";
  trace_id = none;
  review_request_id = "r1";
  ticket_id = "t1";
  context_version = "v1";
  user_id = "7";
  issue = "屏幕破损";
  query = "q";
  merchant_code = some "m1";
  product_name = none;
  product_category = none;
  after_sales_type = none;
  policy_version = some "2026";
  business_time = none;
  skill_name = "policy";
  skill_version = "1";
  skill_instructions = "i";
}

abbrev hit : Value ℕ
hit = obj (
    field "source_type" (str "after_sales_policy") (
      field "merchant_code" (str "m1") (
        field "policy_version" (str "2026") (
          field "trusted_policy_eligible" (bool true) (
            field "relaxation_level" (str "strict") (
              field "rerank_score" (float 8000) (
                field "citation"
                  (obj (field "source_code" (str "s") (field "chunk_id" (str "c") end))) end)))))))

abbrev knowledge : Value ℕ
knowledge = obj (
    field "mode" (str "hybrid_reranked") (
      field "filter_level" (str "strict")
        (field "trusted_policy_eligible" (bool true) (field "hits" (arr (cons hit nil)) end))))

abbrev pub found : ToolResult ℕ
found = record {
  ok = true;
  name = "retrieve_knowledge";
  data_value = knowledge;
  error = none;
  error_code = none;
  error_category = none;
  retryable = false;
}

abbrev nothing_read : PolicyAssessment ℕ
nothing_read = failed_policy task found

abbrev policy_of : Result (PolicyAssessment ℕ) → PolicyAssessment ℕ
policy_of (ok a) = a
policy_of (raise e) = nothing_read

abbrev pub trusted_policy : PolicyAssessment ℕ
trusted_policy = policy_of (Policy.assess task found)

assess-found : Policy.assess task found ≡ ok trusted_policy
unfolding Policy.assess assess_hits trusted_of is_trusted_hit scores_enough score_value
    traceable_citations is_traceable required_of citations_of is_eligible mem strip parse_time dicts
    clamp
assess-found = refl

pub found_is_trusted : trusted_policy.trusted_policy_eligible ≡ true
unfolding Policy.assess assess_hits trusted_of is_trusted_hit scores_enough score_value
    traceable_citations is_traceable required_of citations_of is_eligible mem strip parse_time dicts
    clamp
found_is_trusted = refl

trusted_rests_on_hit_example :
    (found.ok ≡ true)
    × (trusted_policy.success ≡ true)
    × (trusted_policy.policy_version_matched ≡ true)
    × (is_true (get "trusted_policy_eligible" found.data_value) ≡ true)
    × (mem (text_or_empty (get "mode" found.data_value)) trusted_modes ≡ true)
    × FromHit task found.data_value
trusted_rests_on_hit_example = trusted_rests_on_hit task found assess-found found_is_trusted

abbrev pub photo : EvidenceTask ℕ
photo = record {
  task_id = "b";
  trace_id = none;
  review_request_id = "r1";
  ticket_id = "t1";
  context_version = "v1";
  user_id = "7";
  order_id = "o1";
  issue = "屏幕破损";
  product_name = none;
  product_category = none;
  after_sales_type = none;
  attachments = attachment ∷ [];
  skill_name = "evidence";
  skill_version = "1";
  skill_instructions = "i";
}

abbrev seen_item : Value ℕ
seen_item = obj (field "contains_damage_area" (bool true) (field "confidence" (float 8000) end))

abbrev faked_item : Value ℕ
faked_item = obj (field "tampering_suspected" (bool true) (field "confidence" (float 6000) end))

abbrev review_of : List (Value ℕ) → Value ℕ
review_of [] = obj end
review_of (v ∷ []) = obj (field "success" (bool true) (field "items" (arr (cons v nil)) end))
review_of (v ∷ w ∷ vs) =
    obj (field "success" (bool true) (field "items" (arr (cons v (cons w nil))) end))

abbrev looked : Value ℕ → ToolResult ℕ
looked v = record found { name = "review_images"; data_value = v }

abbrev pub genuine : ToolResult ℕ
genuine = looked (review_of (seen_item ∷ []))

abbrev faked : ToolResult ℕ
faked = looked (review_of (seen_item ∷ faked_item ∷ []))

visual_confidence-le_example :
    All
      (λ item.
        less (score_value (get "confidence" item)) (
          visual_confidence (review_of (seen_item ∷ faked_item ∷ [])) (seen_item ∷ faked_item ∷ []))
        ≡ false)
      (seen_item ∷ faked_item ∷ [])
visual_confidence-le_example =
    visual_confidence-le demo-IsOrdered (review_of (seen_item ∷ faked_item ∷ []))
      (seen_item ∷ faked_item ∷ []) refl

abbrev evidence_of : Result (EvidenceAssessment ℕ) → EvidenceAssessment ℕ
evidence_of (ok a) = a
evidence_of (raise e) = failed_evidence photo none []

abbrev seen : EvidenceAssessment ℕ
seen = evidence_of (Evidence.assess photo (some genuine) [])

assess-genuine : Evidence.assess photo (some genuine) [] ≡ ok seen
unfolding Evidence.assess assess_review findings stripped strip dedup dicts
assess-genuine = refl

genuine_is_verifiable : seen.visual_verifiable ≡ true
unfolding Evidence.assess assess_review findings consistency verifiable stripped strip dedup
    score_value lower dicts
genuine_is_verifiable = refl

verifiable_rests_on_review_example :
    (nonempty photo.attachments ≡ true)
    × (genuine.ok ≡ true)
    × (is_true (get "success" genuine.data_value) ≡ true)
    × (seen.success ≡ true)
    × (seen.evidence_consistent ≡ some true)
    × (seen.risk_signals ≡ [])
verifiable_rests_on_review_example =
    verifiable_rests_on_review photo [] genuine assess-genuine genuine_is_verifiable

abbrev doubted : EvidenceAssessment ℕ
doubted = evidence_of (Evidence.assess photo (some faked) [])

assess-faked : Evidence.assess photo (some faked) [] ≡ ok doubted
unfolding Evidence.assess assess_review findings stripped strip dedup dicts
assess-faked = refl

faked_is_suspicious :
    is_suspicious
      (findings (review_of (seen_item ∷ faked_item ∷ [])) (dicts (seen_item ∷ faked_item ∷ [])))
    ≡ true
unfolding findings dicts
faked_is_suspicious = refl

suspicion_is_kept_example :
    (doubted.visual_verifiable ≡ false)
    × (doubted.evidence_consistent ≡ some false)
    × (nonempty doubted.risk_signals ≡ true)
suspicion_is_kept_example =
    suspicion_is_kept photo [] faked refl refl refl refl faked_is_suspicious assess-faked
