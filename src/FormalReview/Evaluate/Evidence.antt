-- ===== src/FormalReview/Evaluate/Evidence.antt =====
-- formal_review/evaluators.py: `EvidenceEvaluator.assess`.
use ecommerce_after_sales_sy.Prelude.{
  String, Bool, true, false, not, ◌&&◌, ◌||◌, Option, none, some, List, [], ◌∷◌, ◌++◌, any, keep,
  map, nonempty, str_eq, if◌then◌else◌,
}
use ecommerce_after_sales_sy.Python.Text.{is_text, strip, mem, dedup}
use ecommerce_after_sales_sy.Python.Value.{Value, get, is_dict, is_true, is_false}
use ecommerce_after_sales_sy.Python.Result.{Result, ok, raise_if, overflow_error, ◌>>=◌, ◌>>◌}
use ecommerce_after_sales_sy.Python.Runtime.{Runtime, less, min}
use ecommerce_after_sales_sy.Python.Convert.{truthy, text, text_or_empty, iterate_or_empty, lower}
use ecommerce_after_sales_sy.FormalReview.Contracts.{EvidenceTask, EvidenceAssessment, ToolResult}
use ecommerce_after_sales_sy.FormalReview.Context.{dicts}
use ecommerce_after_sales_sy.FormalReview.Score.{score_value, score_overflows}
use ecommerce_after_sales_sy.FormalReview.Requirement.{is_core_requirement}
use ecommerce_after_sales_sy.FormalReview.Sop.{reason_if}
use ecommerce_after_sales_sy.FormalReview.Graph.State.{or_text}

-- What the evaluator reads from the whole review and its items.
pub record Findings : Type 0 where
  pub success : Bool
  pub visible_problem : Bool
  pub relevant : Bool
  pub tampering : Bool
  pub contradictory : Bool
  -- `evidence_consistent` is True, is False
  pub said_consistent : Bool
  pub said_inconsistent : Bool

-- The three-way consistency of the evidence.
unfoldable pub consistency : Findings → Option Bool
consistency f =
    if f.said_inconsistent || f.tampering || f.contradictory
    then some false
    else if f.said_consistent || (f.visible_problem && f.relevant)
    then some true
    else none

abbrev opt_is_true : Option Bool → Bool
opt_is_true (some b) = b
opt_is_true none = false

abbrev opt_is_false : Option Bool → Bool
opt_is_false (some b) = not b
opt_is_false none = false

-- `visual_verifiable`, from the findings and the evidence that is missing.
unfoldable pub verifiable : Findings → List String → Bool
unfolding consistency
verifiable f missing =
    f.success
    && f.visible_problem
    && f.relevant
    && opt_is_true (consistency f)
    && not f.tampering
    && not (nonempty missing)

unfoldable pub risk_signals : Findings → List String
unfolding consistency dedup
risk_signals f = dedup (
    reason_if (opt_is_false (consistency f)) "visual_evidence_contradictory"
    ++ reason_if f.tampering "visual_tampering_suspected")

uncertainty : Findings → Bool → List String → List String
unfolding consistency
uncertainty f seen limitations =
    reason_if (not f.success) "vision_review_failed"
    ++ (reason_if (opt_is_false (consistency f)) "visual_evidence_inconsistent"
        ++ (reason_if f.tampering "visual_tampering_suspected"
            ++ (reason_if (nonempty limitations) "visual_verification_limited"
                ++ reason_if (not seen) "visual_problem_not_verified")))

abbrev or_default : List String → List String → List String
or_default xs ys = if nonempty xs then xs else ys

-- The required items that are core and not satisfied.
unresolved_required : List String → List String → List String
unfolding mem
unresolved_required satisfied required =
    keep (λ item. is_core_requirement item && not (mem item satisfied)) required

module _ {F : Type 0} ⦃r : Runtime F⦄ where
  abbrev shows_issue : Value F → Bool
  shows_issue item = is_true (get "issue_visible" item) || is_true (get "contains_damage_area" item)

  -- `score >= 0.6`
  abbrev is_relevant_item : Value F → Bool
  is_relevant_item item =
      is_true (get "contains_damage_area" item)
      || not (less (score_value (get "evidence_relevance" item)) (r.decimal 6 1))

  -- `any` over the items that show the issue converts one that is too large for a float.
  unfoldable pub relevance_overflows : List (Value F) → Bool
  relevance_overflows [] = false
  relevance_overflows (item ∷ items) =
      not (is_true (get "contains_damage_area" item))
      && (score_overflows (get "evidence_relevance" item)
          || (not (is_relevant_item item) && relevance_overflows items))

  -- A score that is read of the review or of its items is too large for a float.
  unfoldable pub review_overflows : Value F → List (Value F) → Bool
  unfolding relevance_overflows
  review_overflows review items =
      score_overflows (get "confidence" review)
      || any (λ item. score_overflows (get "confidence" item)) items
      || relevance_overflows (keep shows_issue items)

  unfoldable pub findings : Value F → List (Value F) → Findings
  unfolding strip score_value
  findings review items = record {
    success = is_true (get "success" review);
    visible_problem =
        truthy (get "has_damage_area" review)
        || truthy (get "has_visible_issue" review)
        || any shows_issue items;
    relevant =
        truthy (get "has_damage_area" review)
        || truthy (get "evidence_relevant" review)
        || any is_relevant_item (keep shows_issue items);
    tampering =
        truthy (get "tampering_suspected" review)
        || any (λ item. is_true (get "tampering_suspected" item)) items;
    contradictory =
        any
          (λ item.
            str_eq (lower r.other_lower (strip (text_or_empty (get "evidence_consistency" item))))
              "contradictory")
          items;
    said_consistent = is_true (get "evidence_consistent" review);
    said_inconsistent = is_false (get "evidence_consistent" review);
  }

  -- The least of the first value and the scores of the items behind it.
  unfoldable pub least : F → List (Value F) → F
  least low [] = low
  least low (item ∷ items) = least (min low (score_value (get "confidence" item))) items

  -- `confidence`: that of the review, or the least of its items.
  unfoldable pub visual_confidence : Value F → List (Value F) → F
  unfolding least
  visual_confidence review [] = score_value (get "confidence" review)
  visual_confidence review (item ∷ items) = least (score_value (get "confidence" item)) items

  -- `tuple(dict.fromkeys(str(v).strip() for v in values or () if str(v).strip()))`
  unfoldable pub stripped : Value F → Result (List String)
  unfolding strip dedup
  stripped values = do
    vs ← iterate_or_empty values
    ok (dedup (map (λ v. strip (text v)) (keep (λ v. is_text (strip (text v))) vs)))

  -- No attachment: nothing was reviewed.
  unfoldable pub no_attachment : EvidenceTask F → List String → EvidenceAssessment F
  no_attachment task required = record {
    context_version = task.context_version;
    success = true;
    visual_verifiable = false;
    evidence_consistent = none;
    visual_confidence = r.nought;
    satisfied_evidence = [];
    missing_evidence = or_default required ("商品问题照片" ∷ []);
    risk_signals = [];
    uncertainty_reasons = "visual_evidence_missing" ∷ [];
    image_review = none;
    evidence_categories = [];
    observed_issue_types = [];
    verification_limitations = [];
  }

  unfoldable pub failed_evidence :
      EvidenceTask F → Option String → List String → EvidenceAssessment F
  failed_evidence task category required = record {
    context_version = task.context_version;
    success = false;
    visual_verifiable = false;
    evidence_consistent = none;
    visual_confidence = r.nought;
    satisfied_evidence = [];
    missing_evidence = required;
    risk_signals = [];
    uncertainty_reasons = or_text category "vision_tool_failed" ∷ [];
    image_review = none;
    evidence_categories = [];
    observed_issue_types = [];
    verification_limitations = [];
  }

  -- The assessment of a review that was returned.
  unfoldable pub assess_review :
      EvidenceTask F → Value F → List String → Result (EvidenceAssessment F)
  unfolding review_overflows findings verifiable risk_signals uncertainty visual_confidence stripped
      unresolved_required dedup
  assess_review task review required = do
    listed ← iterate_or_empty (get "items" review)
    raise_if (review_overflows review (dicts listed)) overflow_error
    said ← iterate_or_empty (get "missing_visual_evidence" review)
    categories ← stripped (get "evidence_categories" review)
    issue_types ← stripped (get "observed_issue_types" review)
    limitations ← stripped (get "verification_limitations" review)
    let items = dicts listed
    let f = findings review items
    let missing = map text (keep (λ v. is_core_requirement (text_or_empty v)) said)
    let seen = verifiable f missing
    let satisfied = if seen then "商品问题图片" ∷ "商品问题照片" ∷ [] else []
    ok (record {
      context_version = task.context_version;
      success = f.success;
      visual_verifiable = seen;
      evidence_consistent = consistency f;
      visual_confidence = visual_confidence review items;
      satisfied_evidence = satisfied;
      missing_evidence = dedup (missing ++ unresolved_required satisfied required);
      risk_signals = risk_signals f;
      uncertainty_reasons = uncertainty f seen limitations;
      image_review = some review;
      evidence_categories = categories;
      observed_issue_types = issue_types;
      verification_limitations = limitations;
    })

  -- `EvidenceEvaluator.assess`
  unfoldable pub assess :
      EvidenceTask F → Option (ToolResult F) → List String → Result (EvidenceAssessment F)
  unfolding no_attachment failed_evidence assess_review
  assess task none required = ok (
      if nonempty task.attachments
      then failed_evidence task none required
      else no_attachment task required)
  assess task (some result) required =
      if not (nonempty task.attachments)
      then ok (no_attachment task required)
      else if not result.ok || not (is_dict result.data_value)
      then ok (failed_evidence task result.error_category required)
      else assess_review task result.data_value required
