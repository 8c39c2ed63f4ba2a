-- ===== src/FormalReview/Confidence.antt =====
-- formal_review/confidence.py: the score of a review is computed from signals of the policy and
-- evidence assessments; the model's own confidence is kept apart.
use ecommerce_after_sales_sy.Prelude.{
  String, Bool, false, not, ◌&&◌, ◌||◌, Option, none, some, [], ◌∷◌, str_eq, nonempty,
  if◌then◌else◌,
}
use ecommerce_after_sales_sy.Python.Runtime.{Runtime, min}
use ecommerce_after_sales_sy.FormalReview.Contracts.{
  PolicyAssessment, EvidenceAssessment, ReviewProposal, Breakdown, Signals, Weighted,
}
use ecommerce_after_sales_sy.FormalReview.Score.{score_float}

-- `x == "…"` of an optional text
abbrev pub opt_is : Option String → String → Bool
opt_is none s = false
opt_is (some t) s = str_eq t s

-- `x is True`
abbrev pub opt_true : Option Bool → Bool
opt_true (some b) = b
opt_true none = false

abbrev pub opt_false : Option Bool → Bool
opt_false (some b) = not b
opt_false none = false

abbrev confidence_model_version : String
confidence_model_version = "deterministic-v1"

abbrev confidence_kind : String
confidence_kind = "deterministic_decision_support"

module _ {F : Type 0} where
  -- The test whose value is `policy_integrity`.
  unfoldable pub policy_is_sound : PolicyAssessment F → Bool
  policy_is_sound p =
      p.success
      && p.trusted_policy_eligible
      && p.policy_version_matched
      && opt_is p.filter_level "strict"
      && (p.reranker_succeeded || opt_is p.retrieval_mode "multi_query_rrf")
      && nonempty p.citations

  -- The test whose value is `evidence_integrity`.
  unfoldable pub evidence_is_sound : EvidenceAssessment F → Bool
  evidence_is_sound e =
      e.success
      && e.visual_verifiable
      && opt_true e.evidence_consistent
      && not (nonempty e.missing_evidence)
      && not (nonempty e.risk_signals)

module _ {F : Type 0} ⦃r : Runtime F⦄ where
  -- `float(test)`
  abbrev of_bool : Bool → F
  of_bool b = if b then r.one else r.nought

  weights : Weighted F
  weights = record {
    policy_relevance = r.decimal 35 2;
    visual_confidence = r.decimal 30 2;
    policy_integrity = r.decimal 20 2;
    evidence_integrity = r.decimal 15 2;
  }

  signals : PolicyAssessment F → EvidenceAssessment F → Signals F
  signals p e = record {
    policy_relevance = score_float p.policy_match_score;
    policy_threshold = score_float p.policy_threshold;
    visual_confidence = score_float e.visual_confidence;
    policy_integrity = of_bool (policy_is_sound p);
    evidence_integrity = of_bool (evidence_is_sound e);
  }

  unfoldable pub contributions : PolicyAssessment F → EvidenceAssessment F → Weighted F
  unfolding weights signals
  contributions p e =
      let s = signals p e in
      record {
        policy_relevance = r.round4 (r.mul s.policy_relevance weights.policy_relevance);
        visual_confidence = r.round4 (r.mul s.visual_confidence weights.visual_confidence);
        policy_integrity = r.round4 (r.mul s.policy_integrity weights.policy_integrity);
        evidence_integrity = r.round4 (r.mul s.evidence_integrity weights.evidence_integrity);
      }

  -- `sum(contributions.values())`, in the order of the keys
  total : Weighted F → F
  total c =
      r.sum
        (c.policy_relevance ∷ c.visual_confidence ∷ c.policy_integrity ∷ c.evidence_integrity ∷ [])

  unfoldable pub confidence_of : PolicyAssessment F → EvidenceAssessment F → F
  unfolding contributions total
  confidence_of p e = r.round4 (min (total (contributions p e)) r.one)

  breakdown : PolicyAssessment F → EvidenceAssessment F → Breakdown F
  unfolding contributions weights signals
  breakdown p e = record {
    kind = confidence_kind;
    model_version = confidence_model_version;
    calibration_status = "rule_based_uncalibrated";
    signals = signals p e;
    weights = weights;
    contributions = contributions p e;
  }

  -- `apply_deterministic_confidence`
  unfoldable pub apply_deterministic_confidence :
      ReviewProposal F → PolicyAssessment F → EvidenceAssessment F → ReviewProposal F
  unfolding breakdown
  apply_deterministic_confidence q p e = record q {
    confidence = confidence_of p e;
    confidence_model_version = some confidence_model_version;
    confidence_breakdown = some (breakdown p e);
  }
