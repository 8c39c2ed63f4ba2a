-- ===== src/FormalReview/Evaluate/Visual.antt =====
-- What a verifiable evidence assessment rests on, and what a suspicious review leads to.
use ecommerce_after_sales_sy.Prelude.{
  String, ◌≡◌, refl, sym, ap, ◌∙◌, ◌⊎◌, inl, inr, Bool, true, false, not, ◌||◌, some, List, [], ◌∷◌,
  nonempty, All, arith, Bool-cases,
}
use ecommerce_after_sales_sy.Python.Value.{Value, get, is_dict, is_true}
use ecommerce_after_sales_sy.Python.Result.{ok, >>=-eq-ok, ok-injective, raised}
use ecommerce_after_sales_sy.Python.Runtime.{Runtime, IsOrdered, less, min}
use ecommerce_after_sales_sy.Python.Convert.{iterate_or_empty}
use ecommerce_after_sales_sy.FormalReview.Contracts.{EvidenceTask, EvidenceAssessment, ToolResult}
use ecommerce_after_sales_sy.FormalReview.Context.{dicts}
use ecommerce_after_sales_sy.FormalReview.Score.{score_value, lt_irrefl}
use ecommerce_after_sales_sy.FormalReview.Evaluate.Evidence.{
  Findings, review_overflows, findings, consistency, verifiable, risk_signals, least,
  visual_confidence, stripped, no_attachment, failed_evidence, assess_review, assess,
}

module _ {F : Type 0} ⦃r : Runtime F⦄ (o : IsOrdered F) where
  -- The running minimum stays, or falls.
  Low : F → F → Type 0
  Low l low = (l ≡ low) ⊎ (r.lt l low ≡ true)

  Low-trans : (a b c : F) → Low a b → Low b c → Low a c
  unfolding Low
  Low-trans a b c (inl p) (inl q) = inl (p ∙ q)
  Low-trans a b c (inl p) (inr q) = inr (rw p q)
  Low-trans a b c (inr p) (inl q) = inr (rw (← q) p)
  Low-trans a b c (inr p) (inr q) = inr (o.trans a b c p q)

  min-Low : (low x : F) → Low (min low x) low
  unfolding Low
  min-Low low x = elim (Bool-cases (r.lt x low)) [ inl h ↦ rw h (inr h) | inr h ↦ rw h (inl refl) ]

  -- What is at or below the minimum of two is not above the second.
  below_min : (l low x : F) → Low l (min low x) → less x l ≡ false
  unfolding Low
  below_min l low x h = elim (Bool-cases (r.lt x low)) [
    | inl k ↦ below_self (rw k at h)
    | inr k ↦ below_other k (rw k at h)
  ]
    where
      below_self : (l ≡ x) ⊎ (r.lt l x ≡ true) → less x l ≡ false
      below_self (inl e) = rw e (lt_irrefl o x)
      below_self (inr q) = o.asym l x q

      below_other : r.lt x low ≡ false → (l ≡ low) ⊎ (r.lt l low ≡ true) → less x l ≡ false
      below_other k (inl e) = rw e k
      below_other k (inr q) = elim (Bool-cases (r.lt x l)) [
        | inl z ↦ let w = o.trans x l low z q in cc
        | inr z ↦ z
      ]

  below_first : (l x : F) → Low l x → less x l ≡ false
  unfolding Low
  below_first l x (inl e) = rw e (lt_irrefl o x)
  below_first l x (inr q) = o.asym l x q

  least-Low : (low : F) (items : List (Value F)) → Low (least low items) low
  unfolding least Low
  least-Low low [] = inl refl
  least-Low low (item ∷ items) =
      Low-trans _ (min low (score_value (get "confidence" item))) low
        (least-Low (min low (score_value (get "confidence" item))) items)
        (min-Low low (score_value (get "confidence" item)))

  abbrev NoneBelow : F → List (Value F) → Type 0
  NoneBelow l items = All (λ item. less (score_value (get "confidence" item)) l ≡ false) items

  least-NoneBelow : (low : F) (items : List (Value F)) → NoneBelow (least low items) items
  unfolding least
  least-NoneBelow low [] = tt
  least-NoneBelow low (item ∷ items) =
      let x = score_value (get "confidence" item) in
      (
        below_min (least (min low x) items) low x (least-Low (min low x) items),
        least-NoneBelow (min low x) items,
      )

  -- Where floats are ordered and the review has items, none of them has a confidence below the one
  -- that is reported.
  pub visual_confidence-le :
      (review : Value F) (items : List (Value F))
      → nonempty items ≡ true
      → All
          (λ item.
            less (score_value (get "confidence" item)) (visual_confidence review items) ≡ false)
          items
  unfolding visual_confidence
  visual_confidence-le review [] h = cc
  visual_confidence-le review (item ∷ items) h =
      let x = score_value (get "confidence" item) in
      (below_first (least x items) x (least-Low x items), least-NoneBelow x items)

-- A verifiable review reported success, a visible and relevant problem, consistent evidence, no
-- tampering and nothing missing.
verifiable_parts :
    (f : Findings) (missing : List String)
    → verifiable f missing ≡ true
    → (f.success ≡ true)
      × (consistency f ≡ some true)
      × (risk_signals f ≡ [])
      × (nonempty missing ≡ false)
unfolding verifiable consistency risk_signals
verifiable_parts f missing h = ground arith

-- Evidence that is called inconsistent, tampered with or contradictory.
abbrev pub is_suspicious : Findings → Bool
is_suspicious f = f.said_inconsistent || f.tampering || f.contradictory

suspicious_parts :
    (f : Findings) (missing : List String)
    → is_suspicious f ≡ true
    → (verifiable f missing ≡ false)
      × (consistency f ≡ some false)
      × (nonempty (risk_signals f) ≡ true)
unfolding verifiable consistency risk_signals
suspicious_parts f missing h = ground arith

succeeded : (b d : Bool) → (not b || not d) ≡ false → b ≡ true
succeeded b d h = ground arith

module _ {F : Type 0} ⦃r : Runtime F⦄ (task : EvidenceTask F) (required : List String) where
  -- The fields of an assessment that the findings decide.
  abbrev Decided : Value F → List (Value F) → EvidenceAssessment F → Type 0
  Decided review listed a =
      (missing : List String) × (a.success ≡ (findings review (dicts listed)).success)
      × (a.visual_verifiable ≡ verifiable (findings review (dicts listed)) missing)
      × (a.evidence_consistent ≡ consistency (findings review (dicts listed)))
      × (a.risk_signals ≡ risk_signals (findings review (dicts listed)))

  assess_review-Decided :
      (review : Value F) {a : EvidenceAssessment F}
      → assess_review task review required ≡ ok a
      → (listed : List (Value F)) × (iterate_or_empty (get "items" review) ≡ ok listed)
        × Decided review listed a
  unfolding assess_review
  assess_review-Decided review h =
      let (listed, e, h₁) = >>=-eq-ok (iterate_or_empty (get "items" review)) _ h in
      let (fits, h₁') = raised (review_overflows review (dicts listed)) _ h₁ in
      let (said, _, h₂) =
        >>=-eq-ok (iterate_or_empty (get "missing_visual_evidence" review)) _ h₁' in
      let (categories, _, h₃) = >>=-eq-ok (stripped (get "evidence_categories" review)) _ h₂ in
      let (types, _, h₄) = >>=-eq-ok (stripped (get "observed_issue_types" review)) _ h₃ in
      let (limits, _, h₅) = >>=-eq-ok (stripped (get "verification_limitations" review)) _ h₄ in
      let q : _ ≡ _ = ok-injective h₅ in
      (
        listed,
        e,
        (
          _,
          ap (λ t. t.success) (sym q),
          ap (λ t. t.visual_verifiable) (sym q),
          ap (λ t. t.evidence_consistent) (sym q),
          ap (λ t. t.risk_signals) (sym q),
        ),
      )

  -- A reviewed assessment comes from attachments, a call that succeeded and a dictionary.
  abbrev Reviewed : ToolResult F → EvidenceAssessment F → Type 0
  Reviewed result a =
      (nonempty task.attachments ≡ true)
      × (result.ok ≡ true)
      × (assess_review task result.data_value required ≡ ok a)

  assess-Reviewed :
      (result : ToolResult F) {a : EvidenceAssessment F}
      → assess task (some result) required ≡ ok a
      → (a.visual_verifiable ≡ false) ⊎ Reviewed result a
  unfolding assess
  assess-Reviewed result {a} h = elim (Bool-cases (nonempty task.attachments)) [
    | inr none_given ↦
        let e : no_attachment task required ≡ a = ok-injective (rw none_given at h) in
        inl (ap (λ t. t.visual_verifiable) (sym e) ∙ unfold no_attachment in refl)
    | inl given ↦ elim (Bool-cases (not result.ok || not (is_dict result.data_value))) [
      | inl bad ↦
          let e : failed_evidence task result.error_category required ≡ a =
            ok-injective (rw (given, bad) at h) in
          inl (ap (λ t. t.visual_verifiable) (sym e) ∙ unfold failed_evidence in refl)
      | inr good ↦
          inr (given, succeeded result.ok (is_dict result.data_value) good, rw (given, good) at h)
    ]
  ]

  -- Evidence is assessed as verifiable only if there are attachments, the call of the vision tool
  -- succeeded and its review reports success; and then the evidence is consistent and carries no
  -- risk signal.
  pub verifiable_rests_on_review :
      (result : ToolResult F) {a : EvidenceAssessment F}
      → assess task (some result) required ≡ ok a
      → a.visual_verifiable ≡ true
      → (nonempty task.attachments ≡ true)
        × (result.ok ≡ true)
        × (is_true (get "success" result.data_value) ≡ true)
        × (a.success ≡ true)
        × (a.evidence_consistent ≡ some true)
        × (a.risk_signals ≡ [])
  verifiable_rests_on_review result h seen = elim (assess-Reviewed result h) [
    | inl unseen ↦ cc
    | inr (given, good, k) ↦
        let (listed, _, decided) = assess_review-Decided result.data_value k in
        let (missing, es, ev, ec, er) = decided in
        let (success, consistent, riskless, _) = verifiable_parts _ missing (sym ev ∙ seen) in
        (given, good, unfold findings in success, es ∙ success, ec ∙ consistent, er ∙ riskless)
  ]

  -- Where a review of given attachments calls the evidence inconsistent, or it or one of its items
  -- suspects tampering, or an item is contradictory, the assessment is inconsistent, carries a
  -- risk signal and is not verifiable.
  pub suspicion_is_kept :
      (result : ToolResult F) {a : EvidenceAssessment F} {listed : List (Value F)}
      → nonempty task.attachments ≡ true
      → result.ok ≡ true
      → is_dict result.data_value ≡ true
      → iterate_or_empty (get "items" result.data_value) ≡ ok listed
      → is_suspicious (findings result.data_value (dicts listed)) ≡ true
      → assess task (some result) required ≡ ok a
      → (a.visual_verifiable ≡ false)
        × (a.evidence_consistent ≡ some false)
        × (nonempty a.risk_signals ≡ true)
  unfolding assess
  suspicion_is_kept result {listed = listed} given good dict listing suspicious h =
      let (listed', listing', decided) =
        assess_review-Decided result.data_value (rw (given, good, dict) at h) in
      let (missing, es, ev, ec, er) = decided in
      let same : listed' ≡ listed = ok-injective (sym listing' ∙ listing) in
      let (unseen, consistent, risk) =
        suspicious_parts (findings result.data_value (dicts listed')) missing
          (rw same suspicious) in
      (ev ∙ unseen, ec ∙ consistent, ap nonempty er ∙ risk)
