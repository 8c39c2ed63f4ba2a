-- ===== src/FormalReview/Graph/Sound/Reason.antt =====
-- The nodes that reason: the two specialists, `review_synthesis` and `deterministic_gate`.
use ecommerce_after_sales_sy.Prelude.{
  String, ◌≡◌, refl, ◌∙◌, Bool, true, false, Option, some, List, All, arith, inl, inr,
}
use ecommerce_after_sales_sy.Python.Value.{get}
use ecommerce_after_sales_sy.Python.Result.{
  Exn, value_error, type_error, overflow_error, Result, ◌>>=◌,
}
use ecommerce_after_sales_sy.Python.Ensures.{
  Ensures, Raises, Ensures-bind, Ensures-if, Ensures-guard, iterate_or_empty-Raises,
}
use ecommerce_after_sales_sy.Python.Runtime.{Runtime}
use ecommerce_after_sales_sy.Python.Convert.{iterate_or_empty}
use ecommerce_after_sales_sy.FormalReview.Contracts.{
  TrustedCaseContext, PolicyTask, EvidenceTask, PolicyAssessment, EvidenceAssessment,
}
use ecommerce_after_sales_sy.FormalReview.Confidence.{apply_deterministic_confidence}
use ecommerce_after_sales_sy.FormalReview.Synthesis.{SynthesisRequest, synthesize}
use ecommerce_after_sales_sy.FormalReview.Score.{score_overflows}
use ecommerce_after_sales_sy.FormalReview.Sop.{assess_escalation}
use ecommerce_after_sales_sy.FormalReview.Graph.State.{Call, Collaborators, Settings, Machine, need}
use ecommerce_after_sales_sy.FormalReview.Graph.Load.{run_specialists, policy_task, evidence_task}
use ecommerce_after_sales_sy.FormalReview.Graph.Decide.{
  versions_agree, with_unresolved, draft_proposal, propose, review_synthesis,
}
use ecommerce_after_sales_sy.FormalReview.Graph.Run.{at_gate, at_synthesis}
use ecommerce_after_sales_sy.FormalReview.Graph.Approved.{
  Ready, InReview, HasContext, HasPlan, HasAssessments,
}

-- What the collaborators raise satisfies `E`.
pub record AllRaise {F : Type 0} (env : Collaborators F) (E : Exn → Type 0) : Type 0 where
  pub policy : (h : List (Call F)) (t : PolicyTask) → Raises E (env.policy h t)
  pub evidence : (h : List (Call F)) (t : EvidenceTask F) → Raises E (env.evidence h t)
  pub llm : (h : List (Call F)) (q : SynthesisRequest F) → Raises E (env.llm h q)
  pub reference : (name file : String) → Raises E (env.load_reference name file)

pub need-Ensures {ℓ κ} :
    {A : Type ℓ} {B : Type κ} (E : Exn → Type 0) (key : String) {o : Option A} (f : A → Result B)
    (P : B → Type 0) {a : A}
    → o ≡ some a
    → Ensures E (f a) P
    → Ensures E (need key o >>= f) P
need-Ensures E key f P e h = rw e h

module _ {F : Type 0} ⦃r : Runtime F⦄ (env : Collaborators F) (cfg : Settings F) (E : Exn → Type 0)
    (value : (t : String) → E (value_error t)) (type : E type_error) (overflow : E overflow_error)
    (raised : AllRaise env E) where
  policy_task-Raises :
      (m : Machine F) → HasContext m.state → HasPlan m.state → Raises E (policy_task env cfg m)
  unfolding policy_task
  policy_task-Raises m (c, ec, k) (w, ew) =
      rw (ec, ew)
        (Ensures-bind E (env.load_reference cfg.formal_review_skill.name "policy-workflow.md" >>= _)
          _ (λ _. Unit) (λ _. Unit)
          (Ensures-bind E (env.load_reference cfg.formal_review_skill.name "policy-workflow.md") _
            (λ _. Unit) (λ _. Unit)
            (raised.reference cfg.formal_review_skill.name "policy-workflow.md") (λ _ _. tt))
          (λ _ _. tt))

  evidence_task-Raises : (m : Machine F) → HasContext m.state → Raises E (evidence_task env cfg m)
  unfolding evidence_task
  evidence_task-Raises m (c, ec, k) = rw ec (
      Ensures-bind E (env.load_reference cfg.formal_review_skill.name "evidence-workflow.md" >>= _)
        _ (λ _. Unit) (λ _. Unit)
        (Ensures-bind E (env.load_reference cfg.formal_review_skill.name "evidence-workflow.md") _
          (λ _. Unit) (λ _. Unit)
          (raised.reference cfg.formal_review_skill.name "evidence-workflow.md") (λ _ _. tt))
        (λ _ _. tt))

  abbrev pub Assessed : (Call F → Type 0) → Machine F → Type 0
  Assessed P n = Ready cfg at_synthesis n.state × All P n.calls

  pub run_specialists-Assessed :
      (m : Machine F) (P : Call F → Type 0)
      → HasContext m.state
      → HasPlan m.state
      → All P m.calls
      → Ensures E (run_specialists env cfg m) (Assessed P)
  unfolding run_specialists
  run_specialists-Assessed m P c w h =
      Ensures-bind E (policy_task env cfg m) _ (λ _. Unit) (Assessed P) (policy_task-Raises m c w)
        λ ptask _.
          Ensures-bind E (env.policy m.calls ptask) _ (λ _. Unit) (Assessed P)
            (raised.policy m.calls ptask)
            λ p _.
              Ensures-bind E (evidence_task env cfg m) _ (λ _. Unit) (Assessed P)
                (evidence_task-Raises m c)
                λ etask _.
                  Ensures-bind E (env.evidence m.calls etask) _ (λ _. Unit) (Assessed P)
                    (raised.evidence m.calls etask) (λ e _. ((c, (p, e, refl, refl)), h))

  synthesize-Raises :
      (h : List (Call F)) (c : TrustedCaseContext F) (issue : String) (p : PolicyAssessment F)
      (e : EvidenceAssessment F)
      → Raises E (synthesize (env.llm h) c issue p e)
  unfolding synthesize
  synthesize-Raises h c issue p e =
      Ensures-bind E (env.llm h _) _ (λ _. Unit) (λ _. Unit) (raised.llm h _)
        λ raw _.
          Ensures-guard E (score_overflows (get "confidence" raw)) overflow_error _ (λ _. Unit)
            (λ _. overflow)
            λ _.
              Ensures-bind E (iterate_or_empty (get "risk_reasons" raw)) _ (λ _. Unit) (λ _. Unit)
                (iterate_or_empty-Raises E value type (get "risk_reasons" raw)) (λ _ _. tt)

  draft_proposal-Raises :
      (m : Machine F) (c : TrustedCaseContext F) (p : PolicyAssessment F) (e : EvidenceAssessment F)
      (b : Bool)
      → Raises E (draft_proposal env cfg m c p e b)
  unfolding draft_proposal
  draft_proposal-Raises m c p e true = synthesize-Raises m.calls c m.state.issue p e
  draft_proposal-Raises m c p e false = tt

  -- Adding what is unresolved keeps the version of the evidence.
  agree-with_unresolved :
      (v : String) (p : PolicyAssessment F) (e : EvidenceAssessment F)
      → versions_agree v p (with_unresolved p e) ≡ versions_agree v p e
  unfolding with_unresolved
  agree-with_unresolved v p e = ground arith

  abbrev pub Proposed : (Call F → Type 0) → Machine F → Type 0
  Proposed P n = Ready cfg at_gate n.state × All P n.calls

  propose-Proposed :
      (m : Machine F) (P : Call F → Type 0) (c : TrustedCaseContext F) (p : PolicyAssessment F)
      (e : EvidenceAssessment F)
      → m.state.trusted_context ≡ some c
      → InReview c
      → m.state.policy_assessment ≡ some p
      → versions_agree c.context_version p e ≡ true
      → All P m.calls
      → Ensures E (propose env cfg m c p e) (Proposed P)
  unfolding propose
  propose-Proposed m P c p e ec k ep agree h =
      Ensures-bind E
        (draft_proposal env cfg m c p e
          (assess_escalation p e cfg.minimum_review_confidence).required)
        _ (λ _. Unit) (Proposed P) (draft_proposal-Raises m c p e _)
        λ q _. (
          inr (
            c,
            p,
            e,
            apply_deterministic_confidence q p e,
            record {
              has_context = ec;
              has_policy = ep;
              has_evidence = refl;
              has_proposal = refl;
              in_review = k;
              agreed = agree;
            },
          ),
          h,
        )

  pub review_synthesis-Proposed :
      (m : Machine F) (P : Call F → Type 0)
      → HasContext m.state
      → HasAssessments m.state
      → All P m.calls
      → Ensures E (review_synthesis env cfg m) (Proposed P)
  unfolding review_synthesis
  review_synthesis-Proposed m P (c, ec, k) (p, e, ep, ee) h = need-Ensures E _ _ (Proposed P) ep (
      need-Ensures E _ _ (Proposed P) ee (
        need-Ensures E _ _ (Proposed P) ec (
          Ensures-if E (versions_agree c.context_version p e) _ _ (Proposed P)
            (λ agree.
              propose-Proposed m P c p (with_unresolved p e) ec k ep
                (agree-with_unresolved c.context_version p e ∙ agree) h)
            (λ _. (inl refl, h)))))
