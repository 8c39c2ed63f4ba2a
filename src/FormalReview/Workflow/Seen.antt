-- ===== src/FormalReview/Workflow/Seen.antt =====
-- `EvidenceWorkflow.handle` is one assessment, of at most one call.
use Prim.Native.String.{◌++◌ as append}
use Prim.Native.String.append as append_clauses
use ecommerce_after_sales_sy.Prelude.{
  ℕ, suc, ◌+◌, ◌∙◌, ◌≡◌, refl, ap, String, true, false, Bool-cases, inl, inr, Option, none, some,
  List, [], ◌∷◌, nonempty, if◌then◌else◌,
}
use ecommerce_after_sales_sy.Python.Text.{join}
use ecommerce_after_sales_sy.Python.Result.{Result, ok, ◌>>=◌, Result-cases}
use ecommerce_after_sales_sy.Python.Runtime.{Runtime}
use ecommerce_after_sales_sy.FormalReview.Contracts.{EvidenceTask, EvidenceAssessment, ToolResult}
use ecommerce_after_sales_sy.FormalReview.Graph.State.{has_text}
use ecommerce_after_sales_sy.FormalReview.Evaluate.Evidence
use ecommerce_after_sales_sy.FormalReview.Workflow.Ports.{ToolCall, Tools, review}
use ecommerce_after_sales_sy.FormalReview.Workflow.Evidence.{
  EvidenceWorkflowState, EvidencePosition, at_review, at_assess, begin_evidence, evidence_of,
  review_result, missing_evidence_fields, evidence_failure, rejected_review, receive_evidence_task,
  route_after_evidence_task, assess_evidence, review_evidence, evidence_step, evidence_run,
  handle_evidence,
}

rejection_has_text :
    (names : String) → has_text (some (append "invalid_evidence_task:" names)) ≡ true
rejection_has_text names =
    ap (λ t. has_text (some t)) (append_clauses.cons "i" "nvalid_evidence_task:" names)

module _ {F : Type 0} ⦃r : Runtime F⦄ (tools : Tools F) (task : EvidenceTask F) where
  -- What the workflow is to do: a task with a blank field is assessed as a failed review without a
  -- call, one without attachments is assessed without a result, and any other one by the answer to
  -- the one call that reviews its images.
  abbrev pub specified : Result (EvidenceAssessment F × List (ToolCall F))
  specified =
      if nonempty (missing_evidence_fields task)
      then (Evidence.assess task (some (rejected_review (evidence_failure task))) [] >>= λ a.
          ok (a, []))
      else if nonempty task.attachments
      then (Evidence.assess task (some (tools [] (review task))) [] >>= λ a.
          ok (a, review task ∷ []))
      else (Evidence.assess task none [] >>= λ a. ok (a, []))

  -- From the last node on: one assessment.
  finish :
      (limit : ℕ) (calls : List (ToolCall F)) (s : EvidenceWorkflowState F)
      (o : Option (ToolResult F))
      → s.task ≡ task
      → review_result s ≡ o
      → (evidence_run tools (suc limit) at_assess (record { state = s; calls = calls }) >>= λ m.
          evidence_of tools m m.state.assessment)
        ≡ (Evidence.assess task o [] >>= λ a. ok (a, calls))
  unfolding evidence_run evidence_step assess_evidence
  finish limit calls s o same read =
      rw (same, read)
        (elim (Result-cases (Evidence.assess task o [])) [ inl (a, e) ↦ rw e | inr (x, e) ↦ rw e ])

  abbrev received : EvidenceWorkflowState F
  received = receive_evidence_task (begin_evidence tools task).state

  received_task : received.task ≡ task
  unfolding receive_evidence_task
  received_task = refl

  received_failure : received.failure_category ≡ evidence_failure task
  unfolding receive_evidence_task
  received_failure = refl

  received_result : received.image_review_result ≡ none
  unfolding receive_evidence_task
  received_result = refl

  after_receive :
      {p : EvidencePosition}
      → route_after_evidence_task received ≡ p
      → handle_evidence tools task ≡ (
          evidence_run tools 24 p (record { state = received; calls = [] }) >>= λ m.
          evidence_of tools m m.state.assessment)
  unfolding handle_evidence evidence_run evidence_step
  after_receive e =
      ap
        (λ q. evidence_run tools 24 q (record { state = received; calls = [] }) >>= λ m.
          evidence_of tools m m.state.assessment)
        e

  blank_failure :
      nonempty (missing_evidence_fields task) ≡ true → has_text received.failure_category ≡ true
  blank_failure blank =
      rw (received_failure, blank) (rejection_has_text (join "," (missing_evidence_fields task)))

  no_failure :
      nonempty (missing_evidence_fields task) ≡ false → has_text received.failure_category ≡ false
  no_failure complete = rw (received_failure, complete) refl

  -- The images are reviewed, and the answer is assessed.
  abbrev seen : EvidenceWorkflowState F
  seen = record received {
    image_review_result = some (tools [] (review task));
    steps = received.steps + 1;
  }

  reviewed :
      (evidence_run tools 24 at_review (record { state = received; calls = [] }) >>= λ m.
      evidence_of tools m m.state.assessment)
      ≡ (evidence_run tools 23 at_assess (record { state = seen; calls = review task ∷ [] })
          >>= λ m. evidence_of tools m m.state.assessment)
  unfolding evidence_run evidence_step review_evidence receive_evidence_task
  reviewed = refl

  -- The graph of the evidence workflow returns and raises what that one assessment does, for every
  -- task and every registry: it never ends without an assessment or exhausts LangGraph's limit.
  pub handle_evidence-eq-specified : handle_evidence tools task ≡ specified
  unfolding route_after_evidence_task
  handle_evidence-eq-specified = elim (Bool-cases (nonempty (missing_evidence_fields task))) [
    | inl blank ↦
        after_receive (rw (blank_failure blank) refl)
        ∙ finish 23 [] received (some (rejected_review (evidence_failure task))) received_task
            (rw (blank_failure blank) (ap (λ f. some (rejected_review f)) received_failure))
        ∙ rw blank
    | inr complete ↦ elim (Bool-cases (nonempty task.attachments)) [
      | inl given ↦
          after_receive (rw (no_failure complete, received_task, given) refl)
          ∙ reviewed
          ∙ finish 22 (review task ∷ []) seen (some (tools [] (review task))) received_task
              (rw (no_failure complete) refl)
          ∙ rw (complete, given)
      | inr bare ↦
          after_receive (rw (no_failure complete, received_task, bare) refl)
          ∙ finish 23 [] received none received_task (rw (no_failure complete) received_result)
          ∙ rw (complete, bare)
    ]
  ]
