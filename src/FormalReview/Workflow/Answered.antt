-- ===== src/FormalReview/Workflow/Answered.antt =====
-- What `PolicyWorkflow.handle` returns: the assessment of an answer to one of at most two calls.
use ecommerce_after_sales_sy.Prelude.{
  length-take-le, ℕ, zero, suc, ◌≤◌, ◌<◌, ◌≡◌, ◌≢◌, String, Bool, true, false, Bool-cases, inl, inr,
  ◌⊎◌, none, some, List, [], ◌∷◌, keep, length, take, nonempty, All, arith,
}
use ecommerce_after_sales_sy.Python.Text.{is_text, strip}
use ecommerce_after_sales_sy.Python.Result.{Exn, runtime_error, ok}
use ecommerce_after_sales_sy.Python.Runtime.{Runtime}
use ecommerce_after_sales_sy.FormalReview.Contracts.{PolicyTask, PolicyAssessment, ToolResult}
use ecommerce_after_sales_sy.FormalReview.Evaluate.Policy
use ecommerce_after_sales_sy.FormalReview.Workflow.Ports.{ToolCall, Tools, retrieve, retrieve_multi}
use ecommerce_after_sales_sy.FormalReview.Workflow.PolicyState.{
  RewriteDecision, RewriteService, PolicyPosition, at_receive, at_retrieve, at_observe, at_rewrite,
  at_multi, at_observe_rewritten, at_finalize, at_done, PolicyMachine, missing_fields, queries_of,
  without_retrieval,
}
use ecommerce_after_sales_sy.FormalReview.Workflow.Policy.{PolicyConfiguration, begin_policy}

-- At most three queries, none of them blank.
abbrev pub IsShort : List String → Type 0
IsShort queries = (length queries ≤ 3) × All (λ q. is_text (strip q) ≡ true) queries

keep-All : (p : String → Bool) (xs : List String) → All (λ q. p q ≡ true) (keep p xs)
keep-All p [] = tt
keep-All p (x ∷ xs) = elim (Bool-cases (p x)) [
  | inl h ↦ rw h (h, keep-All p xs)
  | inr h ↦ rw h (keep-All p xs)
]

take-All : (p : String → Type 0) (n : ℕ) (xs : List String) → All p xs → All p (take n xs)
take-All p zero xs h = tt
take-All p (suc n) [] h = tt
take-All p (suc n) (x ∷ xs) h = (h.0, take-All p n xs h.1)

pub queries_of-IsShort : (d : RewriteDecision) → IsShort (queries_of d)
unfolding queries_of
queries_of-IsShort d = elim (Bool-cases d.sufficient) [
  | inl h ↦ rw h (omega arith, tt)
  | inr h ↦ rw h (
    length-take-le 3 (keep (λ q. is_text (strip q)) d.queries),
    take-All _ 3 (keep (λ q. is_text (strip q)) d.queries)
        (keep-All (λ q. is_text (strip q)) d.queries),
  )
]

-- No error of the workflow's own or of LangGraph.
abbrev pub NotRuntimeError : Exn → Type 0
NotRuntimeError e = (t : String) → e ≢ runtime_error t

module _ {F : Type 0} ⦃r : Runtime F⦄ (tools : Tools F) (service : RewriteService F)
    (task : PolicyTask) where
  abbrev pub first_answer : ToolResult F
  first_answer = tools [] (retrieve task)

  abbrev pub second_answer : List String → ToolResult F
  second_answer queries = tools (retrieve task ∷ []) (retrieve_multi task queries)

  -- An assessment, with the calls that were made for it, the last one first.
  pub data IsAnswered : PolicyAssessment F → List (ToolCall F) → Type 0 where
    rejected :
        {a : PolicyAssessment F}
        → nonempty (missing_fields task) ≡ true
        → (failure : String) → Policy.assess task (without_retrieval (some failure)) ≡ ok a
        → IsAnswered a []
    answered :
        {a : PolicyAssessment F}
        → nonempty (missing_fields task) ≡ false
        → Policy.assess task first_answer ≡ ok a
        → IsAnswered a (retrieve task ∷ [])
    answered_again :
        {a b : PolicyAssessment F} (queries : List String)
        → nonempty (missing_fields task) ≡ false
        → Policy.assess task first_answer ≡ ok b
        → b.trusted_policy_eligible ≡ false
        → IsShort queries
        → Policy.assess task (second_answer queries) ≡ ok a
        → IsAnswered a (retrieve_multi task queries ∷ retrieve task ∷ [])

  abbrev pub Complete : Type 0
  Complete = nonempty (missing_fields task) ≡ false

  -- The first answer was assessed, and the policy is not trusted.
  abbrev pub Untrusted : Type 0
  Untrusted =
      (b : PolicyAssessment F) × (Policy.assess task first_answer ≡ ok b)
      × (b.trusted_policy_eligible ≡ false)

  abbrev pub Finished : PolicyMachine F → Type 0
  Finished m = (a : PolicyAssessment F) × (m.state.assessment ≡ some a) × IsAnswered a m.calls

  abbrev pub Rejected : PolicyMachine F → Type 0
  Rejected m =
      (m.state.task ≡ task)
      × (m.state.assessment ≡ none)
      × (m.calls ≡ [])
      × (nonempty (missing_fields task) ≡ true)
      × (failure : String) × (m.state.failure_category ≡ some failure)

  -- What holds of the machine at each position.
  abbrev pub Holds : PolicyPosition → PolicyMachine F → Type 0
  Holds at_receive m = m ≡ begin_policy tools service task
  Holds at_retrieve m = Complete × (m.state.task ≡ task) × (m.calls ≡ [])
  Holds at_observe m =
      Complete
      × (m.state.task ≡ task)
      × (m.calls ≡ retrieve task ∷ [])
      × (m.state.retrieval_result ≡ some first_answer)
  Holds at_rewrite m =
      Complete × (m.state.task ≡ task) × (m.calls ≡ retrieve task ∷ []) × Finished m × Untrusted
  Holds at_multi m =
      Complete
      × (m.state.task ≡ task)
      × (m.calls ≡ retrieve task ∷ [])
      × Untrusted
      × IsShort m.state.rewrite_queries
  Holds at_observe_rewritten m =
      Complete
      × (m.state.task ≡ task)
      × Untrusted
      × (queries : List String) × IsShort queries
      × (m.calls ≡ retrieve_multi task queries ∷ retrieve task ∷ [])
      × (m.state.retrieval_result ≡ some (second_answer queries))
  Holds at_finalize m = Finished m ⊎ Rejected m
  Holds at_done m = Finished m

  abbrev pub left : PolicyPosition → ℕ
  left at_receive = 7
  left at_retrieve = 6
  left at_observe = 5
  left at_rewrite = 4
  left at_multi = 3
  left at_observe_rewritten = 2
  left at_finalize = 1
  left at_done = 0

  -- What a step from a position of the given rank leads to.
  abbrev pub Leads : ℕ → PolicyConfiguration tools service → Type 0
  Leads n c = Holds c.0 c.1 × (left c.0 < n)
