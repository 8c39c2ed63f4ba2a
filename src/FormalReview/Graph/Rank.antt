-- ===== src/FormalReview/Graph/Rank.antt =====
-- The supersteps that may be left in an attempt: each node but `prepare_resumed_attempt` leaves fewer.
use ecommerce_after_sales_sy.Prelude.{
  is_some, ℕ, ◌<◌, ◌≡◌, ◌≢◌, refl, inl, inr, ◌⊎◌, not, ◌&&◌, nonempty, arith, str_eq, Bool-cases,
}
use ecommerce_after_sales_sy.Python.Result.{Result, ok, raise, ◌>>=◌, ok-injective}
use mathlib.Core.Path.{subst}
use ecommerce_after_sales_sy.Python.Runtime.{Runtime}
use ecommerce_after_sales_sy.FormalReview.Graph.State.{
  GateAction, FormalReviewState, Collaborators, Settings, Machine, has_text,
}
use ecommerce_after_sales_sy.FormalReview.Graph.Java.{stale}
use ecommerce_after_sales_sy.FormalReview.Graph.Run.{
  Position, at_context, at_inputs, at_plan, at_specialists, at_synthesis, at_gate, at_submit,
  at_request, at_await, at_newer, at_prepare, at_manual, at_end, step, route_after_context,
  route_after_input_validation, route_after_gate, route_after_action, route_after_evidence_request,
  route_after_submission,
}

-- How many supersteps may be left in the attempt.
abbrev pub rank : Position → ℕ
rank at_context = 8
rank at_inputs = 7
rank at_plan = 6
rank at_specialists = 5
rank at_synthesis = 4
rank at_gate = 3
rank at_request = 2
rank at_submit = 1
rank at_manual = 1
rank at_await = 0
rank at_newer = 0
rank at_end = 0
rank at_prepare = 9

-- Either the attempt is given up for a new one, or the rank falls.
abbrev pub Falls : ℕ → Position → Type 0
Falls n p = (p ≡ at_prepare) ⊎ (rank p < n)

module _ {F : Type 0} (s : FormalReviewState F) where
  Falls-context : Falls 8 (route_after_context s)
  unfolding route_after_context
  Falls-context = elim (Bool-cases (is_some s.trusted_context && not (has_text s.failure_reason))) [
    | inl h ↦ rw h (inr (omega arith))
    | inr h ↦ rw h (inr (omega arith))
  ]

  Falls-inputs : Falls 7 (route_after_input_validation s)
  unfolding route_after_input_validation
  Falls-inputs = elim (Bool-cases (nonempty s.evidence_needed)) [
    | inl h ↦ rw h (inr (omega arith))
    | inr h ↦ rw h (inr (omega arith))
  ]

  Falls-gate : Falls 3 (route_after_gate s)
  unfolding route_after_gate
  Falls-gate = by_action s.gate_action
    where
      by_action : (a : GateAction) → Falls 3 (route_after_action a)
      by_action GateAction.submit_review = inr (omega arith)
      by_action GateAction.request_evidence = inr (omega arith)
      by_action GateAction.manual_review = inr (omega arith)
      by_action GateAction.stale_evidence = inr (omega arith)
      by_action GateAction.unset = inr (omega arith)

  Falls-request : Falls 2 (route_after_evidence_request s)
  unfolding route_after_evidence_request
  Falls-request = elim (Bool-cases s.evidence_request_applied) [
    | inl h ↦ rw h (inr (omega arith))
    | inr h ↦ elim (Bool-cases (str_eq s.evidence_request_outcome stale)) [
      | inl k ↦ rw (h, k) (inl refl)
      | inr k ↦ rw (h, k) (inr (omega arith))
    ]
  ]

  Falls-submission : Falls 1 (route_after_submission s)
  unfolding route_after_submission
  Falls-submission = elim (Bool-cases (str_eq s.submission_outcome stale)) [
    | inl h ↦ rw h (inr (omega arith))
    | inr h ↦ rw h (inr (omega arith))
  ]

-- What a bind returns comes from its last part.
ok-Falls :
    {B : Type 0} (n : ℕ) (d : Position × B) {c : Position × B}
    → Falls n d.0
    → ok d ≡ ok c
    → Falls n c.0
ok-Falls n d h e = subst (λ x. Falls n x.0) (ok-injective e) h

bind-Falls :
    {A B : Type 0} (n : ℕ) (m : Result A) (f : A → Position × B)
    → ((a : A) → Falls n (f a).0)
    → {c : Position × B} → (m >>= λ a. ok (f a)) ≡ ok c
    → Falls n c.0
bind-Falls n (ok a) f h e = ok-Falls n (f a) (h a) e
bind-Falls n (raise x) f h e = cc

module _ {F : Type 0} ⦃r : Runtime F⦄ (env : Collaborators F) (cfg : Settings F) where
  pub step-Falls :
      (p : Position) (m : Machine F) {c : Position × Machine F}
      → p ≢ at_prepare
      → step env cfg p m ≡ ok c
      → Falls (rank p) c.0
  unfolding step
  step-Falls at_context m ne e = bind-Falls 8 _ _ (λ n. Falls-context n.state) e
  step-Falls at_inputs m ne e = bind-Falls 7 _ _ (λ s. Falls-inputs s) e
  step-Falls at_plan m ne e = bind-Falls 6 _ _ (λ s. inr (omega arith)) e
  step-Falls at_specialists m ne e = bind-Falls 5 _ _ (λ n. inr (omega arith)) e
  step-Falls at_synthesis m ne e = bind-Falls 4 _ _ (λ n. inr (omega arith)) e
  step-Falls at_gate m ne e = bind-Falls 3 _ _ (λ s. Falls-gate s) e
  step-Falls at_request m ne e = bind-Falls 2 _ _ (λ n. Falls-request n.state) e
  step-Falls at_submit m ne e = ok-Falls 1 _ (Falls-submission _) e
  step-Falls at_manual m ne e = ok-Falls 1 _ (Falls-submission _) e
  step-Falls at_prepare m ne e = absurd (ne refl)
  step-Falls at_await m ne e = cc
  step-Falls at_newer m ne e = cc
  step-Falls at_end m ne e = cc
