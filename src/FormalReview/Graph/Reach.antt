-- ===== src/FormalReview/Graph/Reach.antt =====
-- The configurations that a review can reach: it is started, makes supersteps, and is resumed from
-- an interrupt by any signal, any number of times, whatever the collaborators answer.
use ecommerce_after_sales_sy.Prelude.{
  ℕ, zero, suc, String, ◌≡◌, ◌≢◌, refl, [], All, Bool-cases, inl, inr,
}
use mathlib.Core.Path.{subst}
use ecommerce_after_sales_sy.Python.Value.{Value}
use ecommerce_after_sales_sy.Python.Result.{
  Exn, key_error, Result, ok, raise, >>=-eq-ok, ok-injective,
}
use ecommerce_after_sales_sy.Python.Ensures.{Ensures, Raises, Ensures-ok}
use ecommerce_after_sales_sy.Python.Runtime.{Runtime}
use ecommerce_after_sales_sy.FormalReview.Graph.State.{Collaborators, Settings, Machine}
use ecommerce_after_sales_sy.FormalReview.Graph.Resume.{take_signal}
use ecommerce_after_sales_sy.FormalReview.Graph.Run.{
  Position, at_context, at_await, at_newer, at_prepare, step, run, initial_state, is_resting,
}
use ecommerce_after_sales_sy.FormalReview.Graph.Approved.{IsSound, SubmitsJustified}
use ecommerce_after_sales_sy.FormalReview.Graph.Sound.Reason.{AllRaise}
use ecommerce_after_sales_sy.FormalReview.Graph.Sound.Steps.{step-IsSound}

abbrev pub NotKeyError : Exn → Type 0
NotKeyError e = (key : String) → e ≢ key_error key

module _ {F : Type 0} ⦃r : Runtime F⦄ (env : Collaborators F) (cfg : Settings F) where
  pub data Reach : Position → Machine F → Type 0 where
    started :
        (payload : Value F) (trace : String)
        → Reach at_context (record { state = initial_state env cfg payload trace; calls = [] })
    stepped :
        {p : Position} {m : Machine F}
        → Reach p m
        → (p' : Position) (m' : Machine F) → step env cfg p m ≡ ok (p', m')
        → Reach p' m'
    evidence_added :
        {m : Machine F}
        → Reach at_await m
        → (signal : Value F) → Reach at_prepare (record m { state = take_signal m.state signal })
    newer_evidence :
        {m : Machine F}
        → Reach at_newer m
        → (signal : Value F) → Reach at_prepare (record m { state = take_signal m.state signal })

  -- A run that returns reaches what it returns.
  pub run-Reach :
      (limit : ℕ) {p : Position} {m : Machine F} {c : Position × Machine F}
      → Reach p m
      → run env cfg limit p m ≡ ok c
      → Reach c.0 c.1
  unfolding run
  run-Reach zero {p} {m} reached h = elim (Bool-cases (is_resting p)) [
    | inl k ↦ subst (λ x. Reach x.0 x.1) (ok-injective (rw k at h)) reached
    | inr k ↦ let q = rw k at h in cc
  ]
  run-Reach (suc limit) {p} {m} reached h = elim (Bool-cases (is_resting p)) [
    | inl k ↦ subst (λ x. Reach x.0 x.1) (ok-injective (rw k at h)) reached
    | inr k ↦
        let (c, e, q) = >>=-eq-ok (step env cfg p m) _ (rw k at h) in
        run-Reach limit (stepped reached c.0 c.1 e) q
  ]

  -- Any exception is allowed.
  anything : {A : Type 0} (m : Result A) → Raises (λ _. Unit) m
  anything (ok a) = tt
  anything (raise e) = tt

  pub all_raise : AllRaise env (λ _. Unit)
  all_raise = record {
    policy = λ h t. anything (env.policy h t);
    evidence = λ h t. anything (env.evidence h t);
    llm = λ h q. anything (env.llm h q);
    reference = λ n f. anything (env.load_reference n f);
  }

  pub Reach-IsSound : {p : Position} {m : Machine F} → Reach p m → IsSound cfg p m
  Reach-IsSound (started payload trace) = record { ready = tt; justified = tt }
  Reach-IsSound (stepped {p = p} {m = m} reached p' m' e) =
      Ensures-ok (λ _. Unit) (step env cfg p m) (λ c. IsSound cfg c.0 c.1)
        (step-IsSound env cfg (λ _. Unit) (λ _. tt) tt tt (λ _. tt) all_raise p m
          (Reach-IsSound reached))
        e
  Reach-IsSound (evidence_added reached signal) = record {
    ready = tt;
    justified = (Reach-IsSound reached).justified;
  }
  Reach-IsSound (newer_evidence reached signal) = record {
    ready = tt;
    justified = (Reach-IsSound reached).justified;
  }

  -- In every configuration that a review can reach, each approval that was submitted to Java
  -- carries a trusted policy of the ticket's version, verifiable and consistent evidence without
  -- risk signals, assessments of the submitted context version, and both confidences at the
  -- threshold or above it; and automatic approval was enabled.
  pub approvals_justified :
      {p : Position} {m : Machine F} → Reach p m → All (SubmitsJustified cfg) m.calls
  approvals_justified reached = (Reach-IsSound reached).justified

  -- No node of a reachable configuration reads a key of the state that is missing, provided that
  -- the collaborators raise no KeyError of their own.
  pub step_finds_keys :
      {p : Position} {m : Machine F}
      → Reach p m
      → AllRaise env NotKeyError
      → (key : String) → step env cfg p m ≢ raise (key_error key)
  step_finds_keys {p} {m} reached raised key e =
      refuted (step env cfg p m)
        (step-IsSound env cfg NotKeyError (λ t k. λ q. cc) (λ k q. cc) (λ k q. cc) (λ t k q. cc)
          raised p m (Reach-IsSound reached))
        e
    where
      refuted :
          (x : Result (Position × Machine F))
          → Ensures NotKeyError x (λ c. IsSound cfg c.0 c.1)
          → x ≡ raise (key_error key)
          → ⊥
      refuted x h q = (rw q at h) key refl
