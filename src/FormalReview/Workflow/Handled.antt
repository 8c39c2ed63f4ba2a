-- ===== src/FormalReview/Workflow/Handled.antt =====
-- Every step of `PolicyWorkflow` keeps what holds at its position, and `handle` returns an answer.
use Prim.Native.String.{◌++◌ as append}
use ecommerce_after_sales_sy.Prelude.{
  false, ℕ, zero, suc, ◌≤◌, ◌≡◌, refl, sym, ◌∙◌, not, ◌&&◌, Bool-cases, inl, inr, some, nonempty,
  ltb, arith,
}
use ecommerce_after_sales_sy.Python.Text.{join}
use ecommerce_after_sales_sy.Python.Result.{ok, ◌>>=◌}
use ecommerce_after_sales_sy.Python.Ensures.{Ensures, Ensures-bind}
use ecommerce_after_sales_sy.Python.Runtime.{Runtime}
use ecommerce_after_sales_sy.FormalReview.Contracts.{PolicyTask}
use ecommerce_after_sales_sy.FormalReview.Evaluate.Policy
use ecommerce_after_sales_sy.FormalReview.Workflow.Ports.{Tools}
use ecommerce_after_sales_sy.FormalReview.Workflow.PolicyState.{
  RewriteService, PolicyPosition, at_receive, at_retrieve, at_observe, at_rewrite, at_multi,
  at_observe_rewritten, at_finalize, at_done, PolicyMachine, missing_fields, without_retrieval,
  unobserved,
}
use ecommerce_after_sales_sy.FormalReview.Workflow.Policy.{
  receive_policy_task, rewrite_policy_query, decide_retrieval_next, route_after_rewrite,
  route_after_receive, observe_policy_result, assess_policy, retrieve_policy, retrieve_policy_multi,
  policy_step, policy_run, begin_policy, handle_policy, service_present,
}
use ecommerce_after_sales_sy.FormalReview.Workflow.Answered
use ecommerce_after_sales_sy.FormalReview.Workflow.Answered.{
  IsShort, queries_of-IsShort, NotRuntimeError, IsAnswered, rejected, answered, answered_again,
}
use ecommerce_after_sales_sy.FormalReview.Workflow.Nodes.{
  RewriteRaises, evaluated, Observed, observe-Observed, rewrite-IsShort, rejection_is_text,
  second_and, not-eq-true,
}

module _ {F : Type 0} ⦃r : Runtime F⦄ (tools : Tools F) (service : RewriteService F)
    (raised : RewriteRaises service) (task : PolicyTask) where
  abbrev Holds : PolicyPosition → PolicyMachine F → Type 0
  Holds = Answered.Holds tools service task

  abbrev Steps : PolicyPosition → Type 0
  Steps p =
      (m : PolicyMachine F)
      → Holds p m
      → Ensures NotRuntimeError (policy_step tools service p m)
          (Answered.Leads tools service task (Answered.left tools service task p))

  receive-Steps : Steps at_receive
  unfolding policy_step receive_policy_task route_after_receive
  receive-Steps m h = rw h (elim (Bool-cases (nonempty (missing_fields task))) [
    | inl blank ↦
        rw (blank, rejection_is_text (join "," (missing_fields task)))
          (
            inr (
              refl,
              refl,
              refl,
              blank,
              append "invalid_policy_task:" (join "," (missing_fields task)),
              refl,
            ),
            omega arith,
          )
    | inr complete ↦ rw complete ((complete, refl, refl), omega arith)
  ])

  retrieve-Steps : Steps at_retrieve
  unfolding policy_step retrieve_policy
  retrieve-Steps m (complete, same, none_made) =
      rw (same, none_made) ((complete, refl, refl, refl), omega arith)

  observe-Steps : Steps at_observe
  unfolding policy_step decide_retrieval_next
  observe-Steps m (complete, same, made, given) =
      Ensures-bind NotRuntimeError (observe_policy_result m.state) _
        (Observed task (Answered.first_answer tools service task)) _
        (observe-Observed m.state same given)
        λ s (kept, a, has, e, seen).
          elim (Bool-cases (
            service_present service
            && unobserved s.retrieval_observation (λ o. o.trusted_policy_eligible)
            && unobserved s.retrieval_observation (λ o. o.infrastructure_failure)
            && not s.rewrite_completed
            && ltb s.retrieval_attempts 2)) [
              | inl again ↦
                  let low : a.trusted_policy_eligible ≡ false =
                    not-eq-true a.trusted_policy_eligible (sym seen ∙ second_and _ _ _ _ _ again) in
                  rw again (
                    (complete, kept, made, (a, has, rw made (answered complete e)), (a, e, low)),
                    omega arith,
                  )
              | inr once ↦ rw once (inl (a, has, rw made (answered complete e)), omega arith)
            ]

  rewrite-Steps : Steps at_rewrite
  unfolding policy_step route_after_rewrite
  rewrite-Steps m (complete, same, made, finished, untrusted) =
      Ensures-bind NotRuntimeError (rewrite_policy_query service m.state) _ _ _
        (rewrite-IsShort service m.state raised)
        λ s (short, kept, has). elim (Bool-cases (nonempty s.rewrite_queries)) [
          | inl some_query ↦
              rw some_query ((complete, kept ∙ same, made, untrusted, short), omega arith)
          | inr no_query ↦
              let (a, had, done) = finished in rw no_query (inl (a, has ∙ had, done), omega arith)
        ]

  multi-Steps : Steps at_multi
  unfolding policy_step retrieve_policy_multi
  multi-Steps m (complete, same, made, untrusted, short) =
      rw (same, made)
        ((complete, refl, untrusted, m.state.rewrite_queries, short, refl, refl), omega arith)

  observe_again-Steps : Steps at_observe_rewritten
  unfolding policy_step
  observe_again-Steps m (complete, same, (b, eb, low), queries, short, made, given) =
      Ensures-bind NotRuntimeError (observe_policy_result m.state) _
        (Observed task (Answered.second_answer tools service task queries)) _
        (observe-Observed m.state same given)
        λ s (kept, a, has, e, seen).
          (inl (a, has, rw made (answered_again queries complete eb low short e)), omega arith)

  reject-Finished :
      (m : PolicyMachine F)
      → Answered.Rejected tools service task m
      → Ensures NotRuntimeError
          (assess_policy m.state)
          (λ s. Answered.Finished tools service task (record m { state = s }))
  unfolding assess_policy
  reject-Finished m (same, has, made, blank, failure, why) =
      rw (has, same, why)
        (Ensures-bind NotRuntimeError (Policy.assess task (without_retrieval (some failure))) _
          (λ a. Policy.assess task (without_retrieval (some failure)) ≡ ok a) _
          (evaluated task (without_retrieval (some failure)))
          (λ a e. (a, refl, rw made (rejected blank failure e))))

  finalize-Steps : Steps at_finalize
  unfolding policy_step assess_policy
  finalize-Steps m (inl (a, has, done)) = rw has ((a, refl, done), omega arith)
  finalize-Steps m (inr refused) =
      Ensures-bind NotRuntimeError (assess_policy m.state) _
        (λ s. Answered.Finished tools service task (record m { state = s })) _
        (reject-Finished m refused) (λ s finished. (finished, omega arith))

  abbrev Ends : ℕ → PolicyPosition → Type 0
  Ends limit p =
      (m : PolicyMachine F)
      → Holds p m
      → Ensures NotRuntimeError (policy_run tools service limit p m)
          (Answered.Finished tools service task)

  abbrev EndWithin : ℕ → Type 0
  EndWithin limit = (p : PolicyPosition) → Answered.left tools service task p ≤ limit → Ends limit p

  -- A step leaves less to do.
  onward-Ends :
      (limit : ℕ) (p : PolicyPosition)
      → Answered.left tools service task p ≤ suc limit
      → EndWithin limit
      → Steps p
      → (m : PolicyMachine F) → Holds p m
      → Ensures NotRuntimeError
          (policy_step tools service p m >>= λ c. policy_run tools service limit c.0 c.1)
          (Answered.Finished tools service task)
  onward-Ends limit p le ends steps m h =
      Ensures-bind NotRuntimeError (policy_step tools service p m) _
        (Answered.Leads tools service task (Answered.left tools service task p)) _ (steps m h)
        (λ c k. ends c.0 (omega arith) c.1 k.0)

  -- Within a limit of what is left to do, the run ends, with what holds at the end.
  run-EndWithin : (limit : ℕ) → EndWithin limit
  unfolding policy_run
  run-EndWithin zero at_done le m h = h
  run-EndWithin zero at_receive le m h = absurd (omega arith)
  run-EndWithin zero at_retrieve le m h = absurd (omega arith)
  run-EndWithin zero at_observe le m h = absurd (omega arith)
  run-EndWithin zero at_rewrite le m h = absurd (omega arith)
  run-EndWithin zero at_multi le m h = absurd (omega arith)
  run-EndWithin zero at_observe_rewritten le m h = absurd (omega arith)
  run-EndWithin zero at_finalize le m h = absurd (omega arith)
  run-EndWithin (suc limit) at_done le m h = h
  run-EndWithin (suc limit) at_receive le m h =
      onward-Ends limit at_receive le (run-EndWithin limit) receive-Steps m h
  run-EndWithin (suc limit) at_retrieve le m h =
      onward-Ends limit at_retrieve le (run-EndWithin limit) retrieve-Steps m h
  run-EndWithin (suc limit) at_observe le m h =
      onward-Ends limit at_observe le (run-EndWithin limit) observe-Steps m h
  run-EndWithin (suc limit) at_rewrite le m h =
      onward-Ends limit at_rewrite le (run-EndWithin limit) rewrite-Steps m h
  run-EndWithin (suc limit) at_multi le m h =
      onward-Ends limit at_multi le (run-EndWithin limit) multi-Steps m h
  run-EndWithin (suc limit) at_observe_rewritten le m h =
      onward-Ends limit at_observe_rewritten le (run-EndWithin limit) observe_again-Steps m h
  run-EndWithin (suc limit) at_finalize le m h =
      onward-Ends limit at_finalize le (run-EndWithin limit) finalize-Steps m h

  -- Where the rewriting raises no RuntimeError, neither does `handle`: it raises no error of its own
  -- that there is no assessment and does not exhaust LangGraph's limit. What it returns is the
  -- assessment of a rejected task, without a call; or of the answer to the first call; or, where
  -- that one was assessed as not trusted, of the answer to one more call, of at most three queries,
  -- none of them blank.
  pub handle_policy-IsAnswered :
      Ensures NotRuntimeError
        (handle_policy tools service task)
        (λ c. IsAnswered tools service task c.0 c.1)
  unfolding handle_policy
  handle_policy-IsAnswered =
      Ensures-bind NotRuntimeError
        (policy_run tools service 25 at_receive (begin_policy tools service task)) _
        (Answered.Finished tools service task) _
        (run-EndWithin 25 at_receive (omega arith) (begin_policy tools service task) refl)
        (λ m (a, has, found). rw has found)
