-- ===== src/FormalReview/Graph/Progress.antt =====
-- A review attempt ends: between two passes of `prepare_resumed_attempt` the graph makes at most
-- nine supersteps.
use ecommerce_after_sales_sy.Prelude.{
  ℕ, zero, suc, ◌≤◌, ◌<◌, ◌≡◌, ◌≢◌, refl, ap, ◌∙◌, inl, inr, ◌⊎◌, true, false, arith, Bool-cases,
}
use ecommerce_after_sales_sy.Python.Result.{Exn, Result-cases, ok, raise}
use mathlib.Core.Path.{subst}
use ecommerce_after_sales_sy.Python.Runtime.{Runtime}
use ecommerce_after_sales_sy.FormalReview.Graph.State.{Collaborators, Settings, Machine}
use ecommerce_after_sales_sy.FormalReview.Graph.Run.{
  Position, at_context, at_inputs, at_plan, at_specialists, at_synthesis, at_gate, at_submit,
  at_request, at_await, at_newer, at_prepare, at_manual, at_end, is_resting, step, run,
}
use ecommerce_after_sales_sy.FormalReview.Graph.Rank.{rank, step-Falls}

module _ {F : Type 0} ⦃r : Runtime F⦄ (env : Collaborators F) (cfg : Settings F) where
  -- A chain of supersteps.
  pub data Trace : Position → Machine F → Position → Machine F → Type 0 where
    here : {p : Position} {m : Machine F} → Trace p m p m
    onward :
        {p p' q : Position} {m m' n : Machine F}
        → step env cfg p m ≡ ok (p', m')
        → Trace p' m' q n
        → Trace p m q n

  -- It rests at an interrupt or at END.
  abbrev pub Rests : ℕ → Position → Machine F → Type 0
  Rests limit p m =
      (c : Position × Machine F) × (run env cfg limit p m ≡ ok c) × (is_resting c.0 ≡ true)

  -- A node that is reached raises an exception, and that is what the run raises.
  abbrev pub Fails : ℕ → Position → Machine F → Type 0
  Fails limit p m =
      (q : Position) × (n : Machine F) × (e : Exn) × Trace p m q n
      × (is_resting q ≡ false)
      × (step env cfg q n ≡ raise e)
      × (run env cfg limit p m ≡ raise e)

  -- `prepare_resumed_attempt` is reached, where a new attempt begins.
  abbrev pub StartsAnew : Position → Machine F → Type 0
  StartsAnew p m = (n : Machine F) × Trace p m at_prepare n

  unranked : (p : Position) → rank p ≤ 0 → is_resting p ≡ true
  unranked at_await h = refl
  unranked at_newer h = refl
  unranked at_end h = refl
  unranked at_context h = absurd (omega arith)
  unranked at_inputs h = absurd (omega arith)
  unranked at_plan h = absurd (omega arith)
  unranked at_specialists h = absurd (omega arith)
  unranked at_synthesis h = absurd (omega arith)
  unranked at_gate h = absurd (omega arith)
  unranked at_submit h = absurd (omega arith)
  unranked at_request h = absurd (omega arith)
  unranked at_manual h = absurd (omega arith)
  unranked at_prepare h = absurd (omega arith)

  -- What follows a node is not the highest position.
  ranked : (p p' : Position) → rank p ≤ 9 → rank p' < rank p → p' ≢ at_prepare
  ranked p p' h less e = omega (arith, ap rank e)

  rank_le : (p : Position) → rank p ≤ 9
  rank_le at_context = omega arith
  rank_le at_prepare = omega arith
  rank_le at_inputs = omega arith
  rank_le at_plan = omega arith
  rank_le at_specialists = omega arith
  rank_le at_synthesis = omega arith
  rank_le at_gate = omega arith
  rank_le at_request = omega arith
  rank_le at_submit = omega arith
  rank_le at_manual = omega arith
  rank_le at_await = omega arith
  rank_le at_newer = omega arith
  rank_le at_end = omega arith

  abbrev pub Ends : ℕ → Position → Machine F → Type 0
  Ends limit p m = Rests limit p m ⊎ Fails limit p m ⊎ StartsAnew p m

  run-raise :
      (limit : ℕ) (p : Position) (m : Machine F) {e : Exn}
      → is_resting p ≡ false
      → step env cfg p m ≡ raise e
      → run env cfg (suc limit) p m ≡ raise e
  unfolding run
  run-raise limit p m k h = rw (k, h)

  run-step :
      (limit : ℕ) (p : Position) (m : Machine F) {c : Position × Machine F}
      → is_resting p ≡ false
      → step env cfg p m ≡ ok c
      → run env cfg (suc limit) p m ≡ run env cfg limit c.0 c.1
  unfolding run
  run-step limit p m k h = rw (k, h)

  -- One more superstep in front.
  prepend :
      (limit : ℕ) (p p' : Position) (m m' : Machine F)
      → is_resting p ≡ false
      → step env cfg p m ≡ ok (p', m')
      → Ends limit p' m'
      → Ends (suc limit) p m
  prepend limit p p' m m' k h (inl (c, e, rests)) = inl (c, run-step limit p m k h ∙ e, rests)
  prepend limit p p' m m' k h (inr (inl (q, n, x, t, b, e, f))) =
      inr (inl (q, n, x, onward h t, b, e, run-step limit p m k h ∙ f))
  prepend limit p p' m m' k h (inr (inr (n, t))) = inr (inr (n, onward h t))

  -- From any node but `prepare_resumed_attempt`, a limit of the node's rank (at most 8 supersteps)
  -- is enough: the run rests at an interrupt or at END, or raises what a node on its way raised,
  -- or the graph enters `prepare_resumed_attempt`, where a new attempt begins.
  pub attempt-Ends :
      (limit : ℕ) (p : Position) (m : Machine F) → p ≢ at_prepare → rank p ≤ limit → Ends limit p m
  attempt-Ends zero p m ne h = inl ((p, m), unfold run in rw (unranked p h), unranked p h)
  attempt-Ends (suc limit) p m ne h = elim (Bool-cases (is_resting p)) [
    | inl k ↦ inl ((p, m), unfold run in rw k, k)
    | inr k ↦ elim (Result-cases (step env cfg p m)) [
      | inr (e, q) ↦ inr (inl (p, m, e, here, k, q, run-raise limit p m k q))
      | inl ((p', m'), q) ↦ elim (step-Falls env cfg p m ne q) [
        | inl anew ↦ inr (inr (m', subst (λ x. Trace p m x m') anew (onward q here)))
        | inr less ↦
            prepend limit p p' m m' k q
              (attempt-Ends limit p' m' (ranked p p' (rank_le p) less) (omega arith))
      ]
    ]
  ]
