-- ===== src/Resilience/Consistent.antt =====
-- What holds of a circuit breaker after any history of calls.
use ecommerce_after_sales_sy.Prelude.{
  is_some, ℕ, suc, ◌+◌, ◌≤◌, ◌≡◌, refl, sym, ap, ◌∙◌, true, false, ◌||◌, Option, none, some, List,
  [], ◌∷◌, map, length, arith, leb, Bool-cases, inl, inr,
}
use ecommerce_after_sales_sy.Python.Value.{ℤ, pos, negsuc}
use ecommerce_after_sales_sy.Python.Runtime.{Runtime, less}
use ecommerce_after_sales_sy.Resilience.Circuit.{
  at_least_one, CircuitBreaker, Event, call, succeeded, failed, success, failure, new_breaker,
  admission, before_call, happens, history,
}

-- The circuit is open exactly when the threshold of failures is reached, and a probe runs only
-- while it is open.
pub record IsConsistent {F : Type 0} (b : CircuitBreaker F) : Type 0 where
  pub positive : 1 ≤ b.threshold
  pub opens : is_some b.opened_at ≡ leb b.threshold b.failures
  pub probes : b.probe_running ≡ true → is_some b.opened_at ≡ true

at_least_one-le : (n : ℤ) → 1 ≤ at_least_one n
unfolding at_least_one
at_least_one-le (pos n) = ground arith
at_least_one-le (negsuc n) = omega arith

above : (t n : ℕ) → 1 ≤ t → n ≤ 0 → leb t n ≡ false
above t n h k = ground arith

still : (t n : ℕ) → leb t n ≡ true → leb t (suc n) ≡ true
still t n h = ground arith

module _ {F : Type 0} where
  success-IsConsistent : (b : CircuitBreaker F) → IsConsistent b → IsConsistent (success b)
  unfolding success
  success-IsConsistent b c = record {
    positive = c.positive;
    opens = sym (above b.threshold 0 c.positive (omega arith));
    probes = λ e. absurd cc;
  }

  failure-opens :
      (now : F) (b : CircuitBreaker F)
      → IsConsistent b
      → is_some (failure now b).opened_at ≡ leb b.threshold (suc b.failures)
  unfolding failure
  failure-opens now b c = elim (Bool-cases (leb b.threshold (suc b.failures))) [
    | inl h ↦ rw h
    | inr h ↦ elim (Bool-cases (leb b.threshold b.failures)) [
      | inl k ↦ let q = still b.threshold b.failures k in absurd cc
      | inr k ↦ rw h (c.opens ∙ k)
    ]
  ]

  failure-IsConsistent :
      (now : F) (b : CircuitBreaker F) → IsConsistent b → IsConsistent (failure now b)
  failure-IsConsistent now b c = record {
    positive = unfold failure in c.positive;
    opens = failure-opens now b c ∙ unfold failure in refl;
    probes = unfold failure in λ e. absurd cc;
  }

module _ {F : Type 0} ⦃r : Runtime F⦄ (elapsed : F → F → F) where
  admission-IsConsistent :
      (now : F) (b : CircuitBreaker F) (o : Option F)
      → b.opened_at ≡ o
      → IsConsistent b
      → IsConsistent (admission elapsed now b o).1
  admission-IsConsistent now b none e c = c
  admission-IsConsistent now b (some opened) e c =
      elim (Bool-cases (less (elapsed now opened) b.recovery_seconds || b.probe_running)) [
        | inl h ↦ rw h c
        | inr h ↦
            rw h
              (record { positive = c.positive; opens = c.opens; probes = λ running. ap is_some e })
      ]

  call-IsConsistent :
      (now : F) (b : CircuitBreaker F) → IsConsistent b → IsConsistent (before_call elapsed now b).1
  unfolding before_call
  call-IsConsistent now b c = admission-IsConsistent now b b.opened_at refl c

  happens-IsConsistent :
      (e : Event F) (b : CircuitBreaker F) → IsConsistent b → IsConsistent (happens elapsed e b)
  unfolding happens
  happens-IsConsistent (call now) b c = call-IsConsistent now b c
  happens-IsConsistent succeeded b c = success-IsConsistent b c
  happens-IsConsistent (failed now) b c = failure-IsConsistent now b c

  new_breaker-IsConsistent :
      (threshold : ℤ) (seconds : F) → IsConsistent (new_breaker threshold seconds)
  unfolding new_breaker
  new_breaker-IsConsistent threshold seconds = record {
    positive = at_least_one-le threshold;
    opens = sym (above (at_least_one threshold) 0 (at_least_one-le threshold) (omega arith));
    probes = λ e. absurd cc;
  }

  keeps_history :
      (es : List (Event F)) (b : CircuitBreaker F)
      → IsConsistent b
      → IsConsistent (history elapsed es b)
  unfolding history
  keeps_history [] b c = c
  keeps_history (e ∷ es) b c = keeps_history es (happens elapsed e b) (happens-IsConsistent e b c)

  -- After any history of calls, successes and failures of a new circuit breaker, whatever threads
  -- made them, the circuit is open exactly when its count of failures reaches the
  -- threshold, which is at least 1, and a probe runs only while the circuit is open.
  pub history-IsConsistent :
      (es : List (Event F)) (threshold : ℤ) (seconds : F)
      → IsConsistent (history elapsed es (new_breaker threshold seconds))
  history-IsConsistent es threshold seconds =
      keeps_history es (new_breaker threshold seconds) (new_breaker-IsConsistent threshold seconds)

  counts :
      (times : List F) (b : CircuitBreaker F)
      → ((history elapsed (map failed times) b).failures ≡ length times + b.failures)
        × ((history elapsed (map failed times) b).threshold ≡ b.threshold)
  unfolding history happens failure
  counts [] b = (omega arith, refl)
  counts (now ∷ times) b = let (f, t) = counts times (failure now b) in (omega (arith, f), t)

  new_breaker_counts :
      (threshold : ℤ) (seconds : F)
      → ((new_breaker threshold seconds).threshold ≡ at_least_one threshold)
        × ((new_breaker threshold seconds).failures ≡ 0)
  unfolding new_breaker
  new_breaker_counts threshold seconds = (refl, refl)

  -- Failures alone open a new circuit breaker exactly when they are at least as many as the
  -- threshold, which counts as 1 where it is less.
  pub failures_open :
      (times : List F) (threshold : ℤ) (seconds : F)
      → is_some (history elapsed (map failed times) (new_breaker threshold seconds)).opened_at
        ≡ leb (at_least_one threshold) (length times)
  failures_open times threshold seconds =
      let b = new_breaker threshold seconds in
      let (f, t) = counts times b in
      let (t₀, f₀) = new_breaker_counts threshold seconds in
      let n : (history elapsed (map failed times) b).failures ≡ length times =
        omega (arith, f, f₀) in
      (history-IsConsistent (map failed times) threshold seconds).opens ∙ rw (t, n, t₀)
