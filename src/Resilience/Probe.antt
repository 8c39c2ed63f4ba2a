-- ===== src/Resilience/Probe.antt =====
-- An open circuit breaker lets one probe through at a time.
use ecommerce_after_sales_sy.Prelude.{
  ◌≡◌, refl, sym, ap, ◌∙◌, Bool, true, false, ◌||◌, some, List, [], ◌∷◌, map, arith, Bool-cases,
  inl, inr,
}
use ecommerce_after_sales_sy.Python.Runtime.{Runtime, less}
use ecommerce_after_sales_sy.Resilience.Circuit.{
  CircuitBreaker, call, before_call, happens, history,
}

or_true : (a b : Bool) → b ≡ true → (a || b) ≡ true
or_true a b h = ground arith

module _ {F : Type 0} ⦃r : Runtime F⦄ (elapsed : F → F → F) where
  -- A probe runs on the open circuit.
  abbrev Probing : CircuitBreaker F → Type 0
  Probing b = (opened : F) × (b.opened_at ≡ some opened) × (b.probe_running ≡ true)

  refused : (b : CircuitBreaker F) → Probing b → (now : F) → before_call elapsed now b ≡ (false, b)
  unfolding before_call
  refused b (opened, is_open, running) now =
      rw (is_open, or_true (less (elapsed now opened) b.recovery_seconds) b.probe_running running)

  calls_change_nothing :
      (times : List F) (b : CircuitBreaker F) → Probing b → history elapsed (map call times) b ≡ b
  unfolding history happens
  calls_change_nothing [] b h = refl
  calls_change_nothing (now ∷ times) b h =
      ap (λ c. history elapsed (map call times) c.1) (refused b h now)
      ∙ calls_change_nothing times b h

  admitted-Probing :
      (now : F) (b b' : CircuitBreaker F) (opened : F)
      → b.opened_at ≡ some opened
      → before_call elapsed now b ≡ (true, b')
      → Probing b'
  unfolding before_call
  admitted-Probing now b b' opened is_open h =
      elim (Bool-cases (less (elapsed now opened) b.recovery_seconds || b.probe_running)) [
        | inl k ↦ let q = rw (is_open, k) at h in absurd cc
        | inr k ↦
            let q = rw (is_open, k) at h in
            (opened, ap (λ c. c.1.opened_at) (sym q), ap (λ c. c.1.probe_running) (sym q))
      ]

  -- Once an open circuit breaker has let a call through, it refuses every further call and stays as
  -- it is, at whatever times and in whatever number they come, as long as the probe's success or
  -- failure is not reported.
  pub one_probe :
      (now : F) (b b' : CircuitBreaker F) (opened : F)
      → b.opened_at ≡ some opened
      → before_call elapsed now b ≡ (true, b')
      → (times : List F) (later : F)
      → before_call elapsed later (history elapsed (map call times) b') ≡ (false, b')
  one_probe now b b' opened is_open h times later =
      let probing = admitted-Probing now b b' opened is_open h in
      rw (calls_change_nothing times b' probing) (refused b' probing later)
