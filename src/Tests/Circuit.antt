-- ===== src/Tests/Circuit.antt =====
-- Circuit breakers with a threshold of two failures; the clock counts ten-thousandths of a second.
use ecommerce_after_sales_sy.Prelude.{
  is_some, ℕ, ◌-◌, ◌≡◌, refl, true, false, some, List, [], ◌∷◌, map, length, leb,
}
use ecommerce_after_sales_sy.Python.Value.{pos}
use ecommerce_after_sales_sy.Resilience.Circuit.{
  at_least_one, CircuitBreaker, Event, call, succeeded, failed, new_breaker, before_call, history,
}
use ecommerce_after_sales_sy.Resilience.Consistent.{
  IsConsistent, history-IsConsistent, failures_open,
}
use ecommerce_after_sales_sy.Resilience.Probe.{one_probe}
use ecommerce_after_sales_sy.Tests.Demo.{demo}

abbrev difference : ℕ → ℕ → ℕ
difference now opened = now - opened

abbrev mixed : List (Event ℕ)
mixed = failed 1 ∷ succeeded ∷ failed 2 ∷ failed 3 ∷ call 9 ∷ []

history-IsConsistent_example : IsConsistent (history difference mixed (new_breaker (pos 2) 5))
history-IsConsistent_example = history-IsConsistent difference mixed (pos 2) 5

failures_open_example :
    is_some (history difference (map failed (1 ∷ 2 ∷ [])) (new_breaker (pos 2) 5)).opened_at
    ≡ leb (at_least_one (pos 2)) (length {A = ℕ} (1 ∷ 2 ∷ []))
failures_open_example = failures_open difference (1 ∷ 2 ∷ []) (pos 2) 5

abbrev tripped : CircuitBreaker ℕ
tripped = record {
  threshold = 2;
  recovery_seconds = 5;
  failures = 2;
  opened_at = some 3;
  probe_running = false;
}

probe_starts : before_call difference 9 tripped ≡ (true, record tripped { probe_running = true })
unfolding before_call
probe_starts = refl

one_probe_example :
    before_call difference 30
      (history difference (map call (10 ∷ 20 ∷ [])) (record tripped { probe_running = true }))
    ≡ (false, record tripped { probe_running = true })
one_probe_example =
    one_probe difference 9 tripped (record tripped { probe_running = true }) 3 refl probe_starts
      (10 ∷ 20 ∷ []) 30
