-- ===== src/Resilience/Circuit.antt =====
-- infrastructure/resilience.py: `CircuitBreaker`. Each method holds the lock, so that what threads do
-- is a sequence of its calls.
use ecommerce_after_sales_sy.Prelude.{
  ℕ, suc, Bool, true, false, ◌||◌, Option, none, some, List, [], ◌∷◌, leb, if◌then◌else◌,
}
use ecommerce_after_sales_sy.Python.Value.{ℤ, pos, negsuc}
use ecommerce_after_sales_sy.Python.Runtime.{Runtime, less, max}

-- `max(1, n)`
unfoldable pub at_least_one : ℤ → ℕ
at_least_one (pos n) = if leb n 1 then 1 else n
at_least_one (negsuc n) = 1

pub record CircuitBreaker (F : Type 0) : Type 0 where
  pub threshold : ℕ
  pub recovery_seconds : F
  pub failures : ℕ
  pub opened_at : Option F
  pub probe_running : Bool

-- What `before_call` answers: true, or false where the other mode raises CircuitOpenError.
abbrev pub Admission : Type 0 → Type 0
Admission F = Bool × CircuitBreaker F

-- What a thread does to the breaker.
pub data Event (F : Type 0) : Type 0 where
  call : F → Event F
  succeeded : Event F
  failed : F → Event F

module _ {F : Type 0} where
  unfoldable pub success : CircuitBreaker F → CircuitBreaker F
  success b = record b { failures = 0; opened_at = none; probe_running = false }

  -- `now` is what the clock says.
  unfoldable pub failure : F → CircuitBreaker F → CircuitBreaker F
  failure now b = record b {
    probe_running = false;
    failures = suc b.failures;
    opened_at = if leb b.threshold (suc b.failures) then some now else b.opened_at;
  }

module _ {F : Type 0} ⦃r : Runtime F⦄ where
  unfoldable pub new_breaker : ℤ → F → CircuitBreaker F
  unfolding at_least_one
  new_breaker threshold seconds = record {
    threshold = at_least_one threshold;
    recovery_seconds = max r.nought seconds;
    failures = 0;
    opened_at = none;
    probe_running = false;
  }

  -- `elapsed now opened` is the difference of two readings of the clock.
  module _ (elapsed : F → F → F) where
    abbrev pub admission : F → CircuitBreaker F → Option F → Admission F
    admission now b none = (true, b)
    admission now b (some opened) =
        if less (elapsed now opened) b.recovery_seconds || b.probe_running
        then (false, b)
        else (true, record b { probe_running = true })

    unfoldable pub before_call : F → CircuitBreaker F → Admission F
    before_call now b = admission now b b.opened_at

    unfoldable pub happens : Event F → CircuitBreaker F → CircuitBreaker F
    unfolding before_call
    happens (call now) b = (before_call now b).1
    happens succeeded b = success b
    happens (failed now) b = failure now b

    unfoldable pub history : List (Event F) → CircuitBreaker F → CircuitBreaker F
    unfolding happens
    history [] b = b
    history (e ∷ es) b = history es (happens e b)
