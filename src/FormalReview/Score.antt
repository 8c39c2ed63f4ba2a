-- ===== src/FormalReview/Score.antt =====
-- `_score` of evaluators.py and confidence.py: a number clamped to the unit interval.
use ecommerce_after_sales_sy.Prelude.{
  ◌≡◌, refl, Bool, true, false, Option, none, some, inl, inr, Bool-cases, arith, if◌then◌else◌,
}
use ecommerce_after_sales_sy.Python.Value.{Value, float}
use ecommerce_after_sales_sy.Python.Result.{Result, ok, raise_if, overflow_error, ◌>>◌}
use ecommerce_after_sales_sy.Python.Ensures.{Ensures, Ensures-guard}
use ecommerce_after_sales_sy.Python.Runtime.{Runtime, IsOrdered, less, min, max}
use ecommerce_after_sales_sy.Python.Convert.{truthy, or_else, to_float, too_large}

module _ {F : Type 0} ⦃r : Runtime F⦄ where
  -- `max(0.0, min(x, 1.0))`
  unfoldable pub clamp : F → F
  clamp x = max r.nought (min x r.one)

  -- The value of the `try`, and 0.0 where `float` raises.
  clamp_or_nought : Option F → F
  clamp_or_nought (some x) = clamp x
  clamp_or_nought none = r.nought

  -- What `_score` returns of a value that is not too large.
  unfoldable pub score_value : Value F → F
  unfolding clamp_or_nought
  score_value v = clamp_or_nought (to_float (or_else v (float r.nought)))

  -- `_score` raises: it does not catch the OverflowError of `float`.
  abbrev pub score_overflows : Value F → Bool
  score_overflows v = too_large (or_else v (float r.nought))

  -- evaluators.py `_score`, of any value
  unfoldable pub score : Value F → Result F
  unfolding score_value
  score v = do raise_if (score_overflows v) overflow_error; ok (score_value v)

  -- confidence.py `_score`, of a float
  unfoldable pub score_float : F → F
  score_float x = clamp (if r.is_nought x then r.nought else x)

  -- Neither below 0.0 nor above 1.0.
  abbrev pub InUnit : F → Type 0
  InUnit x = (less x r.nought ≡ false) × (less r.one x ≡ false)

module _ {F : Type 0} ⦃r : Runtime F⦄ (o : IsOrdered F) where
  pub lt_irrefl : (x : F) → r.lt x x ≡ false
  lt_irrefl x = elim (Bool-cases (r.lt x x)) [ inl h ↦ o.asym x x h | inr h ↦ h ]

  pub nought-InUnit : InUnit r.nought
  nought-InUnit = (lt_irrefl r.nought, o.asym r.nought r.one o.one_pos)

  pub clamp-InUnit : (x : F) → InUnit (clamp x)
  unfolding clamp
  clamp-InUnit x = ground (
    arith,
    o.one_pos,
    o.asym r.nought r.one,
    o.asym r.nought x,
    o.asym r.one x,
    lt_irrefl r.nought,
    lt_irrefl r.one,
  )

  score_value-InUnit : (v : Value F) → InUnit (score_value v)
  unfolding score_value
  score_value-InUnit v = go (to_float (or_else v (float r.nought)))
    where
      go : (y : Option F) → InUnit (clamp_or_nought y)
      go (some x) = clamp-InUnit x
      go none = nought-InUnit

  overflows-too_large : (v : Value F) → score_overflows v ≡ true → too_large v ≡ true
  overflows-too_large v h = elim (Bool-cases (truthy v)) [
    | inl t ↦ rw t at h
    | inr f ↦ let wrong = rw f at h in ground arith
  ]

  -- Where floats are ordered, the score of any value (a text, a list, NaN) is returned and lies
  -- between 0 and 1, unless the value is an integer beyond the range of floats: for that one, and
  -- for nothing else, `_score` raises, an OverflowError.
  pub score-InUnit :
      (v : Value F)
      → Ensures
          (λ e. (e ≡ overflow_error) × (too_large v ≡ true))
          (score v)
          (λ x. InUnit x × (score_overflows v ≡ false))
  unfolding score
  score-InUnit v =
      Ensures-guard _ (score_overflows v) overflow_error (ok (score_value v)) _
        (λ t. (refl, overflows-too_large v t)) (λ f. (score_value-InUnit v, f))

  pub score_float-InUnit : (x : F) → InUnit (score_float x)
  unfolding score_float
  score_float-InUnit x = clamp-InUnit (if r.is_nought x then r.nought else x)
