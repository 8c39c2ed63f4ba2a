-- ===== src/FormalReview/Workflow/Evaluated.antt =====
-- What the evaluators raise: a ValueError, a TypeError or an OverflowError at most.
use ecommerce_after_sales_sy.Prelude.{
  String, Option, none, some, List, [], ◌∷◌, Bool, any, not, ◌||◌, nonempty,
}
use ecommerce_after_sales_sy.Python.Value.{Value, get, is_dict}
use ecommerce_after_sales_sy.Python.Result.{
  Exn, value_error, type_error, overflow_error, Result, raise_if, ◌>>=◌, ◌>>◌,
}
use ecommerce_after_sales_sy.Python.Ensures.{
  Raises, Ensures-bind, Ensures-if, Ensures-guard, iterate_or_empty-Raises,
}
use ecommerce_after_sales_sy.Python.Runtime.{Runtime}
use ecommerce_after_sales_sy.Python.Convert.{iterate_or_empty, text_or_empty}
use ecommerce_after_sales_sy.FormalReview.Contracts.{PolicyTask, EvidenceTask, ToolResult}
use ecommerce_after_sales_sy.FormalReview.Context.{dicts}
use ecommerce_after_sales_sy.FormalReview.Evaluate.Policy
use ecommerce_after_sales_sy.FormalReview.Evaluate.Policy.{
  required_of, assess_hits, trusted_of, result_overflows,
}
use ecommerce_after_sales_sy.FormalReview.Evaluate.Hit.{hit_overflows}
use ecommerce_after_sales_sy.FormalReview.Evaluate.Evidence
use ecommerce_after_sales_sy.FormalReview.Evaluate.Evidence.{
  stripped, assess_review, review_overflows,
}

-- What follows the test on too large scores.
guarded :
    {B : Type 0} (E : Exn → Type 0) (overflow : E overflow_error) (b : Bool) (m : Result B)
    → Raises E m
    → Raises E (raise_if b overflow_error >> m)
guarded E overflow b m h = Ensures-guard E b overflow_error m (λ _. Unit) (λ _. overflow) (λ _. h)

module _ {F : Type 0} ⦃r : Runtime F⦄ (E : Exn → Type 0) (value : (t : String) → E (value_error t))
    (type : E type_error) (overflow : E overflow_error) where
  -- What follows the rounds over a value, or its stripped texts, raises no more than they do.
  each-Raises :
      {B : Type 0} (v : Value F) (f : List (Value F) → Result B)
      → ((xs : List (Value F)) → Raises E (f xs))
      → Raises E (iterate_or_empty v >>= f)
  each-Raises v f h =
      Ensures-bind E (iterate_or_empty v) f (λ _. Unit) (λ _. Unit)
        (iterate_or_empty-Raises E value type v) (λ xs _. h xs)

  stripped-Raises :
      {B : Type 0} (v : Value F) (f : List String → Result B)
      → ((xs : List String) → Raises E (f xs))
      → Raises E (stripped v >>= f)
  unfolding stripped
  stripped-Raises v f h =
      Ensures-bind E (stripped v) f (λ _. Unit) (λ _. Unit) (each-Raises v _ (λ _. tt))
        (λ xs _. h xs)

  required_of-Raises :
      (hits : List (Value F)) (known : List String) → Raises E (required_of known hits)
  unfolding required_of
  required_of-Raises [] known = tt
  required_of-Raises (hit ∷ hits) known =
      each-Raises (get "default_evidence" (get "metadata" hit)) _
        (λ given. required_of-Raises hits _)

  assess_hits-Raises :
      (task : PolicyTask) (knowledge : Value F) (hits : List (Value F))
      → Raises E (assess_hits task knowledge hits)
  unfolding assess_hits
  assess_hits-Raises task knowledge hits =
      guarded E overflow
        (any (hit_overflows task knowledge (text_or_empty (get "mode" knowledge))) hits) _
        (Ensures-bind E (required_of [] (trusted_of task knowledge hits)) _ (λ _. Unit) (λ _. Unit)
          (required_of-Raises (trusted_of task knowledge hits) [])
          (λ _ _.
            guarded E overflow (result_overflows knowledge (trusted_of task knowledge hits)) _ tt))

  pub assess_policy-Raises :
      (task : PolicyTask) (result : ToolResult F) → Raises E (Policy.assess task result)
  unfolding Policy.assess
  assess_policy-Raises task result =
      Ensures-if E (not result.ok || not (is_dict result.data_value)) _ _ (λ _. Unit) (λ _. tt)
        λ _.
          each-Raises (get "hits" result.data_value) _
            (λ hits. assess_hits-Raises task result.data_value (dicts hits))

  assess_review-Raises :
      (task : EvidenceTask F) (review : Value F) (required : List String)
      → Raises E (assess_review task review required)
  unfolding assess_review
  assess_review-Raises task review required = each-Raises (get "items" review) _ λ listed.
      guarded E overflow (review_overflows review (dicts listed)) _ (
        each-Raises (get "missing_visual_evidence" review) _ λ _.
          stripped-Raises (get "evidence_categories" review) _ λ _.
            stripped-Raises (get "observed_issue_types" review) _
              (λ _. stripped-Raises (get "verification_limitations" review) _ (λ _. tt)))

  pub assess_evidence-Raises :
      (task : EvidenceTask F) (result : Option (ToolResult F)) (required : List String)
      → Raises E (Evidence.assess task result required)
  unfolding Evidence.assess
  assess_evidence-Raises task none required = tt
  assess_evidence-Raises task (some result) required =
      Ensures-if E (not (nonempty task.attachments)) _ _ (λ _. Unit) (λ _. tt)
        λ _.
          Ensures-if E (not result.ok || not (is_dict result.data_value)) _ _ (λ _. Unit) (λ _. tt)
            (λ _. assess_review-Raises task result.data_value required)
