-- ===== src/Rewriting/Raises.antt =====
-- What `evaluate` raises.
use ecommerce_after_sales_sy.Prelude.{
  ◌≡◌, refl, ◌⊎◌, inl, inr, Bool-cases, String, Bool, true, false, not, List, [], ◌∷◌,
  if◌then◌else◌,
}
use ecommerce_after_sales_sy.Python.Value.{
  Value, null, bool, int, float, str, arr, obj, get, is_dict, is_list,
}
use ecommerce_after_sales_sy.Python.Result.{
  Exn, Result, ok, raise, raise_if, rag_rewrite_error, overflow_error, ◌>>=◌,
}
use ecommerce_after_sales_sy.Python.Ensures.{Raises, Ensures, Ensures-bind, Ensures-if}
use ecommerce_after_sales_sy.Python.Convert.{too_large}
use ecommerce_after_sales_sy.Python.Runtime.{Runtime}
use ecommerce_after_sales_sy.Rewriting.Prompt.{RewriteLimits}
use ecommerce_after_sales_sy.Rewriting.Decision.{
  RagQueryCandidate, Question, Aspects, suffices, required_candidates, string_list,
  optional_string_list, sufficient_of, number_of, is_share, protocol_error, model_confidence,
  missing_of, read_aspects, validate_candidates, decided_queries, conclude, validate_decision,
  rewrite_payload, or_model_error, evaluate,
}

module _ (E : Exn → Type 0) (own : E rag_rewrite_error) where
  -- A chain of computations raises what its parts raise.
  chain :
      {A B : Type 0} (m : Result A) (f : A → Result B)
      → Raises E m
      → ((a : A) → Raises E (f a))
      → Raises E (m >>= f)
  chain m f h k = Ensures-bind E m f (λ _. Unit) (λ _. Unit) h (λ a t. k a)

  branch :
      {A : Type 0} (b : Bool) (m n : Result A)
      → Raises E m
      → Raises E n
      → Raises E (if b then m else n)
  branch b m n h k = Ensures-if E b m n (λ _. Unit) (λ t. h) (λ f. k)

  raise_if-Raises : (b : Bool) → Raises E (raise_if b rag_rewrite_error)
  raise_if-Raises true = own
  raise_if-Raises false = tt

  required_candidates-Raises : (cs : List RagQueryCandidate) → Raises E (required_candidates cs)
  required_candidates-Raises [] = own
  required_candidates-Raises (c ∷ cs) = tt

  module _ {F : Type 0} ⦃r : Runtime F⦄ where
    string_list-Raises : (v : Value F) → Raises E (string_list v)
    unfolding string_list
    string_list-Raises v = branch (is_list v) _ _ tt own

    optional_string_list-Raises : (v : Value F) → Raises E (optional_string_list v)
    optional_string_list-Raises null = tt
    optional_string_list-Raises (bool b) = string_list-Raises (bool b)
    optional_string_list-Raises (int n) = string_list-Raises (int n)
    optional_string_list-Raises (float x) = string_list-Raises (float x)
    optional_string_list-Raises (str s) = string_list-Raises (str s)
    optional_string_list-Raises (arr xs) = string_list-Raises (arr xs)
    optional_string_list-Raises (obj fs) = string_list-Raises (obj fs)

    sufficient_of-Raises : (v : Value F) → Raises E (sufficient_of v)
    sufficient_of-Raises (bool b) = tt
    sufficient_of-Raises null = own
    sufficient_of-Raises (int n) = own
    sufficient_of-Raises (float x) = own
    sufficient_of-Raises (str s) = own
    sufficient_of-Raises (arr xs) = own
    sufficient_of-Raises (obj fs) = own

    number_of-Raises :
        (v : Value F) → (too_large v ≡ true → E overflow_error) → Raises E (number_of v)
    number_of-Raises (int n) h = elim (Bool-cases (r.fits_float n)) [
      | inl t ↦ rw t tt
      | inr f ↦ rw f (h (rw f refl))
    ]
    number_of-Raises (float x) h = tt
    number_of-Raises null h = own
    number_of-Raises (bool b) h = own
    number_of-Raises (str s) h = own
    number_of-Raises (arr xs) h = own
    number_of-Raises (obj fs) h = own

    model_confidence-Raises :
        (v : Value F) → (too_large v ≡ true → E overflow_error) → Raises E (model_confidence v)
    model_confidence-Raises v h =
        chain (number_of v) _ (number_of-Raises v h)
          (λ x. branch (is_share x) (ok x) protocol_error tt own)

    read_aspects-Raises : (raw : Value F) → Raises E (read_aspects raw)
    unfolding read_aspects
    read_aspects-Raises raw =
        chain (string_list (get "covered_aspects" raw)) _ (string_list-Raises _) (λ covered.
          chain (string_list (missing_of raw)) _ (string_list-Raises _) (λ missing.
            chain (optional_string_list (get "case_fact_gaps" raw)) _
              (optional_string_list-Raises _)
              (λ gaps.
                chain (optional_string_list (get "out_of_scope_aspects" raw)) _
                  (optional_string_list-Raises _) (λ beyond. tt))))

    module _ (casefold : String → String) (limits : RewriteLimits) (q : Question F) where
      validate_candidates-Raises :
          (v : Value F)
          → Raises E (validate_candidates casefold limits v q.original_query q.previous_queries)
      unfolding validate_candidates
      validate_candidates-Raises v = branch (is_list v) _ _ tt own

      conclude-Raises :
          (raw : Value F) (stated : Bool) (confidence : F) (aspects : Aspects)
          → Raises E (conclude casefold limits q raw stated confidence aspects)
      unfolding conclude decided_queries
      conclude-Raises raw stated confidence aspects =
          chain (decided_queries casefold limits (suffices stated aspects) q raw) _
            (branch (suffices stated aspects) _ _ tt (
              branch q.allow_rewrite _ _
                (chain
                  (validate_candidates casefold limits (get "queries" raw) q.original_query
                    q.previous_queries)
                  required_candidates (validate_candidates-Raises _) required_candidates-Raises)
                tt))
            (λ queries. tt)

      pub validate_decision-Raises :
          (raw : Value F)
          → (too_large (get "confidence" raw) ≡ true → E overflow_error)
          → Raises E (validate_decision casefold limits q raw)
      unfolding validate_decision
      validate_decision-Raises raw h =
          chain (raise_if (not (is_dict raw)) rag_rewrite_error) _ (raise_if-Raises _) (λ done.
            chain (sufficient_of (get "sufficient" raw)) _ (sufficient_of-Raises _) (λ stated.
              chain (model_confidence (get "confidence" raw)) _ (model_confidence-Raises _ h)
                (λ confidence.
                  chain (read_aspects raw) _ (read_aspects-Raises raw)
                    (λ aspects. conclude-Raises raw stated confidence aspects))))

module _ {F : Type 0} ⦃r : Runtime F⦄ (casefold : String → String) (limits : RewriteLimits)
    (q : Question F) (llm : Value F → Result (Value F)) where
  -- The service's own error, or the OverflowError of a confidence that is an integer too large for a
  -- float.
  abbrev pub Escapes : Exn → Type 0
  Escapes e =
      (e ≡ rag_rewrite_error)
      ⊎ ((e ≡ overflow_error)
          × (raw : Value F) × (llm (rewrite_payload casefold limits q) ≡ ok raw)
          × (too_large (get "confidence" raw) ≡ true))

  answered :
      (m : Result (Value F)) → Ensures Escapes (or_model_error casefold m) (λ raw. m ≡ ok raw)
  answered (ok raw) = refl
  answered (raise e) = inl refl

  -- Whatever the model returns or raises, `evaluate` raises nothing but its own error, unless the
  -- model returned an object whose confidence is an integer beyond the range of floats: only then may
  -- the OverflowError of `float` leave it.
  pub evaluate-Raises : Raises Escapes (evaluate casefold llm limits q)
  unfolding evaluate
  evaluate-Raises =
      Ensures-bind Escapes (or_model_error casefold (llm (rewrite_payload casefold limits q))) _
        (λ raw. llm (rewrite_payload casefold limits q) ≡ ok raw) (λ _. Unit)
        (answered (llm (rewrite_payload casefold limits q)))
        λ raw returned.
          validate_decision-Raises Escapes (inl refl) casefold limits q raw
            (λ large. inr (refl, raw, returned, large))
