-- ===== src/Tests/Rewriting.antt =====
-- The decision on an object of the model that asks for one more query.
use ecommerce_after_sales_sy.Prelude.{ℕ, ◌≡◌, refl, String, true, false, [], ◌∷◌}
use ecommerce_after_sales_sy.Python.Text.{strip, mem, contains, has_prefix, slice_to}
use ecommerce_after_sales_sy.Python.Value.{
  Value, bool, int, pos, str, arr, obj, nil, cons, end, field,
}
use ecommerce_after_sales_sy.Python.Result.{Result, ok, raise, overflow_error}
use ecommerce_after_sales_sy.Python.Ensures.{Raises}
use ecommerce_after_sales_sy.Rewriting.Query.{
  collapse, normalize_text, normalize_query, clean_text, size, valid_query,
}
use ecommerce_after_sales_sy.Rewriting.Prompt.{RewriteLimits}
use ecommerce_after_sales_sy.Rewriting.Decision.{
  RagRewriteDecision, Question, used_queries, string_list, read_aspects, candidates_from,
  validate_candidates, decided_queries, conclude, validate_decision, evaluate,
}
use ecommerce_after_sales_sy.Rewriting.Valid.{Sound, evaluate-Sound}
use ecommerce_after_sales_sy.Rewriting.Raises.{Escapes, evaluate-Raises}
use ecommerce_after_sales_sy.Tests.Demo.{demo}

abbrev same : String → String
same s = s

abbrev limits : RewriteLimits
limits = record { max_candidates = 3; max_hit_summaries = 5; max_snippet_chars = 500 }

abbrev question : Question ℕ
question = record {
  user_question = "screen broken";
  task = "answer";
  known_facts = obj end;
  original_query = "screen broken";
  previous_queries = [];
  require_trusted_policy = true;
  retrieval_result = obj end;
  allow_rewrite = true;
}

abbrev asks : String → Value ℕ
asks q = obj (field "query" (str q) (field "focus" (str "rules") end))

-- The model's object repeats the original query before a new one.
abbrev reply : Value ℕ
reply = obj (
    field "sufficient" (bool false) (
      field "confidence" (int (pos 0)) (
        field "covered_aspects" (arr nil) (
          field "knowledge_missing_aspects" (arr (cons (str "return rules") nil)) (
            field "queries"
              (arr (cons (asks "screen broken") (cons (asks "return of a  broken screen") nil)))
              end)))))

abbrev model : Value ℕ → Result (Value ℕ)
model prompt = ok reply

abbrev decision : RagRewriteDecision ℕ
decision = record {
  sufficient = false;
  confidence = 0;
  covered_aspects = [];
  missing_aspects = "return rules" ∷ [];
  queries = record { query = "return of a broken screen"; focus = "rules" } ∷ [];
  case_fact_gaps = [];
  out_of_scope_aspects = [];
}

decides : evaluate same model limits question ≡ ok decision
unfolding evaluate validate_decision read_aspects string_list conclude decided_queries
    validate_candidates candidates_from used_queries clean_text normalize_query normalize_text
    collapse strip slice_to valid_query size mem contains has_prefix
decides = refl

evaluate-Sound_example : Sound same question decision
evaluate-Sound_example = evaluate-Sound same model limits question decision decides

abbrev beyond : Value ℕ
beyond = obj (field "sufficient" (bool false) (field "confidence" (int (pos 5000)) end))

-- A confidence that is too large for a float.
abbrev boasts : Value ℕ → Result (Value ℕ)
boasts prompt = ok beyond

overflows : evaluate same boasts limits question ≡ raise overflow_error
unfolding evaluate validate_decision
overflows = refl

evaluate-Raises_example :
    Raises (Escapes same limits question boasts) (evaluate same boasts limits question)
evaluate-Raises_example = evaluate-Raises same limits question boasts
