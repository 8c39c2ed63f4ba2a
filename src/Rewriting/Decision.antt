-- ===== src/Rewriting/Decision.antt =====
-- `evaluate`, `_validate_decision` and `_validate_candidates`.
use ecommerce_after_sales_sy.Prelude.{
  ℕ, zero, suc, String, Bool, not, ◌&&◌, ◌||◌, none, some, List, [], ◌∷◌, keep, map, take, nonempty,
  ltb, is_some, if◌then◌else◌,
}
use ecommerce_after_sales_sy.Python.Text.{is_text, mem}
use ecommerce_after_sales_sy.Python.Value.{
  Value, null, bool, int, float, str, arr, obj, end, field, find, get, is_dict, is_list, items,
}
use ecommerce_after_sales_sy.Python.Result.{
  Result, ok, raise, raise_if, overflow_error, rag_rewrite_error, ◌>>=◌, ◌>>◌,
}
use ecommerce_after_sales_sy.Python.Runtime.{Runtime}
use ecommerce_after_sales_sy.Python.Convert.{items_of}
use ecommerce_after_sales_sy.Rewriting.Query.{
  normalize_text, normalize_query, clean_text, valid_query,
}
use ecommerce_after_sales_sy.Rewriting.Prompt.{
  RewriteLimits, at_least_one_of, summarize_hits, allowlisted_facts, retrieval_contract,
}

pub record RagQueryCandidate : Type 0 where
  pub query : String
  pub focus : String

pub record RagRewriteDecision (F : Type 0) : Type 0 where
  pub sufficient : Bool
  pub confidence : F
  pub covered_aspects : List String
  pub missing_aspects : List String
  pub queries : List RagQueryCandidate
  pub case_fact_gaps : List String
  pub out_of_scope_aspects : List String

-- The lists of aspects that are read from the model's object.
pub record Aspects : Type 0 where
  pub covered : List String
  pub missing : List String
  pub case_fact_gaps : List String
  pub out_of_scope : List String

-- `effective_sufficient`
abbrev pub suffices : Bool → Aspects → Bool
suffices stated a =
    not (nonempty a.missing) && (stated || nonempty a.case_fact_gaps || nonempty a.out_of_scope)

-- The arguments of `evaluate`.
pub record Question (F : Type 0) : Type 0 where
  pub user_question : String
  pub task : String
  pub known_facts : Value F
  pub original_query : String
  pub previous_queries : List String
  pub require_trusted_policy : Bool
  pub retrieval_result : Value F
  pub allow_rewrite : Bool

-- `raise RagRewriteProtocolError(...)`
abbrev pub protocol_error : {A : Type 0} → Result A
protocol_error = raise rag_rewrite_error

-- `min(3, max(1, n))`
abbrev pub at_most_three : ℕ → ℕ
at_most_three n = if ltb (at_least_one_of n) 3 then at_least_one_of n else 3

abbrev pub required_candidates : List RagQueryCandidate → Result (List RagQueryCandidate)
required_candidates [] = protocol_error
required_candidates (c ∷ cs) = ok (c ∷ cs)

-- The queries that were asked, which no new one may repeat.
unfoldable pub used_queries : (String → String) → String → List String → List String
unfolding normalize_text
used_queries casefold original_query previous_queries =
    map casefold (keep is_text (map normalize_text (original_query ∷ previous_queries)))

module _ {F : Type 0} ⦃r : Runtime F⦄ where
  -- `_string_list`
  unfoldable pub string_list : Value F → Result (List String)
  unfolding clean_text
  string_list value =
      if is_list value
      then ok (keep is_text (map (λ item. clean_text item 160) (take 8 (items value))))
      else protocol_error

  -- `_optional_string_list`
  abbrev pub optional_string_list : Value F → Result (List String)
  optional_string_list null = ok []
  optional_string_list value = string_list value

  -- `raw.get("sufficient")`, and `float(raw.get("confidence"))` where it is a number
  abbrev pub sufficient_of : Value F → Result Bool
  sufficient_of (bool b) = ok b
  sufficient_of _ = protocol_error

  abbrev pub number_of : Value F → Result F
  number_of (int n) = if r.fits_float n then ok (r.of_int n) else raise overflow_error
  number_of (float x) = ok x
  number_of _ = protocol_error

  -- `math.isfinite(x) and 0.0 <= x <= 1.0`
  abbrev pub is_share : F → Bool
  is_share x = is_some (r.trunc x) && not (r.lt x r.nought) && not (r.lt r.one x)

  abbrev pub model_confidence : Value F → Result F
  model_confidence value = do x ← number_of value; if is_share x then ok x else protocol_error

  abbrev pub missing_of : Value F → Value F
  missing_of (obj fs) = elim (find "knowledge_missing_aspects" fs) [
    | none ↦ get "missing_aspects" (obj fs)
    | some v ↦ v
  ]
  missing_of v = null

  unfoldable pub read_aspects : Value F → Result Aspects
  unfolding string_list
  read_aspects raw = do
    covered ← string_list (get "covered_aspects" raw)
    missing ← string_list (missing_of raw)
    gaps ← optional_string_list (get "case_fact_gaps" raw)
    beyond ← optional_string_list (get "out_of_scope_aspects" raw)
    ok (record {
      covered = covered;
      missing = missing;
      case_fact_gaps = gaps;
      out_of_scope = beyond;
    })

  module _ (casefold : String → String) where
    abbrev pub query_of : Value F → String
    query_of raw = normalize_query (get "query" raw)

    abbrev pub accepts : List String → Value F → Bool
    accepts used raw =
        is_dict raw
        && valid_query (query_of raw) (casefold (query_of raw))
        && not (mem (casefold (query_of raw)) used)

    abbrev pub candidate : Value F → RagQueryCandidate
    candidate raw = record { query = query_of raw; focus = clean_text (get "focus" raw) 120 }

    -- The loop of `_validate_candidates`, with room for so many candidates more.
    unfoldable pub candidates_from : ℕ → List String → List (Value F) → List RagQueryCandidate
    unfolding normalize_query clean_text valid_query mem
    candidates_from zero used raws = []
    candidates_from (suc room) used [] = []
    candidates_from (suc room) used (raw ∷ raws) =
        let fits = accepts used raw in
        let rest =
          candidates_from (if fits then room else suc room)
            (if fits then casefold (query_of raw) ∷ used else used) raws in
        if fits then candidate raw ∷ rest else rest

    -- `_validate_candidates`
    unfoldable pub validate_candidates :
        RewriteLimits → Value F → String → List String → Result (List RagQueryCandidate)
    unfolding candidates_from used_queries
    validate_candidates limits value original_query previous_queries =
        if is_list value
        then ok (
            candidates_from (at_most_three limits.max_candidates)
              (used_queries casefold original_query previous_queries) (items value))
        else protocol_error

    -- The queries of the decision.
    unfoldable pub decided_queries :
        RewriteLimits → Bool → Question F → Value F → Result (List RagQueryCandidate)
    unfolding validate_candidates
    decided_queries limits sufficient q raw =
        if sufficient
        then ok []
        else if q.allow_rewrite
        then validate_candidates limits (get "queries" raw) q.original_query q.previous_queries
          >>= required_candidates
        else ok []

    -- From the aspects to the decision.
    unfoldable pub conclude :
        RewriteLimits → Question F → Value F → Bool → F → Aspects → Result (RagRewriteDecision F)
    unfolding decided_queries
    conclude limits q raw stated confidence aspects = do
      queries ← decided_queries limits (suffices stated aspects) q raw
      ok (record {
        sufficient = suffices stated aspects;
        confidence = confidence;
        covered_aspects = aspects.covered;
        missing_aspects = aspects.missing;
        queries = queries;
        case_fact_gaps = aspects.case_fact_gaps;
        out_of_scope_aspects = aspects.out_of_scope;
      })

    -- `_validate_decision`
    unfoldable pub validate_decision :
        RewriteLimits → Question F → Value F → Result (RagRewriteDecision F)
    unfolding read_aspects conclude
    validate_decision limits q raw = do
      raise_if (not (is_dict raw)) rag_rewrite_error
      stated ← sufficient_of (get "sufficient" raw)
      confidence ← model_confidence (get "confidence" raw)
      aspects ← read_aspects raw
      conclude limits q raw stated confidence aspects

    -- The object that the model is sent.
    unfoldable pub rewrite_payload : RewriteLimits → Question F → Value F
    unfolding clean_text allowlisted_facts retrieval_contract summarize_hits
    rewrite_payload limits q = obj (
        field "user_question" (str (clean_text {F = F} (str q.user_question) 1000)) (
          field "task" (str (clean_text {F = F} (str q.task) 300)) (
            field "known_facts" (obj (allowlisted_facts q.known_facts)) (
              field "original_query" (str (clean_text {F = F} (str q.original_query) 500)) (
                field "require_trusted_policy" (bool q.require_trusted_policy) (
                  field "allow_rewrite" (bool q.allow_rewrite) (
                    field "retrieval_contract" (retrieval_contract q.retrieval_result) (
                      field "retrieval_hits"
                        (arr (items_of (summarize_hits limits q.retrieval_result))) end))))))))

    -- `except Exception`
    abbrev pub or_model_error : Result (Value F) → Result (Value F)
    or_model_error (ok raw) = ok raw
    or_model_error (raise e) = raise rag_rewrite_error

    -- `evaluate`, where `llm` is the call of the model with the fixed system prompt and schema
    unfoldable pub evaluate :
        (Value F → Result (Value F)) → RewriteLimits → Question F → Result (RagRewriteDecision F)
    unfolding rewrite_payload validate_decision
    evaluate llm limits q =
        or_model_error (llm (rewrite_payload limits q)) >>= validate_decision limits q
