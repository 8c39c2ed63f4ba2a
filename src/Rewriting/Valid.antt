-- ===== src/Rewriting/Valid.antt =====
-- What a decision promises, and what `evaluate` raises.
use mathlib.Core.Path.{subst}
use ecommerce_after_sales_sy.Prelude.{
  ℕ, zero, suc, ◌≤◌, ◌≡◌, refl, sym, ap, ◌∙◌, Bool-cases, and_split, inl, inr, String, Bool, true,
  false, not, ◌&&◌, ◌||◌, List, [], ◌∷◌, length, nonempty, ltb, arith, if◌then◌else◌,
}
use ecommerce_after_sales_sy.Python.Text.{mem}
use ecommerce_after_sales_sy.Python.Value.{Value, get, is_dict, is_list, items}
use ecommerce_after_sales_sy.Python.Result.{
  Result, ok, rag_rewrite_error, ◌>>=◌, >>=-eq-ok, ok-injective, raised, if_ok,
}
use ecommerce_after_sales_sy.Python.Runtime.{Runtime}
use ecommerce_after_sales_sy.Rewriting.Query.{valid_query}
use ecommerce_after_sales_sy.Rewriting.Prompt.{RewriteLimits, at_least_one_of}
use ecommerce_after_sales_sy.Rewriting.Decision.{
  RagQueryCandidate, RagRewriteDecision, Question, at_most_three, protocol_error,
  required_candidates, used_queries, Aspects, suffices, read_aspects, conclude, sufficient_of,
  model_confidence, query_of, accepts, candidates_from, validate_candidates, decided_queries,
  validate_decision, rewrite_payload, or_model_error, evaluate,
}

module _ (casefold : String → String) where
  -- Each query is valid, and repeats neither a used one nor one before it, whatever the case.
  pub Fresh : List String → List RagQueryCandidate → Type 0
  Fresh used [] = Unit
  Fresh used (c ∷ cs) =
      (valid_query c.query (casefold c.query) ≡ true)
      × (mem (casefold c.query) used ≡ false)
      × Fresh (casefold c.query ∷ used) cs

  three : (n : ℕ) → (if ltb n 3 then n else 3) ≤ 3
  three n = ground arith

  required :
      (found cs : List RagQueryCandidate)
      → required_candidates found ≡ ok cs
      → (found ≡ cs) × (nonempty cs ≡ true)
  required [] cs h = ground arith
  required (c ∷ found) cs h = let e = ok-injective h in (e, ap nonempty (sym e))

  refused : {A : Type 0} (x : A) → protocol_error ≡ ok x → ⊥
  refused x h = ground arith

  module _ {F : Type 0} ⦃r : Runtime F⦄ where
    accepts-split :
        (used : List String) (raw : Value F)
        → accepts casefold used raw ≡ true
        → (valid_query (query_of casefold raw) (casefold (query_of casefold raw)) ≡ true)
          × (mem (casefold (query_of casefold raw)) used ≡ false)
    accepts-split used raw h =
        let (a, new) =
          and_split
            (is_dict raw && valid_query (query_of casefold raw) (casefold (query_of casefold raw)))
            _ h in
        let (dict, valid) = and_split (is_dict raw) _ a in (valid, ground arith)

    candidates_from-Fresh :
        (room : ℕ) (used : List String) (raws : List (Value F))
        → Fresh used (candidates_from casefold room used raws)
          × (length (candidates_from casefold room used raws) ≤ room)
    unfolding candidates_from Fresh
    candidates_from-Fresh zero used raws = (tt, omega arith)
    candidates_from-Fresh (suc room) used [] = (tt, omega arith)
    candidates_from-Fresh (suc room) used (raw ∷ raws) =
        elim (Bool-cases (accepts casefold used raw)) [
          | inl fits ↦
              let (valid, new) = accepts-split used raw fits in
              let (fresh, short) =
                candidates_from-Fresh room (casefold (query_of casefold raw) ∷ used) raws in
              rw fits ((valid, new, fresh), omega arith)
          | inr unfit ↦ rw unfit (candidates_from-Fresh (suc room) used raws)
        ]

    -- What the queries are, given whether the knowledge suffices.
    abbrev pub Promised : Question F → Bool → List RagQueryCandidate → Type 0
    Promised q sufficient queries =
        (nonempty queries ≡ (not sufficient && q.allow_rewrite))
        × (length queries ≤ 3)
        × Fresh (used_queries casefold q.original_query q.previous_queries) queries

    decided_queries-Promised :
        (limits : RewriteLimits) (sufficient : Bool) (q : Question F) (raw : Value F)
        (cs : List RagQueryCandidate)
        → decided_queries casefold limits sufficient q raw ≡ ok cs
        → Promised q sufficient cs
    unfolding decided_queries validate_candidates Fresh
    decided_queries-Promised limits sufficient q raw cs h =
        if_ok sufficient _ _
          (λ enough e.
            subst (Promised q sufficient) (ok-injective e) (rw enough (refl, omega arith, tt)))
          (λ lacking.
            if_ok q.allow_rewrite _ _ (λ allowed e. asked lacking allowed e)
              (λ forbidden e.
                subst (Promised q sufficient) (ok-injective e)
                  (rw (lacking, forbidden) (refl, omega arith, tt))))
          h
      where
        used : List String
        used = used_queries casefold q.original_query q.previous_queries

        asked :
            sufficient ≡ false
            → q.allow_rewrite ≡ true
            → (validate_candidates casefold limits
                  (get "queries" raw)
                  q.original_query
                  q.previous_queries
                >>= required_candidates)
              ≡ ok cs
            → Promised q sufficient cs
        asked lacking allowed e =
            let (found, listed, e') =
              >>=-eq-ok
                (validate_candidates casefold limits (get "queries" raw) q.original_query
                  q.previous_queries)
                _ e in
            let (same, some_cs) = required found cs e' in
            let all =
              candidates_from-Fresh (at_most_three limits.max_candidates) used
                (items (get "queries" raw)) in
            if_ok (is_list (get "queries" raw)) _ _
              (λ list f.
                let now = ok-injective f ∙ same in
                (
                  some_cs ∙ (rw (lacking, allowed) refl),
                  subst (λ x. length x ≤ 3) now
                      (omega (arith, three (at_least_one_of limits.max_candidates), all.1)),
                  subst (Fresh used) now all.0,
                ))
              (λ other f. absurd (refused found f)) listed

    -- The queries are as promised, and knowledge suffices only where no aspect is missing.
    abbrev pub Sound : Question F → RagRewriteDecision F → Type 0
    Sound q d =
        Promised q d.sufficient d.queries × ((d.sufficient && nonempty d.missing_aspects) ≡ false)

    conclude-Sound :
        (limits : RewriteLimits) (q : Question F) (raw : Value F) (stated : Bool) (confidence : F)
        (aspects : Aspects) (d : RagRewriteDecision F)
        → conclude casefold limits q raw stated confidence aspects ≡ ok d
        → Sound q d
    unfolding conclude
    conclude-Sound limits q raw stated confidence aspects d h =
        let enough = suffices stated aspects in
        let (queries, found, e) = >>=-eq-ok (decided_queries casefold limits enough q raw) _ h in
        subst (Sound q) (ok-injective e) (
          decided_queries-Promised limits enough q raw queries found,
          none_missing aspects.missing
              (stated || nonempty aspects.case_fact_gaps || nonempty aspects.out_of_scope),
        )
      where
        none_missing :
            (xs : List String) (b : Bool) → ((not (nonempty xs) && b) && nonempty xs) ≡ false
        none_missing [] b = ground arith
        none_missing (x ∷ xs) b = ground arith

    -- Where the model's object is accepted, the decision has queries only if the knowledge does not
    -- suffice and rewriting is allowed, and then it has some: at most three, each of them valid, which
    -- repeat neither an earlier query nor one another, whatever their case. Knowledge suffices only
    -- where no aspect is missing.
    pub evaluate-Sound :
        (llm : Value F → Result (Value F)) (limits : RewriteLimits) (q : Question F)
        (d : RagRewriteDecision F)
        → evaluate casefold llm limits q ≡ ok d
        → Sound q d
    unfolding evaluate validate_decision
    evaluate-Sound llm limits q d h =
        let (raw, asked, h0) =
          >>=-eq-ok (or_model_error casefold (llm (rewrite_payload casefold limits q))) _ h in
        let (dict, h1) = raised (not (is_dict raw)) rag_rewrite_error h0 in
        let (stated, s, h2) = >>=-eq-ok (sufficient_of (get "sufficient" raw)) _ h1 in
        let (confidence, c, h3) = >>=-eq-ok (model_confidence (get "confidence" raw)) _ h2 in
        let (aspects, v, h4) = >>=-eq-ok (read_aspects raw) _ h3 in
        conclude-Sound limits q raw stated confidence aspects d h4
