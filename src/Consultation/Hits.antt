-- ===== src/Consultation/Hits.antt =====
-- `_citations` and `_trusted_hits`.
use ecommerce_after_sales_sy.Prelude.{
  String, Bool, false, not, ◌&&◌, ◌||◌, str_eq, List, [], ◌∷◌, ◌++◌, any, nonempty, if◌then◌else◌,
}
use ecommerce_after_sales_sy.Python.Text.{mem}
use ecommerce_after_sales_sy.Python.Value.{Value, get, is_true, is_dict}
use ecommerce_after_sales_sy.Python.Result.{Result, ok, ◌>>=◌}
use ecommerce_after_sales_sy.Python.Runtime.{Runtime}
use ecommerce_after_sales_sy.Python.Convert.{text_or_empty, iterate_or_empty}
use ecommerce_after_sales_sy.FormalReview.Evaluate.Citation.{is_traceable}

module _ {F : Type 0} ⦃r : Runtime F⦄ where
  -- The citations of one hit, added to those that are known.
  unfoldable pub add_citations : List (Value F) → List (Value F) → List (Value F)
  unfolding is_traceable
  add_citations known [] = known
  add_citations known (item ∷ items) =
      add_citations
        (if is_traceable item && not (any (r.equal item) known) then known ++ item ∷ [] else known)
        items

  unfoldable pub citations_from : List (Value F) → List (Value F) → Result (List (Value F))
  unfolding add_citations
  citations_from known [] = ok known
  citations_from known (hit ∷ hits) = do
    items ← iterate_or_empty (get "citations" hit)
    citations_from (add_citations known items) hits

  unfoldable pub citations : List (Value F) → Result (List (Value F))
  unfolding citations_from
  citations hits = citations_from [] hits

  abbrev pub mode_of : Value F → String
  mode_of knowledge = text_or_empty (get "mode" knowledge)

  -- The retrieval was strict, and its ranking may be relied on.
  unfoldable pub is_eligible_result : Value F → Bool
  unfolding mem
  is_eligible_result knowledge =
      is_true (get "trusted_policy_eligible" knowledge)
      && str_eq (text_or_empty (get "filter_level" knowledge)) "strict"
      && (is_true (get "reranker_succeeded" knowledge)
          || str_eq (mode_of knowledge) "multi_query_rrf")
      && mem (mode_of knowledge)
          ("hybrid_reranked" ∷ "pgvector" ∷ "multi_query_reranked" ∷ "multi_query_rrf" ∷ [])

  -- The tests on a hit before the one on its citations.
  abbrev pub is_strict_policy : Value F → Bool
  is_strict_policy hit =
      is_dict hit
      && str_eq (text_or_empty (get "source_type" hit)) "after_sales_policy"
      && is_true (get "trusted_policy_eligible" hit)
      && str_eq (text_or_empty (get "relaxation_level" hit)) "strict"

  abbrev pub is_trusted : Value F → Result Bool
  is_trusted hit =
      if is_strict_policy hit
      then (do found ← citations (hit ∷ []); ok (nonempty found))
      else ok false

  unfoldable pub keep_trusted : List (Value F) → Result (List (Value F))
  unfolding citations
  keep_trusted [] = ok []
  keep_trusted (hit ∷ hits) = do
    trusted ← is_trusted hit
    rest ← keep_trusted hits
    ok (if trusted then hit ∷ rest else rest)

  unfoldable pub trusted_hits : Value F → Result (List (Value F))
  unfolding is_eligible_result keep_trusted
  trusted_hits knowledge =
      if is_eligible_result knowledge
      then (do hits ← iterate_or_empty (get "hits" knowledge); keep_trusted hits)
      else ok []
