-- ===== src/FormalReview/Evaluate/Citation.antt =====
-- formal_review/evaluators.py: `_parse_time` and `_traceable_citations`.
use Prim.Native.String.{◌++◌ as append}
use ecommerce_after_sales_sy.Prelude.{Bool, ◌&&◌, Option, none, List, [], ◌∷◌, keep, if◌then◌else◌}
use ecommerce_after_sales_sy.Python.Text.{is_text, strip, ends_with_z, drop_last}
use ecommerce_after_sales_sy.Python.Value.{ℤ, Value, get, is_dict, is_list, items}
use ecommerce_after_sales_sy.Python.Runtime.{Runtime}
use ecommerce_after_sales_sy.Python.Convert.{or_else, text_or_empty}

module _ {F : Type 0} ⦃r : Runtime F⦄ where
  -- `_parse_time`
  unfoldable pub parse_time : Value F → Option ℤ
  unfolding strip ends_with_z drop_last
  parse_time v =
      let t = strip (text_or_empty v) in
      if is_text t
      then r.instant (if ends_with_z t then append (drop_last t) "+00:00" else t)
      else none

  -- `citations`, or the single `citation` where that is no list
  cited : Value F → List (Value F)
  cited hit =
      let one = get "citation" hit in
      if is_list (get "citations" hit)
      then items (get "citations" hit)
      else if is_dict one
      then one ∷ []
      else []

  -- The source and the chunk or document of a citation are named.
  unfoldable pub is_traceable : Value F → Bool
  unfolding strip
  is_traceable c =
      is_dict c
      && is_text (strip (text_or_empty (get "source_code" c)))
      && is_text (strip (text_or_empty (or_else (get "chunk_id" c) (get "document_id" c))))

  unfoldable pub traceable_citations : Value F → List (Value F)
  unfolding cited
  traceable_citations hit = keep is_traceable (cited hit)
