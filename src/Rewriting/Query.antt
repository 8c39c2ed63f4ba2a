-- ===== src/Rewriting/Query.antt =====
-- The texts of rag_query_rewrite.py: `_normalize_query`, `_clean_text` and `_valid_query`.
use ecommerce_after_sales_sy.Prelude.{
  ℕ, suc, code, String, Bool, false, not, ◌&&◌, ◌||◌, leb, if◌then◌else◌,
}
use ecommerce_after_sales_sy.Python.Text.{is_space_code, strip, has_prefix, contains, slice_to}
use ecommerce_after_sales_sy.Python.Value.{Value}
use ecommerce_after_sales_sy.Python.Runtime.{Runtime}
use ecommerce_after_sales_sy.Python.Convert.{text_or_empty}

-- `re.sub(r"\s+", " ", s)`, where a space has been written for the run before, or not.
unfoldable pub collapse : Bool → String → String
collapse spaced String.[] = String.[]
collapse spaced (String.◌∷◌ c s) =
    let space = is_space_code (code c) in
    let rest = collapse space s in
    if space then (if spaced then rest else String.◌∷◌ " " rest) else String.◌∷◌ c rest

-- `len(s)`
unfoldable pub size : String → ℕ
size String.[] = 0
size (String.◌∷◌ c s) = suc (size s)

-- `_normalize_query` of a text
unfoldable pub normalize_text : String → String
unfolding collapse strip
normalize_text s = strip (collapse false s)

module _ {F : Type 0} ⦃r : Runtime F⦄ where
  -- `_normalize_query`
  unfoldable pub normalize_query : Value F → String
  unfolding normalize_text
  normalize_query value = normalize_text (text_or_empty value)

  -- `_clean_text`
  unfoldable pub clean_text : Value F → ℕ → String
  unfolding normalize_query slice_to
  clean_text value maximum = slice_to maximum (normalize_query value)

-- `_valid_query`, where `lowered` is the query's casefold
unfoldable pub valid_query : String → String → Bool
unfolding size has_prefix contains
valid_query query lowered =
    leb 8 (size query)
    && leb (size query) 240
    && not (
        has_prefix query "{"
        || has_prefix query "["
        || contains "\"tool_name\"" lowered
        || contains "\"tool_arguments\"" lowered)
