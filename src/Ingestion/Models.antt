-- ===== src/Ingestion/Models.antt =====
-- knowledge_ingestion/models.py. A text is the list of its code points.
use ecommerce_after_sales_sy.Prelude.{
  ℕ, Char, code, String, Bool, true, false, ◌&&◌, ◌||◌, Option, none, some, List, [], ◌∷◌, ltb, leb,
  if◌then◌else◌,
}
use ecommerce_after_sales_sy.Python.Text.{is_space_code}
use ecommerce_after_sales_sy.Python.Result.{Result, ok, raise, value_error}

abbrev pub Chars : Type 0
Chars = List Char

pub record ChunkingConfig : Type 0 where
  pub target_tokens : ℕ
  pub hard_max_tokens : ℕ
  pub min_merge_tokens : ℕ
  pub hard_max_chars : ℕ

-- `ChunkingConfig.__post_init__`
unfoldable pub chunking_config : ChunkingConfig → Result ChunkingConfig
chunking_config c =
    if ltb 0 c.min_merge_tokens
      && leb c.min_merge_tokens c.target_tokens
      && leb c.target_tokens c.hard_max_tokens
    then ok c
    else raise (value_error "chunk token limits must satisfy min <= target <= hard max")

-- A page that is no positive number is rejected, so that pages are natural numbers.
pub record DocumentBlock : Type 0 where
  pub block_type : String
  pub text : Chars
  pub heading_path : List String
  pub page_start : Option ℕ
  pub page_end : Option ℕ
  pub splittable : Bool

-- `not text.strip()`
unfoldable pub is_blank : Chars → Bool
is_blank [] = true
is_blank (c ∷ cs) = is_space_code (code c) && is_blank cs

-- `(page_start is None) != (page_end is None)`, and the test of the range
abbrev pub one_page : Option ℕ → Option ℕ → Bool
one_page none none = false
one_page (some a) (some b) = false
one_page _ _ = true

abbrev pub bad_range : Option ℕ → Option ℕ → Bool
bad_range (some a) (some b) = ltb a 1 || ltb b a
bad_range _ _ = false

-- `DocumentBlock.__post_init__`
unfoldable pub document_block : DocumentBlock → Result DocumentBlock
document_block b =
    if is_blank b.text
    then raise (value_error "document block text must not be blank")
    else if one_page b.page_start b.page_end
    then raise (value_error "page range must be entirely present or absent")
    else if bad_range b.page_start b.page_end
    then raise (value_error "invalid page range")
    else ok b

pub record StructuredChunk : Type 0 where
  pub text : Chars
  pub heading_path : List String
  pub page_start : Option ℕ
  pub page_end : Option ℕ
  pub content_types : List String
  pub estimated_tokens : ℕ
