-- ===== src/Tests/Ingestion.antt =====
-- The ingestion of two paragraphs and of a table.
use ecommerce_after_sales_sy.Prelude.{
  ℕ, ◌≡◌, refl, code, true, false, ◌&&◌, ◌||◌, none, some, List, [], ◌∷◌, map, flatten, All, any,
  leb, arith,
}
use ecommerce_after_sales_sy.Python.Result.{Result, ok, raise, overflow_error}
use ecommerce_after_sales_sy.Python.Ensures.{Ensures}
use ecommerce_after_sales_sy.Ingestion.Models.{
  Chars, ChunkingConfig, DocumentBlock, StructuredChunk, is_blank, document_block,
}
use ecommerce_after_sales_sy.Ingestion.Tokens.{
  Unicode, estimate_tokens, source_units, is_cjk, count_tokens, every, source_kind, take_character,
  units_from,
}
use ecommerce_after_sales_sy.Ingestion.Split.{split_by_estimated_tokens}
use ecommerce_after_sales_sy.Ingestion.Parts.{Parts, split_round_trip}
use ecommerce_after_sales_sy.Ingestion.Lines.{split_lines_without_blank_units}
use ecommerce_after_sales_sy.Ingestion.Units.{Units, lines_round_trip}
use ecommerce_after_sales_sy.Ingestion.Pieces.{Piece, Candidate, single}
use ecommerce_after_sales_sy.Ingestion.Oversized.{
  split_oversized, split_rows, table_groups, table_row, table_pieces,
}
use ecommerce_after_sales_sy.Ingestion.Chunker.{
  combine_adjacent, combine_from, can_combine, has_compatible_context, merge_small, merge_rounds,
  select, can_merge_small,
}
use ecommerce_after_sales_sy.Ingestion.Chunk.{
  atomic_pieces, following_pieces, to_structured_chunk, validate, arrange, chunk,
}
use ecommerce_after_sales_sy.Ingestion.Merging.{pieces_of}
use ecommerce_after_sales_sy.Ingestion.Rounds.{Settled, merge_small-Settled}
use ecommerce_after_sales_sy.Ingestion.Candidates.{Coherent}
use ecommerce_after_sales_sy.Ingestion.Kept.{texts}
use ecommerce_after_sales_sy.Ingestion.Rows.{Groups, table_keeps_rows}
use ecommerce_after_sales_sy.Ingestion.Chunks.{block_texts, chunk_returns, chunk_keeps_text}
use ecommerce_after_sales_sy.Python.Value.{Value, int, pos, obj, end, field, str}
use ecommerce_after_sales_sy.Ingestion.Terms.{contains_term, trim, parts_of}
use ecommerce_after_sales_sy.Ingestion.Classify.{
  Metadata, Suggestion, allowed_metadata, ClassifyRequest, DraftChunk, chars_of, rule_suggestions,
  classify_with_model, draft_of, drafts_from, classify_chunks,
}
use ecommerce_after_sales_sy.Ingestion.Allowed.{overstates, AllChecked, classify_chunks-Checked}
use ecommerce_after_sales_sy.Tests.Demo.{demo}
use ecommerce_after_sales_sy.Ingestion.Headings.{
  Heading, enter, enter_all, Increasing, levels_increase, sibling_replaces,
}

instance abbrev ascii : Unicode
ascii = record {
  nfkc = λ s. s;
  is_alnum =
      λ c. (leb b'a' (code c) && leb (code c) b'z') || (leb b'0' (code c) && leb (code c) b'9');
  lower = λ s. s;
  casefold = λ s. s;
}

abbrev config : ChunkingConfig
config = record {
  target_tokens = 3;
  hard_max_tokens = 5;
  min_merge_tokens = 3;
  hard_max_chars = 12;
}

abbrev words : Chars
words = "a" ∷ "b" ∷ " " ∷ "c" ∷ "." ∷ []

split_round_trip_example : Parts 3 words (split_by_estimated_tokens 2 3 words)
unfolding source_units units_from take_character source_kind every estimate_tokens count_tokens
    is_cjk
split_round_trip_example =
    split_round_trip 2 3 (omega arith) words (omega arith) (refl, (refl, (refl, (refl, tt))))

abbrev lines : Chars
lines = "\n" ∷ "a" ∷ "\n" ∷ " " ∷ "\n" ∷ []

lines_round_trip_example : Units lines (split_lines_without_blank_units lines)
unfolding is_blank
lines_round_trip_example = lines_round_trip lines refl

abbrev paragraph : Chars → DocumentBlock
paragraph t = record {
  block_type = "paragraph";
  text = t;
  heading_path = "h" ∷ [];
  page_start = some 1;
  page_end = some 1;
  splittable = true;
}

abbrev piece_of : Chars → Chars → Piece
piece_of separator t = record {
  block = paragraph t;
  leading_separator = separator;
  combineable = true;
}

abbrev blocks : List DocumentBlock
blocks = paragraph words ∷ paragraph ("d" ∷ []) ∷ []

abbrev atomic : List Piece
atomic = piece_of [] words ∷ piece_of ("\n" ∷ "\n" ∷ []) ("d" ∷ []) ∷ []

abbrev small : List Candidate
small = single (piece_of [] ("a" ∷ [])) ∷ single (piece_of [] ("b" ∷ [])) ∷ []

merge_small-Settled_example : Settled config (merge_small config small)
merge_small-Settled_example = merge_small-Settled config small

split_blocks : atomic_pieces config blocks ≡ ok atomic
unfolding atomic_pieces following_pieces split_oversized estimate_tokens count_tokens is_cjk
split_blocks = refl

chunk_returns_example :
    (cs : List Candidate) × (chunk config blocks ≡ ok (map (to_structured_chunk config) cs))
    × (pieces_of cs ≡ atomic)
unfolding is_blank estimate_tokens count_tokens is_cjk flatten
chunk_returns_example =
    chunk_returns config blocks atomic (omega arith) split_blocks ((refl, refl), ((refl, refl), tt))

abbrev chunks : List StructuredChunk
chunks = map (to_structured_chunk config) (arrange config atomic)

chunked : chunk config blocks ≡ ok chunks
unfolding chunk atomic_pieces following_pieces split_oversized estimate_tokens count_tokens is_cjk
    combine_adjacent combine_from can_combine has_compatible_context merge_small merge_rounds select
    can_merge_small validate is_blank flatten
chunked = refl

chunk_keeps_text_example :
    (atomic : List Piece) × (atomic_pieces config blocks ≡ ok atomic)
    × (texts atomic ≡ block_texts config blocks)
    × (chunks ≡ map (to_structured_chunk config) (arrange config atomic))
    × (pieces_of (arrange config atomic) ≡ atomic)
    × All Coherent (arrange config atomic)
unfolding is_blank
chunk_keeps_text_example =
    chunk_keeps_text config blocks chunks ((refl, refl), ((refl, refl), tt)) chunked

abbrev table : DocumentBlock
table = record {
  block_type = "table";
  text = "h" ∷ "\n" ∷ "a" ∷ "\n" ∷ "b" ∷ "\n" ∷ [];
  heading_path = [];
  page_start = none;
  page_end = none;
  splittable = true;
}

abbrev row_piece : Chars → Piece
row_piece t = record {
  block = record {
    block_type = "table";
    text = t;
    heading_path = [];
    page_start = none;
    page_end = none;
    splittable = true;
  };
  leading_separator = [];
  combineable = false;
}

rows_split :
    split_rows config table ("h" ∷ "\n" ∷ []) (("a" ∷ "\n" ∷ []) ∷ ("b" ∷ "\n" ∷ []) ∷ [])
    ≡ ok (row_piece ("h" ∷ "\n" ∷ "a" ∷ "\n" ∷ "b" ∷ "\n" ∷ []) ∷ [])
unfolding split_rows table_groups table_row table_pieces estimate_tokens count_tokens is_cjk
    document_block is_blank
rows_split = refl

table_keeps_rows_example :
    Groups
      ("h" ∷ "\n" ∷ [])
      (flatten (("a" ∷ "\n" ∷ []) ∷ ("b" ∷ "\n" ∷ []) ∷ []))
      (map (λ p. p.block.text) (row_piece ("h" ∷ "\n" ∷ "a" ∷ "\n" ∷ "b" ∷ "\n" ∷ []) ∷ []))
table_keeps_rows_example =
    table_keeps_rows config table ("h" ∷ "\n" ∷ []) (("a" ∷ "\n" ∷ []) ∷ ("b" ∷ "\n" ∷ []) ∷ [])
      (row_piece ("h" ∷ "\n" ∷ "a" ∷ "\n" ∷ "b" ∷ "\n" ∷ []) ∷ []) rows_split

abbrev headings : List Heading
headings =
    record { level = 1; title = "A" }
    ∷ record { level = 3; title = "B" }
    ∷ record { level = 2; title = "C" }
    ∷ []

levels_increase_example : Increasing (enter_all [] headings)
unfolding Increasing
levels_increase_example = levels_increase [] headings tt

sibling_replaces_example : enter (enter headings 2 "X") 2 "Y" ≡ enter headings 2 "Y"
sibling_replaces_example = sibling_replaces headings 2 2 "Y" "X" (omega arith)

abbrev allowed : Metadata (List Chars)
allowed = record {
  product_categories = ("a" ∷ "b" ∷ []) ∷ [];
  scenes = ("x" ∷ []) ∷ [];
  intents = [];
}

abbrev classifier : ClassifyRequest → Result (Value ℕ)
classifier q = ok (obj (field "scenes" (str "y") end))

classify_chunks-Checked_example :
    Ensures
      (λ e.
        (e ≡ overflow_error)
        × (any (overstates classifier "POLICY" (allowed_metadata allowed)) chunks ≡ true))
      (classify_chunks classifier "POLICY" allowed chunks)
      (AllChecked classifier "POLICY" (allowed_metadata allowed) chunks)
classify_chunks-Checked_example = classify_chunks-Checked classifier "POLICY" allowed chunks

abbrev suggestions : Result (List (DraftChunk ℕ)) → List Suggestion
suggestions (ok ds) = map (λ d. d.suggestions.product_categories) ds
suggestions (raise e) = []

-- A confidence that is too large for a float.
abbrev boaster : ClassifyRequest → Result (Value ℕ)
boaster q = ok (obj (field "confidence" (int (pos 5000)) end))

overflows : classify_chunks boaster "POLICY" allowed chunks ≡ raise overflow_error
unfolding classify_chunks drafts_from draft_of rule_suggestions contains_term allowed_metadata trim
    parts_of chars_of estimate_tokens count_tokens is_cjk combine_adjacent combine_from can_combine
    has_compatible_context merge_small merge_rounds select can_merge_small flatten
    classify_with_model
overflows = refl

suggests :
    suggestions (classify_chunks classifier "POLICY" allowed chunks)
    ≡ some (("a" ∷ "b" ∷ []) ∷ []) ∷ []
unfolding classify_chunks drafts_from draft_of rule_suggestions contains_term allowed_metadata trim
    parts_of chars_of estimate_tokens count_tokens is_cjk combine_adjacent combine_from can_combine
    has_compatible_context merge_small merge_rounds select can_merge_small flatten
suggests = refl
