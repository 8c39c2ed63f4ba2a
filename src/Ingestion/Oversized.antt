-- ===== src/Ingestion/Oversized.antt =====
-- structured_chunker.py: `_split_table` and `_split_oversized`.
use ecommerce_after_sales_sy.Prelude.{
  ℕ, ◌-◌, str_eq, Bool, false, not, ◌&&◌, ◌||◌, List, [], ◌∷◌, ◌++◌, map, flatten, nonempty, length,
  take, drop, ltb, leb, if◌then◌else◌,
}
use ecommerce_after_sales_sy.Python.Result.{Result, ok, raise_if, value_error, ◌>>=◌, ◌>>◌}
use ecommerce_after_sales_sy.Ingestion.Models.{Chars, ChunkingConfig, DocumentBlock, document_block}
use ecommerce_after_sales_sy.Ingestion.Tokens.{Unicode, estimate_tokens}
use ecommerce_after_sales_sy.Ingestion.Split.{split_by_estimated_tokens}
use ecommerce_after_sales_sy.Ingestion.Lines.{split_lines}
use ecommerce_after_sales_sy.Ingestion.Pieces.{
  Piece, exceeds_limit, exceeds_hard_limit, with_text, piece, fallback_piece_split, smallest_units,
  pieces_for_units,
}

-- The header of a table, and what its rows have room for.
pub record Table : Type 0 where
  pub header : Chars
  pub row_token_budget : ℕ
  pub row_char_budget : ℕ

-- A group of rows behind the header; `current != header` where it has rows.
abbrev pub close_group : Table → Chars → List Chars
close_group t rows = if nonempty rows then (t.header ++ rows) ∷ [] else []

module _ (config : ChunkingConfig) ⦃u : Unicode⦄ where
  abbrev pub table_limit : ℕ
  table_limit =
      if leb config.target_tokens config.hard_max_tokens
      then config.target_tokens
      else config.hard_max_tokens

  abbrev pub is_full : Table → Chars → Chars → Bool
  is_full t rows row = nonempty rows && exceeds_limit config ((t.header ++ rows) ++ row) table_limit

  -- The rows of `current`, after the test whether the next row still fits.
  abbrev pub kept_rows : Table → Chars → Chars → Chars
  kept_rows t rows row = if is_full t rows row then [] else rows

  abbrev pub completed : Table → Chars → Chars → List Chars
  completed t rows row = if is_full t rows row then close_group t rows else []

  -- One row: the groups that it completes, and the rows of `current` behind it.
  unfoldable pub table_row : Table → Chars → Chars → Result (List Chars × Chars)
  unfolding split_by_estimated_tokens
  table_row t rows row =
      let kept = kept_rows t rows row in
      if exceeds_hard_limit config ((t.header ++ kept) ++ row)
      then (do
        parts ← split_by_estimated_tokens t.row_token_budget t.row_char_budget row
        ok (completed t rows row ++ map (λ part. t.header ++ part) parts, []))
      else ok (completed t rows row, kept ++ row)

  unfoldable pub table_groups : Table → Chars → List Chars → Result (List Chars)
  unfolding table_row
  table_groups t rows [] = ok (close_group t rows)
  table_groups t rows (row ∷ following) = do
    step ← table_row t rows row
    rest ← table_groups t step.1 following
    ok (step.0 ++ rest)

  unfoldable pub table_pieces : DocumentBlock → List Chars → Result (List Piece)
  unfolding document_block
  table_pieces b [] = ok []
  table_pieces b (group ∷ groups) = do
    block ← document_block (with_text config b "table" group)
    rest ← table_pieces b groups
    ok (piece config block false ∷ rest)

  abbrev pub table_of : Chars → Table
  table_of header = record {
    header = header;
    row_token_budget = config.hard_max_tokens - estimate_tokens header;
    row_char_budget = config.hard_max_chars - length header;
  }

  abbrev pub leaves_no_room : Chars → Bool
  leaves_no_room header =
      leb config.hard_max_tokens (estimate_tokens header)
      || leb config.hard_max_chars (length header)

  unfoldable pub split_rows : DocumentBlock → Chars → List Chars → Result (List Piece)
  unfolding table_groups table_pieces
  split_rows b header rows = do
    raise_if (leaves_no_room header) (value_error "table header leaves no room for data")
    groups ← table_groups (table_of header) [] rows
    table_pieces b groups

  -- `_split_table`
  unfoldable pub split_table : DocumentBlock → Result (List Piece)
  unfolding split_lines fallback_piece_split split_rows
  split_table b =
      let lines = split_lines b.text in
      if ltb (length lines) 3
      then fallback_piece_split config b
      else split_rows b (flatten (take 2 lines)) (drop 2 lines)

  -- `_split_oversized`
  unfoldable pub split_oversized : DocumentBlock → Result (List Piece)
  unfolding smallest_units pieces_for_units split_table
  split_oversized b =
      if not (exceeds_hard_limit config b.text)
      then ok (piece config b (not (str_eq b.block_type "table")) ∷ [])
      else if str_eq b.block_type "table"
      then split_table b
      else smallest_units config b >>= (λ units. pieces_for_units config b units)
