-- ===== src/Ingestion/Pieces.antt =====
-- structured_chunker.py: pieces, candidates, and `_split_oversized` with what it calls.
use ecommerce_after_sales_sy.Prelude.{
  ℕ, String, str_eq, Bool, true, false, ◌||◌, Option, List, [], ◌∷◌, ◌++◌, map, flatten, length,
  ltb, if◌then◌else◌,
}
use ecommerce_after_sales_sy.Python.Result.{Result, ok, raise_if, value_error, ◌>>=◌, ◌>>◌}
use ecommerce_after_sales_sy.Ingestion.Models.{
  Chars, ChunkingConfig, DocumentBlock, is_blank, document_block,
}
use ecommerce_after_sales_sy.Ingestion.Tokens.{Unicode, estimate_tokens}
use ecommerce_after_sales_sy.Ingestion.Split.{split_by_estimated_tokens}
use ecommerce_after_sales_sy.Ingestion.Lines.{split_sentences, split_lines_without_blank_units}

-- `_Piece`
pub record Piece : Type 0 where
  pub block : DocumentBlock
  pub leading_separator : Chars
  pub combineable : Bool

-- `_Candidate`: a sequence of pieces that is not empty.
pub record Candidate : Type 0 where
  pub first : Piece
  pub others : List Piece

abbrev pub pieces : Candidate → List Piece
pieces c = c.first ∷ c.others

abbrev pub single : Piece → Candidate
single p = record { first = p; others = [] }

-- `_Candidate(left.pieces + right.pieces)`
abbrev pub join : Candidate → Candidate → Candidate
join left right = record { first = left.first; others = left.others ++ pieces right }

abbrev pub separated : Piece → Chars
separated p = p.leading_separator ++ p.block.text

-- `_Candidate.text`
abbrev pub candidate_text : Candidate → Chars
candidate_text c = c.first.block.text ++ flatten (map separated c.others)

abbrev pub last_page : Piece → List Piece → Option ℕ
last_page p [] = p.block.page_end
last_page p (q ∷ qs) = last_page q qs

module _ (config : ChunkingConfig) ⦃u : Unicode⦄ where
  -- `_exceeds_limit`
  abbrev pub exceeds_limit : Chars → ℕ → Bool
  exceeds_limit text token_limit =
      ltb token_limit (estimate_tokens text) || ltb config.hard_max_chars (length text)

  abbrev pub exceeds_hard_limit : Chars → Bool
  exceeds_hard_limit text = exceeds_limit text config.hard_max_tokens

  abbrev pub with_text : DocumentBlock → String → Chars → DocumentBlock
  with_text b block_type text = record {
    block_type = block_type;
    text = text;
    heading_path = b.heading_path;
    page_start = b.page_start;
    page_end = b.page_end;
    splittable = b.splittable;
  }

  abbrev pub piece : DocumentBlock → Bool → Piece
  piece b combineable = record { block = b; leading_separator = []; combineable = combineable }

  -- `_pieces_for_parts`
  unfoldable pub pieces_for_parts : DocumentBlock → Bool → List Chars → Result (List Piece)
  unfolding is_blank document_block
  pieces_for_parts b combineable [] = ok []
  pieces_for_parts b combineable (part ∷ parts) = do
    raise_if (is_blank part) (value_error "whitespace run exceeds character limit")
    block ← document_block (with_text b b.block_type part)
    rest ← pieces_for_parts b combineable parts
    ok (piece block combineable ∷ rest)

  -- `_fallback_piece_split`
  unfoldable pub fallback_piece_split : DocumentBlock → Result (List Piece)
  unfolding split_by_estimated_tokens pieces_for_parts
  fallback_piece_split b = do
    parts ← split_by_estimated_tokens config.hard_max_tokens config.hard_max_chars b.text
    pieces_for_parts b false parts

  -- `_smallest_units`
  unfoldable pub smallest_units : DocumentBlock → Result (List Chars)
  unfolding split_sentences split_lines_without_blank_units
  smallest_units b =
      if str_eq b.block_type "paragraph" || str_eq b.block_type "quote"
      then ok (split_sentences b.text)
      else if str_eq b.block_type "list" || str_eq b.block_type "code"
      then split_lines_without_blank_units b.text
      else ok (b.text ∷ [])

  -- One unit, split further where it exceeds the hard limit.
  abbrev pub emitted_units : Chars → Result (List Chars)
  emitted_units unit =
      if exceeds_hard_limit unit
      then split_by_estimated_tokens config.hard_max_tokens config.hard_max_chars unit
      else ok (unit ∷ [])

  unfoldable pub pieces_for_units : DocumentBlock → List Chars → Result (List Piece)
  unfolding split_by_estimated_tokens pieces_for_parts
  pieces_for_units b [] = ok []
  pieces_for_units b (unit ∷ units) = do
    parts ← emitted_units unit
    found ← pieces_for_parts b true parts
    rest ← pieces_for_units b units
    ok (found ++ rest)
