-- ===== src/Ingestion/Chunk.antt =====
-- structured_chunker.py: `_to_structured_chunk`, `_validate` and `chunk`.
use ecommerce_after_sales_sy.Prelude.{String, List, [], ◌∷◌, ◌++◌, map}
use ecommerce_after_sales_sy.Python.Text.{dedup}
use ecommerce_after_sales_sy.Python.Result.{Result, ok, raise_if, value_error, ◌>>=◌, ◌>>◌}
use ecommerce_after_sales_sy.Ingestion.Models.{
  Chars, ChunkingConfig, DocumentBlock, StructuredChunk, is_blank,
}
use ecommerce_after_sales_sy.Ingestion.Tokens.{Unicode, estimate_tokens}
use ecommerce_after_sales_sy.Ingestion.Pieces.{
  Piece, Candidate, pieces, candidate_text, exceeds_hard_limit,
}
use ecommerce_after_sales_sy.Ingestion.Oversized.{split_oversized}
use ecommerce_after_sales_sy.Ingestion.Chunker.{page_start, page_end, combine_adjacent, merge_small}

-- `_Candidate.content_types`
unfoldable pub content_types : Candidate → List String
unfolding dedup
content_types c = dedup (map (λ p. p.block.block_type) (pieces c))

abbrev pub blank_line : Chars
blank_line = "\n" ∷ "\n" ∷ []

-- `pieces[0] = _Piece(pieces[0].block, leading_separator="\n\n", ...)`
abbrev pub set_apart : List Piece → List Piece
set_apart [] = []
set_apart (p ∷ ps) =
    record { block = p.block; leading_separator = blank_line; combineable = p.combineable } ∷ ps

module _ (config : ChunkingConfig) ⦃u : Unicode⦄ where
  -- The loop of `chunk` over the blocks, from the second one on.
  unfoldable pub following_pieces : List DocumentBlock → Result (List Piece)
  unfolding split_oversized
  following_pieces [] = ok []
  following_pieces (b ∷ blocks) = do
    found ← split_oversized config b
    rest ← following_pieces blocks
    ok (set_apart found ++ rest)

  unfoldable pub atomic_pieces : List DocumentBlock → Result (List Piece)
  unfolding following_pieces
  atomic_pieces [] = ok []
  atomic_pieces (b ∷ blocks) = do
    found ← split_oversized config b
    rest ← following_pieces blocks
    ok (found ++ rest)

  -- `_to_structured_chunk`
  abbrev pub to_structured_chunk : Candidate → StructuredChunk
  to_structured_chunk c = record {
    text = candidate_text c;
    heading_path = c.first.block.heading_path;
    page_start = page_start c;
    page_end = page_end c;
    content_types = content_types c;
    estimated_tokens = estimate_tokens (candidate_text c);
  }

  -- `_validate`
  unfoldable pub validate : List StructuredChunk → Result (Unit {0})
  unfolding is_blank
  validate [] = ok tt
  validate (c ∷ chunks) = do
    raise_if (is_blank c.text) (value_error "structured chunk text must not be blank")
    raise_if (exceeds_hard_limit config c.text) (value_error "structured chunk exceeds hard limit")
    validate chunks

  -- `combine_adjacent` and `merge_small`, one behind the other
  abbrev pub arrange : List Piece → List Candidate
  arrange atomic = merge_small config (combine_adjacent config atomic)

  unfoldable pub chunk : List DocumentBlock → Result (List StructuredChunk)
  unfolding atomic_pieces validate combine_adjacent merge_small
  chunk blocks = do
    atomic ← atomic_pieces blocks
    validate (map to_structured_chunk (arrange atomic))
    ok (map to_structured_chunk (arrange atomic))
