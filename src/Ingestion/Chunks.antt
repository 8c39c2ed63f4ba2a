-- ===== src/Ingestion/Chunks.antt =====
-- What `chunk` returns for the blocks of a document.
use ecommerce_after_sales_sy.Prelude.{
  ◌≤◌, ◌≡◌, refl, sym, ap, ◌∙◌, List, [], ◌∷◌, ◌++◌, map, flatten, All, length,
}
use ecommerce_after_sales_sy.Python.Result.{ok, >>=-eq-ok, ok-injective}
use ecommerce_after_sales_sy.Ingestion.Models.{
  Chars, ChunkingConfig, DocumentBlock, StructuredChunk,
}
use ecommerce_after_sales_sy.Ingestion.Tokens.{Unicode}
use ecommerce_after_sales_sy.Ingestion.Units.{NonBlank}
use ecommerce_after_sales_sy.Ingestion.Pieces.{Piece, Candidate, single}
use ecommerce_after_sales_sy.Ingestion.Oversized.{split_oversized}
use ecommerce_after_sales_sy.Ingestion.Chunker.{combine_adjacent, merge_small}
use ecommerce_after_sales_sy.Ingestion.Chunk.{
  set_apart, following_pieces, atomic_pieces, to_structured_chunk, validate, arrange, chunk,
}
use ecommerce_after_sales_sy.Ingestion.Merging.{pieces_of, combine_adjacent-pieces}
use ecommerce_after_sales_sy.Ingestion.Rounds.{merge_rounds-pieces}
use ecommerce_after_sales_sy.Ingestion.Candidates.{Coherent, arrange-Coherent, Valid, arrange-Valid}
use ecommerce_after_sales_sy.Ingestion.Kept.{texts, texts-append, Plain, split_oversized-text}

module _ (config : ChunkingConfig) ⦃u : Unicode⦄ where
  -- The pieces of the candidates are the atomic pieces, in their order.
  arrange-pieces : (atomic : List Piece) → pieces_of (arrange config atomic) ≡ atomic
  unfolding merge_small
  arrange-pieces atomic =
      merge_rounds-pieces config (length (combine_adjacent config atomic))
        (combine_adjacent config atomic)
      ∙ combine_adjacent-pieces config atomic

  validate-Valid :
      (cs : List Candidate)
      → All (Valid config) cs
      → validate config (map (to_structured_chunk config) cs) ≡ ok tt
  unfolding validate
  validate-Valid [] all = refl
  validate-Valid (c ∷ cs) ((text, fits), all) = rw (text, fits) (validate-Valid cs all)

  -- Where the blocks are split into atomic pieces that are not blank and are within the hard limits,
  -- and the target is at most the hard limit of tokens, chunking returns: neither combining nor
  -- merging makes a chunk that the validation refuses, and no piece is lost, doubled or moved.
  pub chunk_returns :
      (blocks : List DocumentBlock) (atomic : List Piece)
      → config.target_tokens ≤ config.hard_max_tokens
      → atomic_pieces config blocks ≡ ok atomic
      → All (λ p. Valid config (single p)) atomic
      → (cs : List Candidate) × (chunk config blocks ≡ ok (map (to_structured_chunk config) cs))
        × (pieces_of cs ≡ atomic)
  unfolding chunk
  chunk_returns blocks atomic le split all = (
    arrange config atomic,
    rw (split, validate-Valid (arrange config atomic) (arrange-Valid config le atomic all)) refl,
    arrange-pieces atomic,
  )

  set_apart-texts : (ps : List Piece) → texts (set_apart ps) ≡ texts ps
  set_apart-texts [] = refl
  set_apart-texts (p ∷ ps) = refl

  -- The texts of the blocks, put together.
  abbrev pub block_texts : List DocumentBlock → Chars
  block_texts bs = flatten (map (λ b. b.text) bs)

  -- A block that is no table, and not blank, which its constructor sees to.
  abbrev pub Prose : DocumentBlock → Type 0
  Prose b = NonBlank b.text × Plain config b

  following_pieces-texts :
      (blocks : List DocumentBlock) (ps : List Piece)
      → All Prose blocks
      → following_pieces config blocks ≡ ok ps
      → texts ps ≡ block_texts blocks
  unfolding following_pieces flatten
  following_pieces-texts [] ps all h = ap texts (sym (ok-injective h))
  following_pieces-texts (b ∷ blocks) ps ((text, plain), all) h =
      let (found, split, h') = >>=-eq-ok (split_oversized config b) _ h in
      let (rest, returned, e) = >>=-eq-ok (following_pieces config blocks) _ h' in
      ap texts (sym (ok-injective e))
      ∙ texts-append (set_apart found) rest
      ∙ ap (λ x. x ++ texts rest)
          (set_apart-texts found ∙ split_oversized-text config b found text plain split)
      ∙ ap (λ x. b.text ++ x) (following_pieces-texts blocks rest all returned)

  atomic_pieces-texts :
      (blocks : List DocumentBlock) (ps : List Piece)
      → All Prose blocks
      → atomic_pieces config blocks ≡ ok ps
      → texts ps ≡ block_texts blocks
  unfolding atomic_pieces flatten
  atomic_pieces-texts [] ps all h = ap texts (sym (ok-injective h))
  atomic_pieces-texts (b ∷ blocks) ps ((text, plain), all) h =
      let (found, split, h') = >>=-eq-ok (split_oversized config b) _ h in
      let (rest, returned, e) = >>=-eq-ok (following_pieces config blocks) _ h' in
      ap texts (sym (ok-injective e))
      ∙ texts-append found rest
      ∙ ap (λ x. x ++ texts rest) (split_oversized-text config b found text plain split)
      ∙ ap (λ x. b.text ++ x) (following_pieces-texts blocks rest all returned)

  -- Where chunking returns for blocks that are not blank and no tables, the atomic pieces that the
  -- blocks are split into, put together without their separators, are the text of the blocks; the
  -- chunks are those of the candidates that these pieces are arranged in, without losing, doubling or
  -- moving one; and a candidate of several pieces has only pieces that may be combined, all under its
  -- heading path.
  pub chunk_keeps_text :
      (blocks : List DocumentBlock) (chunks : List StructuredChunk)
      → All Prose blocks
      → chunk config blocks ≡ ok chunks
      → (atomic : List Piece) × (atomic_pieces config blocks ≡ ok atomic)
        × (texts atomic ≡ block_texts blocks)
        × (chunks ≡ map (to_structured_chunk config) (arrange config atomic))
        × (pieces_of (arrange config atomic) ≡ atomic)
        × All Coherent (arrange config atomic)
  unfolding chunk
  chunk_keeps_text blocks chunks prose h =
      let (atomic, split, h') = >>=-eq-ok (atomic_pieces config blocks) _ h in
      let (validated, valid, e) =
        >>=-eq-ok (validate config (map (to_structured_chunk config) (arrange config atomic))) _
          h' in
      (
        atomic,
        split,
        atomic_pieces-texts blocks atomic prose split,
        sym (ok-injective e),
        arrange-pieces atomic,
        arrange-Coherent config atomic,
      )
