-- ===== src/Ingestion/Kept.antt =====
-- No text of a block is lost between its pieces.
use ecommerce_after_sales_sy.Prelude.{
  ℕ, ◌<◌, ◌≡◌, sym, ap, ◌∙◌, Bool, true, false, ◌||◌, str_eq, not, List, [], ◌∷◌, ◌++◌, map,
  map-append, flatten, flatten-append, append-nil, append_assoc, nonempty, ltb, ◌==◌, arith,
  if◌then◌else◌,
}
use ecommerce_after_sales_sy.Python.Result.{
  Result, ok, value_error, ◌>>=◌, >>=-eq-ok, ok-injective, raised, if_ok, if_raise,
}
use ecommerce_after_sales_sy.Ingestion.Models.{
  Chars, ChunkingConfig, DocumentBlock, is_blank, one_page, bad_range, document_block,
}
use ecommerce_after_sales_sy.Ingestion.Tokens.{Unicode, SourceUnit, source_units}
use ecommerce_after_sales_sy.Ingestion.Split.{
  Current, nothing, is_long, split_unit, split_units, split_by_estimated_tokens,
}
use ecommerce_after_sales_sy.Ingestion.Parts.{
  text_of, source_units-text, flush-text, split_unit-text,
}
use ecommerce_after_sales_sy.Ingestion.Lines.{split_sentences, split_lines_without_blank_units}
use ecommerce_after_sales_sy.Ingestion.Units.{NonBlank, split_sentences-text, lines_round_trip}
use ecommerce_after_sales_sy.Ingestion.Oversized.{split_oversized}
use ecommerce_after_sales_sy.Ingestion.Pieces.{
  Piece, with_text, exceeds_hard_limit, emitted_units, pieces_for_parts, smallest_units,
  pieces_for_units,
}

-- The texts of some pieces, put together.
abbrev pub texts : List Piece → Chars
texts ps = flatten (map (λ p. p.block.text) ps)

pub texts-append : (ps qs : List Piece) → texts (ps ++ qs) ≡ texts ps ++ texts qs
texts-append ps qs = ap flatten (map-append (λ p. p.block.text) ps qs) ∙ flatten-append _ _

module _ (t n : ℕ) (pos : 0 < n) where
  split_units-text :
      (c : Current) (us : List SourceUnit) (parts : List Chars)
      → split_units t n c us ≡ ok parts
      → flatten parts ≡ flatten c.units ++ text_of us
  unfolding split_units flatten
  split_units-text c [] parts h =
      ap flatten (sym (ok-injective h)) ∙ flush-text c ∙ sym (append-nil (flatten c.units))
  split_units-text c (u ∷ us) parts h =
      let s = split_unit t n c u in
      let (fits, rest) =
        raised (if is_long t n u then false else ltb t u.tokens)
          (value_error "indivisible atomic unit exceeds token limit") h in
      let (others, returned, e) = >>=-eq-ok (split_units t n s.current us) _ rest in
      ap flatten (sym (ok-injective e))
      ∙ flatten-append s.parts others
      ∙ ap (λ x. flatten s.parts ++ x) (split_units-text s.current us others returned)
      ∙ sym (append_assoc (flatten s.parts) (flatten s.current.units) (text_of us))
      ∙ ap (λ x. x ++ text_of us) (split_unit-text t n pos c u)
      ∙ append_assoc (flatten c.units) u.text (text_of us)

module _ ⦃u : Unicode⦄ where
  pub split_by_estimated_tokens-text :
      (t n : ℕ) (text : Chars) (parts : List Chars)
      → split_by_estimated_tokens t n text ≡ ok parts
      → flatten parts ≡ text
  unfolding split_by_estimated_tokens flatten
  split_by_estimated_tokens-text t n text parts h =
      let (some_t, h') = raised (t == 0) (value_error "hard_max_tokens must be positive") h in
      let (some_n, h'') = raised (n == 0) (value_error "hard_max_chars must be positive") h' in
      go text h'' (ground arith)
    where
      go :
          (x : Chars)
          → (if nonempty x then split_units t n nothing (source_units x) else ok []) ≡ ok parts
          → 0 < n
          → flatten parts ≡ x
      go [] e pos = ap flatten (sym (ok-injective e))
      go (c ∷ cs) e pos =
          split_units-text t n pos nothing (source_units (c ∷ cs)) parts e
          ∙ source_units-text (c ∷ cs)

pub document_block-eq : (b c : DocumentBlock) → document_block b ≡ ok c → b ≡ c
unfolding document_block
document_block-eq b c h = ok-injective (
    if_raise (bad_range b.page_start b.page_end) _ _
      (if_raise (one_page b.page_start b.page_end) _ _ (if_raise (is_blank b.text) _ _ h)))

module _ (config : ChunkingConfig) ⦃u : Unicode⦄ where
  pieces_for_parts-text :
      (b : DocumentBlock) (combineable : Bool) (parts : List Chars) (ps : List Piece)
      → pieces_for_parts config b combineable parts ≡ ok ps
      → texts ps ≡ flatten parts
  unfolding pieces_for_parts flatten
  pieces_for_parts-text b combineable [] ps h = ap texts (sym (ok-injective h))
  pieces_for_parts-text b combineable (part ∷ parts) ps h =
      let (text, h') =
        raised (is_blank part) (value_error "whitespace run exceeds character limit") h in
      let (block, built, h'') =
        >>=-eq-ok (document_block (with_text config b b.block_type part)) _ h' in
      let (rest, returned, e) = >>=-eq-ok (pieces_for_parts config b combineable parts) _ h'' in
      ap texts (sym (ok-injective e))
      ∙ ap (λ x. x.text ++ texts rest)
          (sym (document_block-eq (with_text config b b.block_type part) block built))
      ∙ ap (λ x. part ++ x) (pieces_for_parts-text b combineable parts rest returned)

  emitted_units-text :
      (unit : Chars) (parts : List Chars)
      → emitted_units config unit ≡ ok parts
      → flatten parts ≡ unit
  unfolding flatten
  emitted_units-text unit parts h =
      if_ok (exceeds_hard_limit config unit) _ _
        (λ long.
          split_by_estimated_tokens-text config.hard_max_tokens config.hard_max_chars unit parts)
        (λ short e. ap flatten (sym (ok-injective e)) ∙ append-nil unit) h

  pieces_for_units-text :
      (b : DocumentBlock) (units : List Chars) (ps : List Piece)
      → pieces_for_units config b units ≡ ok ps
      → texts ps ≡ flatten units
  unfolding pieces_for_units flatten
  pieces_for_units-text b [] ps h = ap texts (sym (ok-injective h))
  pieces_for_units-text b (unit ∷ units) ps h =
      let (parts, emitted, h') = >>=-eq-ok (emitted_units config unit) _ h in
      let (found, built, h'') = >>=-eq-ok (pieces_for_parts config b true parts) _ h' in
      let (rest, returned, e) = >>=-eq-ok (pieces_for_units config b units) _ h'' in
      ap texts (sym (ok-injective e))
      ∙ texts-append found rest
      ∙ ap (λ x. x ++ texts rest)
          (pieces_for_parts-text b true parts found built ∙ emitted_units-text unit parts emitted)
      ∙ ap (λ x. unit ++ x) (pieces_for_units-text b units rest returned)

  smallest_units-text :
      (b : DocumentBlock) (units : List Chars)
      → NonBlank b.text
      → smallest_units config b ≡ ok units
      → flatten units ≡ b.text
  unfolding smallest_units flatten
  smallest_units-text b units nonblank h =
      if_ok (str_eq b.block_type "paragraph" || str_eq b.block_type "quote") _ _ (λ t. sentences)
        (λ f.
          if_ok (str_eq b.block_type "list" || str_eq b.block_type "code") _ _ (λ t. lines)
            (λ f. whole))
        h
    where
      Keeps : Result (List Chars) → Type 0
      Keeps m = m ≡ ok units → flatten units ≡ b.text

      sentences : Keeps (ok (split_sentences b.text))
      sentences e = ap flatten (sym (ok-injective e)) ∙ split_sentences-text b.text

      lines : Keeps (split_lines_without_blank_units b.text)
      lines e =
          let (found, returned, text, filled) = lines_round_trip b.text nonblank in
          ap flatten (ok-injective (sym e ∙ returned)) ∙ text

      whole : Keeps (ok (b.text ∷ []))
      whole e = ap flatten (sym (ok-injective e)) ∙ append-nil b.text

  -- A block that is no table.
  abbrev pub Plain : DocumentBlock → Type 0
  Plain b = str_eq b.block_type "table" ≡ false

  pub split_oversized-text :
      (b : DocumentBlock) (ps : List Piece)
      → NonBlank b.text
      → Plain b
      → split_oversized config b ≡ ok ps
      → texts ps ≡ b.text
  unfolding split_oversized flatten
  split_oversized-text b ps nonblank plain h =
      if_ok (not (exceeds_hard_limit config b.text)) _ _
        (λ short e. ap texts (sym (ok-injective e)) ∙ append-nil b.text)
        (λ long.
          if_ok (str_eq b.block_type "table") _ _ (λ table. absurd (ground arith))
            (λ other. parted))
        h
    where
      parted :
          (smallest_units config b >>= (λ units. pieces_for_units config b units)) ≡ ok ps
          → texts ps ≡ b.text
      parted e =
          let (units, found, built) = >>=-eq-ok (smallest_units config b) _ e in
          pieces_for_units-text b units ps built ∙ smallest_units-text b units nonblank found
