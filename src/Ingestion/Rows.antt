-- ===== src/Ingestion/Rows.antt =====
-- The rows of a table are kept, each group of them behind the header.
use mathlib.Core.Path.{subst}
use ecommerce_after_sales_sy.Prelude.{
  ℕ, ◌≡◌, refl, sym, ap, ◌∙◌, Bool, true, false, List, [], ◌∷◌, ◌++◌, map, map-append, flatten,
  flatten-append, append-nil, append_assoc, nonempty, ltb, leb, ◌&&◌, ◌||◌, Bool-cases, inl, inr,
  length, arith, if◌then◌else◌,
}
use ecommerce_after_sales_sy.Python.Result.{ok, value_error, >>=-eq-ok, ok-injective, raised, if_ok}
use ecommerce_after_sales_sy.Ingestion.Models.{Chars, ChunkingConfig, DocumentBlock, document_block}
use ecommerce_after_sales_sy.Ingestion.Tokens.{Unicode, estimate_tokens}
use ecommerce_after_sales_sy.Ingestion.Split.{split_by_estimated_tokens}
use ecommerce_after_sales_sy.Ingestion.Pieces.{Piece, with_text, exceeds_limit, exceeds_hard_limit}
use ecommerce_after_sales_sy.Ingestion.Oversized.{
  Table, close_group, is_full, kept_rows, completed, table_limit, table_row, table_groups,
  table_pieces, table_of, leaves_no_room, split_rows,
}
use ecommerce_after_sales_sy.Ingestion.Kept.{split_by_estimated_tokens-text, document_block-eq}

-- Groups of rows behind a header.
abbrev pub Groups : Chars → Chars → List Chars → Type 0
Groups header rows groups =
    (bodies : List Chars) × (groups ≡ map (λ body. header ++ body) bodies) × (flatten bodies ≡ rows)

Groups-append :
    (header a b : Chars) (xs ys : List Chars)
    → Groups header a xs
    → Groups header b ys
    → Groups header (a ++ b) (xs ++ ys)
Groups-append header a b xs ys (p, e, f) (q, g, h) = (
  p ++ q,
  rw (e, g) (sym (map-append (λ body. header ++ body) p q)),
  flatten-append p q ∙ (rw (f, h) refl),
)

close_group-Groups : (t : Table) (rows : Chars) → Groups t.header rows (close_group t rows)
unfolding flatten
close_group-Groups t [] = ([], refl, refl)
close_group-Groups t (c ∷ cs) = ((c ∷ cs) ∷ [], refl, append-nil (c ∷ cs))

module _ (config : ChunkingConfig) ⦃u : Unicode⦄ where
  -- The groups that a row completes, and the rows that are kept, are the rows so far.
  completed-Groups :
      (t : Table) (rows row : Chars)
      → (done : Chars) × Groups t.header done (completed config t rows row)
        × (done ++ kept_rows config t rows row ≡ rows)
  completed-Groups t rows row = go (is_full config t rows row)
    where
      go :
          (full : Bool)
          → (done : Chars) × Groups t.header done (if full then close_group t rows else [])
            × (done ++ (if full then [] else rows) ≡ rows)
      go true = (rows, close_group-Groups t rows, append-nil rows)
      go false = ([], ([], refl, (unfold flatten in refl)), refl)

  within :
      (tokens chars target hard most : ℕ)
      → (ltb (if leb target hard then target else hard) tokens || ltb most chars) ≡ false
      → (ltb hard tokens || ltb most chars) ≡ true
      → ⊥
  within tokens chars target hard most short long = ground arith

  -- A row is split only where no rows are kept before it: kept rows have room for it.
  kept_rows_nil :
      (t : Table) (rows row : Chars)
      → exceeds_hard_limit config ((t.header ++ kept_rows config t rows row) ++ row) ≡ true
      → kept_rows config t rows row ≡ []
  kept_rows_nil t rows row long = elim (Bool-cases (is_full config t rows row)) [
    | inl full ↦ rw full refl
    | inr room ↦ rw room (
        alone rows room (
          subst
            (λ b. exceeds_hard_limit config ((t.header ++ (if b then [] else rows)) ++ row) ≡ true)
            room long))
  ]
    where
      alone :
          (rows : Chars)
          → (nonempty rows && exceeds_limit config ((t.header ++ rows) ++ row) (table_limit config))
            ≡ false
          → exceeds_hard_limit config ((t.header ++ rows) ++ row) ≡ true
          → rows ≡ []
      alone [] room long = refl
      alone (c ∷ cs) room long =
          let text = (t.header ++ c ∷ cs) ++ row in
          absurd (
            within (estimate_tokens text) (length text) config.target_tokens config.hard_max_tokens
              config.hard_max_chars room long)

  table_row-Groups :
      (t : Table) (rows row : Chars) (groups : List Chars) (left : Chars)
      → table_row config t rows row ≡ ok (groups, left)
      → (done : Chars) × Groups t.header done groups × (done ++ left ≡ rows ++ row)
  unfolding table_row
  table_row-Groups t rows row groups left h =
      let (done, grouped, kept) = completed-Groups t rows row in
      if_ok (exceeds_hard_limit config ((t.header ++ kept_rows config t rows row) ++ row)) _ _
        (λ long e.
          let (parts, found, returned) =
            >>=-eq-ok (split_by_estimated_tokens t.row_token_budget t.row_char_budget row) _ e in
          let pair = ok-injective returned in
          let all_done : done ≡ rows =
            sym (append-nil done)
            ∙ ap (λ x. done ++ x) (sym (kept_rows_nil t rows row long))
            ∙ kept in
          (
            done ++ row,
            subst (Groups t.header (done ++ row)) (ap (λ x. x.0) pair) (
                Groups-append t.header done row _ _ grouped (
                  parts,
                  refl,
                  split_by_estimated_tokens-text t.row_token_budget t.row_char_budget row parts
                      found,
                )),
            ap (λ x. (done ++ row) ++ x) (sym (ap (λ x. x.1) pair))
                ∙ append-nil (done ++ row)
                ∙ ap (λ x. x ++ row) all_done,
          ))
        (λ short e.
          let pair = ok-injective e in
          (
            done,
            subst (Groups t.header done) (ap (λ x. x.0) pair) grouped,
            ap (λ x. done ++ x) (sym (ap (λ x. x.1) pair))
                ∙ sym (append_assoc done _ row)
                ∙ ap (λ x. x ++ row) kept,
          ))
        h

  table_groups-Groups :
      (t : Table) (rows : Chars) (following groups : List Chars)
      → table_groups config t rows following ≡ ok groups
      → Groups t.header (rows ++ flatten following) groups
  unfolding table_groups flatten
  table_groups-Groups t rows [] groups h = subst (Groups t.header (rows ++ [])) (ok-injective h) (
      subst (λ x. Groups t.header x (close_group t rows)) (sym (append-nil rows))
        (close_group-Groups t rows))
  table_groups-Groups t rows (row ∷ following) groups h =
      let ((found, left), stepped, h') = >>=-eq-ok (table_row config t rows row) _ h in
      let (rest, returned, e) = >>=-eq-ok (table_groups config t left following) _ h' in
      let (done, grouped, split) = table_row-Groups t rows row found left stepped in
      subst (Groups t.header (rows ++ (row ++ flatten following))) (ok-injective e) (
        subst (λ x. Groups t.header x (found ++ rest))
          (sym (append_assoc done left (flatten following))
            ∙ ap (λ x. x ++ flatten following) split
            ∙ append_assoc rows row (flatten following))
          (Groups-append t.header done (left ++ flatten following) found rest grouped
            (table_groups-Groups t left following rest returned)))

  table_pieces-text :
      (b : DocumentBlock) (groups : List Chars) (ps : List Piece)
      → table_pieces config b groups ≡ ok ps
      → map (λ p. p.block.text) ps ≡ groups
  unfolding table_pieces
  table_pieces-text b [] ps h = ap (map (λ p. p.block.text)) (sym (ok-injective h))
  table_pieces-text b (group ∷ groups) ps h =
      let (block, built, h') = >>=-eq-ok (document_block (with_text config b "table" group)) _ h in
      let (rest, returned, e) = >>=-eq-ok (table_pieces config b groups) _ h' in
      ap (map (λ p. p.block.text)) (sym (ok-injective e))
      ∙ ap (λ x. x.text ∷ map (λ p. p.block.text) rest)
          (sym (document_block-eq (with_text config b "table" group) block built))
      ∙ ap (λ x. group ∷ x) (table_pieces-text b groups rest returned)

  -- Where a table's rows are split, each piece is the header with a part of the rows behind it; the
  -- parts, put together in the order of the pieces, are the rows.
  pub table_keeps_rows :
      (b : DocumentBlock) (header : Chars) (rows : List Chars) (ps : List Piece)
      → split_rows config b header rows ≡ ok ps
      → Groups header (flatten rows) (map (λ p. p.block.text) ps)
  unfolding split_rows
  table_keeps_rows b header rows ps h =
      let (room, h') =
        raised (leaves_no_room config header) (value_error "table header leaves no room for data")
          h in
      let (groups, grouped, built) =
        >>=-eq-ok (table_groups config (table_of config header) [] rows) _ h' in
      subst (Groups header (flatten rows)) (sym (table_pieces-text b groups ps built))
        (table_groups-Groups (table_of config header) [] rows groups grouped)
