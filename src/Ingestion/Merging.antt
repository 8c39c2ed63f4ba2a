-- ===== src/Ingestion/Merging.antt =====
-- What `_combine_adjacent` and `_merge_small` do with the pieces.
use ecommerce_after_sales_sy.Prelude.{
  suc, ◌≡◌, refl, ap, ◌∙◌, true, Bool-cases, inl, inr, List, [], ◌∷◌, ◌++◌, map, flatten,
  append_assoc, length, All,
}
use ecommerce_after_sales_sy.Ingestion.Models.{ChunkingConfig}
use ecommerce_after_sales_sy.Ingestion.Tokens.{Unicode}
use ecommerce_after_sales_sy.Ingestion.Pieces.{Piece, Candidate, pieces, single, join}
use ecommerce_after_sales_sy.Ingestion.Chunker.{
  can_combine, can_merge_small, combine_from, combine_adjacent,
}

-- The pieces of the candidates, in order.
abbrev pub pieces_of : List Candidate → List Piece
pieces_of cs = flatten (map pieces cs)

module _ (config : ChunkingConfig) ⦃u : Unicode⦄ where
  pub combine_from-pieces :
      (c : Candidate) (ps : List Piece) → pieces_of (combine_from config c ps) ≡ pieces c ++ ps
  unfolding combine_from flatten
  combine_from-pieces c [] = refl
  combine_from-pieces c (p ∷ ps) = elim (Bool-cases (can_combine config c (single p))) [
    | inl h ↦
        rw h (combine_from-pieces (join c (single p)) ps ∙ append_assoc (pieces c) (p ∷ []) ps)
    | inr h ↦ rw h (ap (λ t. pieces c ++ t) (combine_from-pieces (single p) ps))
  ]

  pub combine_adjacent-pieces : (ps : List Piece) → pieces_of (combine_adjacent config ps) ≡ ps
  unfolding combine_adjacent flatten
  combine_adjacent-pieces [] = refl
  combine_adjacent-pieces (p ∷ ps) = combine_from-pieces (single p) ps

  -- Two candidates next to each other, which can be merged, are replaced by their union.
  pub data Step : List Candidate → List Candidate → Type 0 where
    here :
        (l r : Candidate) (cs : List Candidate)
        → can_merge_small config l r ≡ true
        → Step (l ∷ r ∷ cs) (join l r ∷ cs)
    further : (c : Candidate) (xs ys : List Candidate) → Step xs ys → Step (c ∷ xs) (c ∷ ys)

  pub Step-pieces : (xs ys : List Candidate) → Step xs ys → pieces_of ys ≡ pieces_of xs
  unfolding flatten
  Step-pieces _ _ (here l r cs h) = append_assoc (pieces l) (pieces r) (pieces_of cs)
  Step-pieces _ _ (further c xs ys s) = ap (λ t. pieces c ++ t) (Step-pieces xs ys s)

  pub Step-length : (xs ys : List Candidate) → Step xs ys → length xs ≡ suc (length ys)
  Step-length _ _ (here l r cs h) = refl
  Step-length _ _ (further c xs ys s) = ap suc (Step-length xs ys s)

  -- Where the union of two candidates that can be merged has a property, the property stays.
  abbrev pub Joins : (Candidate → Type 0) → Type 0
  Joins P = (l r : Candidate) → can_merge_small config l r ≡ true → P l → P r → P (join l r)

  pub Step-All :
      (P : Candidate → Type 0) (j : Joins P) (xs ys : List Candidate)
      → Step xs ys
      → All P xs
      → All P ys
  Step-All P j _ _ (here l r cs h) (a, (b, all)) = (j l r h a b, all)
  Step-All P j _ _ (further c xs ys s) (a, all) = (a, Step-All P j xs ys s all)
