-- ===== src/Ingestion/Candidates.antt =====
-- What holds of the pieces of a candidate, and of its text.
use ecommerce_after_sales_sy.Prelude.{
  ℕ, ◌≤◌, ◌≡◌, refl, sym, ap, ◌∙◌, String, eq_iff, str_eq, Bool, true, false, Bool-cases, and_split,
  ◌⊎◌, inl, inr, ◌&&◌, ◌||◌, not, List, [], ◌∷◌, ◌++◌, map, map-append, flatten, flatten-append,
  append_assoc, All, All-append, length, ltb, arith,
}
use mathlib.Core.Path.{subst}
use ecommerce_after_sales_sy.Ingestion.Models.{ChunkingConfig}
use ecommerce_after_sales_sy.Ingestion.Tokens.{Unicode}
use ecommerce_after_sales_sy.Ingestion.Units.{NonBlank, NonBlank-append}
use ecommerce_after_sales_sy.Ingestion.Pieces.{
  Piece, Candidate, pieces, single, join, separated, candidate_text, exceeds_limit,
  exceeds_hard_limit,
}
use ecommerce_after_sales_sy.Ingestion.Chunker.{
  same_path, stands_alone, has_compatible_context, can_combine, can_merge_small, combine_from,
  combine_adjacent, merge_small,
}
use ecommerce_after_sales_sy.Ingestion.Chunk.{arrange}
use ecommerce_after_sales_sy.Ingestion.Merging.{Joins}
use ecommerce_after_sales_sy.Ingestion.Rounds.{merge_rounds-All}

same_path-eq : (p q : List String) → same_path p q ≡ true → p ≡ q
same_path-eq [] [] h = refl
same_path-eq [] (b ∷ q) h = ground arith
same_path-eq (a ∷ p) [] h = ground arith
same_path-eq (a ∷ p) (b ∷ q) h =
    let (head, tail) = and_split (str_eq a b) (same_path p q) h in
    let first : a ≡ b = (eq_iff a b).0 head in let others : p ≡ q = same_path-eq p q tail in cc

join-text :
    (l r : Candidate)
    → candidate_text (join l r) ≡ candidate_text l ++ flatten (map separated (pieces r))
join-text l r =
    ap (λ t. l.first.block.text ++ flatten t) (map-append separated l.others (pieces r))
    ∙ ap (λ t. l.first.block.text ++ t) (flatten-append (map separated l.others) _)
    ∙ sym (append_assoc l.first.block.text (flatten (map separated l.others)) _)

-- A piece that stays with others may be combined, and has their heading path.
abbrev pub Belongs : List String → Piece → Type 0
Belongs path p = (p.combineable ≡ true) × (p.block.heading_path ≡ path)

-- The candidate is one piece, or its pieces belong together.
abbrev pub Coherent : Candidate → Type 0
Coherent c = (c.others ≡ []) ⊎ All (Belongs c.first.block.heading_path) (pieces c)

compatible :
    (l r : Candidate)
    → has_compatible_context l r ≡ true
    → (stands_alone l ≡ false)
      × (stands_alone r ≡ false)
      × (l.first.block.heading_path ≡ r.first.block.heading_path)
unfolding has_compatible_context
compatible l r h =
    let (context, pages) =
      and_split
        (not (stands_alone l || stands_alone r)
          && same_path l.first.block.heading_path r.first.block.heading_path)
        _ h in
    let (alone, path) = and_split (not (stands_alone l || stands_alone r)) _ context in
    (ground arith, ground arith, same_path-eq _ _ path)

together :
    (c : Candidate) (path : List String)
    → stands_alone c ≡ false
    → path ≡ c.first.block.heading_path
    → Coherent c
    → All (Belongs path) (pieces c)
together c path alone e (inl one) = ((ground arith, sym e), subst (All (Belongs path)) (sym one) tt)
together c path alone e (inr all) = subst (λ x. All (Belongs x) (pieces c)) (sym e) all

join-Coherent :
    (l r : Candidate)
    → has_compatible_context l r ≡ true
    → Coherent l
    → Coherent r
    → Coherent (join l r)
join-Coherent l r h a b =
    let (left, right, path) = compatible l r h in
    inr (
      All-append (Belongs l.first.block.heading_path) (pieces l) (pieces r)
        (together l _ left refl a) (together r _ right path b))

module _ (config : ChunkingConfig) ⦃u : Unicode⦄ where
  -- Where combining and merging keep a property, all the candidates have it.
  combine_from-All :
      (P : Candidate → Type 0)
      (j : (l r : Candidate) → can_combine config l r ≡ true → P l → P r → P (join l r))
      (c : Candidate) (ps : List Piece)
      → P c
      → All (λ p. P (single p)) ps
      → All P (combine_from config c ps)
  unfolding combine_from
  combine_from-All P j c [] h all = (h, tt)
  combine_from-All P j c (p ∷ ps) h (a, all) = elim (Bool-cases (can_combine config c (single p))) [
    | inl can ↦ rw can (combine_from-All P j (join c (single p)) ps (j c (single p) can h a) all)
    | inr alone ↦ rw alone (h, combine_from-All P j (single p) ps a all)
  ]

  arrange-All :
      (P : Candidate → Type 0)
      (j : (l r : Candidate) → can_combine config l r ≡ true → P l → P r → P (join l r))
      (k : Joins config P) (atomic : List Piece)
      → All (λ p. P (single p)) atomic
      → All P (arrange config atomic)
  unfolding merge_small combine_adjacent
  arrange-All P j k [] all = merge_rounds-All config P k 0 [] tt
  arrange-All P j k (p ∷ ps) (a, all) =
      let combined = combine_from config (single p) ps in
      merge_rounds-All config P k (length combined) combined
        (combine_from-All P j (single p) ps a all)

  can_combine-fits :
      (l r : Candidate)
      → can_combine config l r ≡ true
      → (has_compatible_context l r ≡ true)
        × (exceeds_limit config (candidate_text (join l r)) config.target_tokens ≡ false)
  unfolding can_combine
  can_combine-fits l r h =
      let (a, b) = and_split (has_compatible_context l r) _ h in (a, not-true _ b)
    where
      not-true : (b : Bool) → not b ≡ true → b ≡ false
      not-true b h = ground arith

  can_merge_small-fits :
      (l r : Candidate)
      → can_merge_small config l r ≡ true
      → (has_compatible_context l r ≡ true)
        × (exceeds_hard_limit config (candidate_text (join l r)) ≡ false)
  unfolding can_merge_small
  can_merge_small-fits l r h =
      let (a, b) = and_split (has_compatible_context l r) _ h in (a, not-true _ b)
    where
      not-true : (b : Bool) → not b ≡ true → b ≡ false
      not-true b h = ground arith

  -- A candidate of several pieces holds only pieces that may be combined, all under one heading path.
  pub arrange-Coherent : (atomic : List Piece) → All Coherent (arrange config atomic)
  arrange-Coherent atomic =
      arrange-All Coherent (λ l r h. join-Coherent l r (can_combine-fits l r h).0)
        (λ l r h. join-Coherent l r (can_merge_small-fits l r h).0) atomic (alone atomic)
    where
      alone : (ps : List Piece) → All (λ p. Coherent (single p)) ps
      alone [] = tt
      alone (p ∷ ps) = (inl refl, alone ps)

  -- What `_validate` wants of a candidate.
  abbrev pub Valid : Candidate → Type 0
  Valid c = NonBlank (candidate_text c) × (exceeds_hard_limit config (candidate_text c) ≡ false)

  within :
      (tokens chars target hard most : ℕ)
      → target ≤ hard
      → (ltb target tokens || ltb most chars) ≡ false
      → (ltb hard tokens || ltb most chars) ≡ false
  within tokens chars target hard most le h = ground arith

  pub arrange-Valid :
      config.target_tokens ≤ config.hard_max_tokens
      → (atomic : List Piece) → All (λ p. Valid (single p)) atomic
      → All Valid (arrange config atomic)
  arrange-Valid le atomic =
      arrange-All Valid
        (λ l r h a b. (nonblank l r a.0, within _ _ _ _ _ le (can_combine-fits l r h).1))
        (λ l r h a b. (nonblank l r a.0, (can_merge_small-fits l r h).1)) atomic
    where
      nonblank :
          (l r : Candidate) → NonBlank (candidate_text l) → NonBlank (candidate_text (join l r))
      nonblank l r h = rw (join-text l r) (NonBlank-append (candidate_text l) _ h)
