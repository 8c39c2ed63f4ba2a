-- ===== src/Ingestion/Rounds.antt =====
-- The loop of `_merge_small`, and the candidates behind it.
use ecommerce_after_sales_sy.Prelude.{
  ℕ, zero, suc, ◌-◌, ◌≤◌, ◌≡◌, refl, ◌∙◌, Bool, true, false, Bool-cases, Option-cases, inl, inr,
  ◌||◌, ◌&&◌, ltb, Option, none, some, List, [], ◌∷◌, length, All, arith, if◌then◌else◌,
}
use ecommerce_after_sales_sy.Ingestion.Models.{ChunkingConfig}
use ecommerce_after_sales_sy.Ingestion.Tokens.{Unicode}
use ecommerce_after_sales_sy.Ingestion.Pieces.{Candidate}
use ecommerce_after_sales_sy.Ingestion.Chunker.{
  can_merge_small, is_small, Merge, nearest, merge_at, with_left, with_right, merge_of, or_onward,
  select, merge_rounds, merge_small,
}
use ecommerce_after_sales_sy.Ingestion.Merging.{
  Step-pieces, Step-length, Joins, Step-All, pieces_of,
}
use ecommerce_after_sales_sy.Ingestion.Selecting.{select-Step}

module _ (config : ChunkingConfig) ⦃u : Unicode⦄ where
  pub merge_rounds-pieces :
      (n : ℕ) (xs : List Candidate) → pieces_of (merge_rounds config n xs) ≡ pieces_of xs
  unfolding merge_rounds
  merge_rounds-pieces zero xs = refl
  merge_rounds-pieces (suc n) xs = elim (Option-cases (select config 0 none xs)) [
    | inl done ↦ rw (merge_rounds, done) refl
    | inr (m, found) ↦
        rw (merge_rounds, found)
          (merge_rounds-pieces n _ ∙ Step-pieces config xs _ (select-Step config xs m found))
  ]

  pub merge_rounds-All :
      (P : Candidate → Type 0) (j : Joins config P) (n : ℕ) (xs : List Candidate)
      → All P xs
      → All P (merge_rounds config n xs)
  unfolding merge_rounds
  merge_rounds-All P j zero xs all = all
  merge_rounds-All P j (suc n) xs all = elim (Option-cases (select config 0 none xs)) [
    | inl done ↦ rw (merge_rounds, done) all
    | inr (m, found) ↦
        rw (merge_rounds, found)
          (merge_rounds-All P j n _ (Step-All config P j xs _ (select-Step config xs m found) all))
  ]

  select_nil : select config 0 none [] ≡ none
  unfolding select
  select_nil = refl

  -- As many rounds as candidates are enough.
  pub merge_rounds-select :
      (n : ℕ) (xs : List Candidate)
      → length xs ≤ n
      → select config 0 none (merge_rounds config n xs) ≡ none
  unfolding merge_rounds
  merge_rounds-select zero [] le = select_nil
  merge_rounds-select zero (c ∷ cs) le = absurd (omega arith)
  merge_rounds-select (suc n) xs le = elim (Option-cases (select config 0 none xs)) [
    | inl done ↦ rw (merge_rounds, done) done
    | inr (m, found) ↦
        rw (merge_rounds, found)
          (merge_rounds-select n _
            (omega (arith, Step-length config xs _ (select-Step config xs m found))))
  ]

  -- Of two candidates next to each other, of which one is small, none are left that can be merged.
  pub Settled : List Candidate → Type 0
  Settled [] = Unit
  Settled (l ∷ []) = Unit
  Settled (l ∷ r ∷ cs) =
      (((is_small config l || is_small config r) && can_merge_small config l r) ≡ false)
      × Settled (r ∷ cs)

  nearest-none : (a b : Option Merge) → nearest a b ≡ none → (a ≡ none) × (b ≡ none)
  nearest-none none b h = (refl, h)
  nearest-none (some a) none h = (h, refl)
  nearest-none (some a) (some b) h = elim (Bool-cases (ltb b.distance a.distance)) [
    | inl less ↦ absurd (ground arith)
    | inr more ↦ absurd (ground arith)
  ]

  or_onward-none : (a b : Option Merge) → or_onward config a b ≡ none → (a ≡ none) × (b ≡ none)
  or_onward-none none b h = (refl, h)
  or_onward-none (some a) b h = ground arith

  if-true-none :
      (b : Bool) (a : Option Merge) → (if b then a else none) ≡ none → b ≡ true → a ≡ none
  if-true-none true a h t = h
  if-true-none false a h t = ground arith

  merge_at-none :
      (i : ℕ) (l r : Candidate) → merge_at config i l r ≡ none → can_merge_small config l r ≡ false
  merge_at-none i l r h = elim (Bool-cases (can_merge_small config l r)) [
    | inl can ↦ absurd (ground arith)
    | inr cannot ↦ cannot
  ]

  merge_of-none :
      (i : ℕ) (left : Option Candidate) (c : Candidate) (rest : List Candidate)
      → merge_of config i left c rest ≡ none
      → is_small config c ≡ true
      → (with_left config i left c ≡ none) × (with_right config i c rest ≡ none)
  merge_of-none i left c rest h small =
      nearest-none _ _ (if-true-none (is_small config c) _ h small)

  neither :
      (a b can : Bool)
      → (a ≡ true → can ≡ false)
      → (b ≡ true → can ≡ false)
      → ((a || b) && can) ≡ false
  neither true b can f g = f refl
  neither false true can f g = g refl
  neither false false can f g = refl

  pub select-Settled :
      (i : ℕ) (p : Option Candidate) (xs : List Candidate)
      → select config i p xs ≡ none
      → Settled xs
  unfolding select Settled
  select-Settled i p [] h = tt
  select-Settled i p (c ∷ []) h = tt
  select-Settled i p (c ∷ d ∷ rest) h =
      let (at_c, onward) = or_onward-none _ _ h in
      let (at_d, beyond) = or_onward-none _ _ onward in
      (
        neither (is_small config c) (is_small config d) (can_merge_small config c d)
            (λ small. merge_at-none i c d (merge_of-none i p c (d ∷ rest) at_c small).1)
            (λ small.
              merge_at-none (suc i - 1) c d (merge_of-none (suc i) (some c) d rest at_d small).0),
        select-Settled (suc i) (some c) (d ∷ rest) onward,
      )

  -- Merging returns candidates of which no small one can be merged with a neighbour, whatever the
  -- candidates and the limits.
  pub merge_small-Settled : (cs : List Candidate) → Settled (merge_small config cs)
  unfolding merge_small
  merge_small-Settled cs =
      select-Settled 0 none (merge_small config cs)
        (merge_rounds-select (length cs) cs (omega arith))
