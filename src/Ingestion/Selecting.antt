-- ===== src/Ingestion/Selecting.antt =====
-- What `_merge_small` selects is a merge of two candidates next to each other.
use ecommerce_after_sales_sy.Prelude.{
  ℕ, suc, ◌+◌, ◌-◌, ◌≡◌, refl, sym, ap, Bool, true, false, Bool-cases, inl, inr, ◌⊎◌, ltb, Option,
  none, some, List, [], ◌∷◌, arith, if◌then◌else◌,
}
use ecommerce_after_sales_sy.Ingestion.Models.{ChunkingConfig}
use ecommerce_after_sales_sy.Ingestion.Tokens.{Unicode}
use ecommerce_after_sales_sy.Ingestion.Pieces.{Candidate, join}
use ecommerce_after_sales_sy.Ingestion.Chunker.{
  can_merge_small, is_small, Merge, nearest, splice, merge_at, with_left, with_right, merge_of,
  or_onward, select,
}
use mathlib.Core.Path.{subst}
use ecommerce_after_sales_sy.Ingestion.Merging.{Step, here, further}

module _ (config : ChunkingConfig) ⦃u : Unicode⦄ where
  if-some : (b : Bool) (x m : Merge) → (if b then some x else none) ≡ some m → (b ≡ true) × (x ≡ m)
  if-some true x m h = (refl, cc)
  if-some false x m h = ground arith

  merge_at-some :
      (i : ℕ) (l r : Candidate) (m : Merge)
      → merge_at config i l r ≡ some m
      → (can_merge_small config l r ≡ true) × (m.left_index ≡ i) × (m.combined ≡ join l r)
  merge_at-some i l r m h =
      let (can, e) = if-some (can_merge_small config l r) _ m h in
      (can, ap (λ x. x.left_index) (sym e), ap (λ x. x.combined) (sym e))

  nearest-cases :
      (a b : Option Merge) (m : Merge) → nearest a b ≡ some m → (a ≡ some m) ⊎ (b ≡ some m)
  nearest-cases none b m h = inr h
  nearest-cases (some a) none m h = inl h
  nearest-cases (some a) (some b) m h = elim (Bool-cases (ltb b.distance a.distance)) [
    | inl less ↦ inr (ground arith)
    | inr more ↦ inl (ground arith)
  ]

  -- A step at a place of the list, which is spliced.
  abbrev Splices : ℕ → Merge → List Candidate → Type 0
  Splices i m xs = (k : ℕ) × (m.left_index ≡ i + k) × Step config xs (splice k m.combined xs)

  Splices-here :
      (i j : ℕ) (l r : Candidate) (cs : List Candidate) (m : Merge)
      → j ≡ i
      → merge_at config j l r ≡ some m
      → Splices i m (l ∷ r ∷ cs)
  Splices-here i j l r cs m e h =
      let (can, index, combined) = merge_at-some j l r m h in
      (0, omega arith, rw combined (here l r cs can))

  Splices-further :
      (i : ℕ) (c : Candidate) (cs : List Candidate) (m : Merge)
      → Splices (suc i) m cs
      → Splices i m (c ∷ cs)
  Splices-further i c cs m (k, index, step) = (suc k, omega arith, further c _ _ step)

  with_right-Splices :
      (i : ℕ) (c : Candidate) (rest : List Candidate) (m : Merge)
      → with_right config i c rest ≡ some m
      → Splices i m (c ∷ rest)
  with_right-Splices i c [] m h = ground arith
  with_right-Splices i c (r ∷ rest) m h = Splices-here i i c r rest m refl h

  or_onward-cases :
      (a b : Option Merge) (m : Merge) → or_onward config a b ≡ some m → (a ≡ some m) ⊎ (b ≡ some m)
  or_onward-cases none b m h = inr h
  or_onward-cases (some a) b m h = inl h

  if-none :
      (b : Bool) (a : Option Merge) (m : Merge) → (if b then a else none) ≡ some m → a ≡ some m
  if-none true a m h = h
  if-none false a m h = ground arith

  merge_of-cases :
      (i : ℕ) (left : Option Candidate) (c : Candidate) (rest : List Candidate) (m : Merge)
      → merge_of config i left c rest ≡ some m
      → (with_left config i left c ≡ some m) ⊎ (with_right config i c rest ≡ some m)
  merge_of-cases i left c rest m h = nearest-cases _ _ m (if-none (is_small config c) _ m h)

  -- Selecting behind a left neighbour is a step of the candidates from that neighbour on.
  select-Splices :
      (i : ℕ) (p : Candidate) (xs : List Candidate) (m : Merge)
      → select config (suc i) (some p) xs ≡ some m
      → Splices i m (p ∷ xs)
  unfolding select
  select-Splices i p [] m h = ground arith
  select-Splices i p (c ∷ rest) m h = elim (or_onward-cases _ _ m h) [
    | inl found ↦ elim (merge_of-cases (suc i) (some p) c rest m found) [
      | inl left ↦ Splices-here i (suc i - 1) p c rest m (omega arith) left
      | inr right ↦ Splices-further i p (c ∷ rest) m (with_right-Splices (suc i) c rest m right)
    ]
    | inr onward ↦ Splices-further i p (c ∷ rest) m (select-Splices (suc i) c rest m onward)
  ]

  pub select-Step :
      (xs : List Candidate) (m : Merge)
      → select config 0 none xs ≡ some m
      → Step config xs (splice m.left_index m.combined xs)
  unfolding select
  select-Step [] m h = ground arith
  select-Step (c ∷ rest) m h = elim (or_onward-cases _ _ m h) [
    | inl found ↦ elim (merge_of-cases 0 none c rest m found) [
      | inl left ↦ ground arith
      | inr right ↦ placed (with_right-Splices 0 c rest m right)
    ]
    | inr onward ↦ placed (select-Splices 0 c rest m onward)
  ]
    where
      placed :
          Splices 0 m (c ∷ rest)
          → Step config (c ∷ rest) (splice m.left_index m.combined (c ∷ rest))
      placed (k, index, step) =
          let e : k ≡ m.left_index = omega arith in
          subst (λ x. Step config (c ∷ rest) (splice x m.combined (c ∷ rest))) e step
