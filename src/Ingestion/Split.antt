-- ===== src/Ingestion/Split.antt =====
-- token_counter.py: `split_by_estimated_tokens`.
use ecommerce_after_sales_sy.Prelude.{
  ℕ, zero, suc, ◌+◌, Bool, false, ◌&&◌, ◌||◌, List, [], ◌∷◌, ◌++◌, flatten, nonempty, length, take,
  drop, ltb, ◌==◌, if◌then◌else◌,
}
use ecommerce_after_sales_sy.Python.Result.{Result, ok, value_error, raise_if, ◌>>=◌, ◌>>◌}
use ecommerce_after_sales_sy.Ingestion.Models.{Chars}
use ecommerce_after_sales_sy.Ingestion.Tokens.{Unicode, SourceUnit, source_units}

-- `for start in range(0, len(unit), n)`: the slices of n characters. There are at most as many rounds
-- as characters.
unfoldable pub slices : ℕ → ℕ → Chars → List Chars
slices zero n xs = []
slices (suc rounds) n [] = []
slices (suc rounds) n (x ∷ xs) = take n (x ∷ xs) ∷ slices rounds n (drop n (x ∷ xs))

-- `current`, `current_tokens` and `current_chars`.
pub record Current : Type 0 where
  pub units : List Chars
  pub tokens : ℕ
  pub chars : ℕ

abbrev pub nothing : Current
nothing = record { units = []; tokens = 0; chars = 0 }

-- `flush`
abbrev pub flush : Current → List Chars
flush c = if nonempty c.units then flatten c.units ∷ [] else []

-- The parts that one unit completes, and what is current behind it.
pub record Split : Type 0 where
  pub parts : List Chars
  pub current : Current

module _ (hard_max_tokens hard_max_chars : ℕ) where
  abbrev pub is_long : SourceUnit → Bool
  is_long u = ltb hard_max_chars (length u.text)

  abbrev pub exceeds : Current → SourceUnit → Bool
  exceeds c u =
      nonempty c.units
      && (ltb hard_max_tokens (c.tokens + u.tokens) || ltb hard_max_chars (c.chars + length u.text))

  abbrev pub append_unit : Current → SourceUnit → Current
  append_unit c u = record {
    units = c.units ++ u.text ∷ [];
    tokens = c.tokens + u.tokens;
    chars = c.chars + length u.text;
  }

  -- One round of the loop, for a unit that raises nothing.
  unfoldable pub split_unit : Current → SourceUnit → Split
  unfolding slices
  split_unit c u =
      if is_long u
      then record {
        parts = flush c ++ slices (length u.text) hard_max_chars u.text;
        current = nothing;
      }
      else if exceeds c u
      then record { parts = flush c; current = append_unit nothing u }
      else record { parts = []; current = append_unit c u }

  unfoldable pub split_units : Current → List SourceUnit → Result (List Chars)
  unfolding split_unit
  split_units c [] = ok (flush c)
  split_units c (u ∷ us) = do
    raise_if (if is_long u then false else ltb hard_max_tokens u.tokens)
        (value_error "indivisible atomic unit exceeds token limit")
    rest ← split_units (split_unit c u).current us
    ok ((split_unit c u).parts ++ rest)

  module _ ⦃u : Unicode⦄ where
    unfoldable pub split_by_estimated_tokens : Chars → Result (List Chars)
    unfolding split_units source_units
    split_by_estimated_tokens text = do
      raise_if (hard_max_tokens == 0) (value_error "hard_max_tokens must be positive")
      raise_if (hard_max_chars == 0) (value_error "hard_max_chars must be positive")
      if nonempty text then split_units nothing (source_units text) else ok []
