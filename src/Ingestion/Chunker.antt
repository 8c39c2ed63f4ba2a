-- ===== src/Ingestion/Chunker.antt =====
-- structured_chunker.py: `_combine_adjacent`, `_merge_small`, `_validate` and `chunk`.
use ecommerce_after_sales_sy.Prelude.{
  ℕ, zero, suc, ◌+◌, ◌-◌, String, str_eq, Bool, true, false, not, ◌&&◌, ◌||◌, Option, none, some,
  List, [], ◌∷◌, ◌++◌, length, take, drop, ltb, leb, any, if◌then◌else◌,
}
use ecommerce_after_sales_sy.Ingestion.Models.{ChunkingConfig}
use ecommerce_after_sales_sy.Ingestion.Tokens.{Unicode, estimate_tokens}
use ecommerce_after_sales_sy.Ingestion.Pieces.{
  Piece, Candidate, pieces, single, join, candidate_text, last_page, exceeds_limit,
  exceeds_hard_limit,
}

abbrev pub same_path : List String → List String → Bool
same_path [] [] = true
same_path (a ∷ xs) (b ∷ ys) = str_eq a b && same_path xs ys
same_path _ _ = false

-- `_adjacent_page_ranges`
abbrev pub adjacent_page_ranges : Option ℕ → Option ℕ → Option ℕ → Option ℕ → Bool
adjacent_page_ranges (some a) (some b) (some c) (some d) =
    not (ltb b a || ltb d c) && (leb a c && leb c (b + 1))
adjacent_page_ranges (some a) (some b) _ _ = false
adjacent_page_ranges _ _ none none = true
adjacent_page_ranges _ _ _ _ = false

abbrev pub page_start : Candidate → Option ℕ
page_start c = c.first.block.page_start

abbrev pub page_end : Candidate → Option ℕ
page_end c = last_page c.first c.others

-- Some piece of the candidate stands alone.
abbrev pub stands_alone : Candidate → Bool
stands_alone c = any (λ p. not p.combineable) (pieces c)

-- `_has_compatible_context`
unfoldable pub has_compatible_context : Candidate → Candidate → Bool
has_compatible_context left right =
    not (stands_alone left || stands_alone right)
    && same_path left.first.block.heading_path right.first.block.heading_path
    && adjacent_page_ranges (page_start left) (page_end left) (page_start right) (page_end right)

abbrev pub distance : ℕ → ℕ → ℕ
distance a b = (a - b) + (b - a)

-- An entry of `options`.
pub record Merge : Type 0 where
  pub distance : ℕ
  pub left_index : ℕ
  pub combined : Candidate

-- `min` of the options by their distance and then by their index; the left one comes first.
abbrev pub nearest : Option Merge → Option Merge → Option Merge
nearest none right = right
nearest left none = left
nearest (some a) (some b) = if ltb b.distance a.distance then some b else some a

-- `merged[left_index : left_index + 2] = [combined]`
abbrev pub splice : ℕ → Candidate → List Candidate → List Candidate
splice i combined xs = take i xs ++ combined ∷ drop (suc (suc i)) xs

module _ (config : ChunkingConfig) ⦃u : Unicode⦄ where
  -- `_can_combine`
  unfoldable pub can_combine : Candidate → Candidate → Bool
  unfolding has_compatible_context
  can_combine left right =
      has_compatible_context left right
      && not (exceeds_limit config (candidate_text (join left right)) config.target_tokens)

  -- `_can_merge_small`
  unfoldable pub can_merge_small : Candidate → Candidate → Bool
  unfolding has_compatible_context
  can_merge_small left right =
      has_compatible_context left right
      && not (exceeds_hard_limit config (candidate_text (join left right)))

  -- The loop of `_combine_adjacent`, where `last` is `candidates[-1]`.
  unfoldable pub combine_from : Candidate → List Piece → List Candidate
  unfolding can_combine
  combine_from last [] = last ∷ []
  combine_from last (p ∷ ps) =
      let rest =
        combine_from (if can_combine last (single p) then join last (single p) else single p) ps in
      if can_combine last (single p) then rest else last ∷ rest

  -- `_combine_adjacent`
  unfoldable pub combine_adjacent : List Piece → List Candidate
  unfolding combine_from
  combine_adjacent [] = []
  combine_adjacent (p ∷ ps) = combine_from (single p) ps

  -- `estimate_tokens(candidate.text) < self.config.min_merge_tokens`
  abbrev pub is_small : Candidate → Bool
  is_small c = ltb (estimate_tokens (candidate_text c)) config.min_merge_tokens

  abbrev pub merge_at : ℕ → Candidate → Candidate → Option Merge
  merge_at left_index left right =
      if can_merge_small left right
      then some (record {
        distance =
            distance (estimate_tokens (candidate_text (join left right))) config.target_tokens;
        left_index = left_index;
        combined = join left right;
      })
      else none

  abbrev pub with_left : ℕ → Option Candidate → Candidate → Option Merge
  with_left index none c = none
  with_left index (some left) c = merge_at (index - 1) left c

  abbrev pub with_right : ℕ → Candidate → List Candidate → Option Merge
  with_right index c [] = none
  with_right index c (right ∷ rest) = merge_at index c right

  -- What is selected at one candidate, given its neighbours.
  abbrev pub merge_of : ℕ → Option Candidate → Candidate → List Candidate → Option Merge
  merge_of index left c rest =
      if is_small c then nearest (with_left index left c) (with_right index c rest) else none

  abbrev pub or_onward : Option Merge → Option Merge → Option Merge
  or_onward none onward = onward
  or_onward (some m) onward = some m

  -- The search of `_merge_small`, from a candidate on whose left neighbour is given.
  unfoldable pub select : ℕ → Option Candidate → List Candidate → Option Merge
  unfolding can_merge_small
  select index left [] = none
  select index left (c ∷ rest) =
      or_onward (merge_of index left c rest) (select (suc index) (some c) rest)

  -- `while True`, on rounds: each merge takes a candidate away.
  unfoldable pub merge_rounds : ℕ → List Candidate → List Candidate
  unfolding select
  merge_rounds zero merged = merged
  merge_rounds (suc rounds) merged = elim (select 0 none merged) [
    | none ↦ merged
    | some m ↦ merge_rounds rounds (splice m.left_index m.combined merged)
  ]

  -- `_merge_small`
  unfoldable pub merge_small : List Candidate → List Candidate
  unfolding merge_rounds
  merge_small candidates = merge_rounds (length candidates) candidates
