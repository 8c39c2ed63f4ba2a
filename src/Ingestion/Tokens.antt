-- ===== src/Ingestion/Tokens.antt =====
-- knowledge_ingestion/token_counter.py: `estimate_tokens` and the units of a text.
use ecommerce_after_sales_sy.Prelude.{
  ℕ, ◌+◌, Char, code, Bool, true, false, not, ◌&&◌, ◌||◌, List, [], ◌∷◌, ◌++◌, nonempty, leb, ◌==◌,
  if◌then◌else◌,
}
use ecommerce_after_sales_sy.Python.Text.{is_space_code}
use ecommerce_after_sales_sy.Ingestion.Models.{Chars}

-- `unicodedata.normalize("NFKC", s)`, `c.isalnum()`, `s.lower()` and `s.casefold()`.
pub record Unicode : Type 0 where
  pub nfkc : Chars → Chars
  pub is_alnum : Char → Bool
  pub lower : Chars → Chars
  pub casefold : Chars → Chars

abbrev cjk_code : ℕ → Bool
cjk_code c =
    (leb 0x3400 c && leb c 0x4DBF)
    || (leb 0x4E00 c && leb c 0x9FFF)
    || (leb 0xF900 c && leb c 0xFAFF)
    || (leb 0x20000 c && leb c 0x2EBEF)
    || (leb 0x30000 c && leb c 0x323AF)

unfoldable pub is_cjk : Char → Bool
is_cjk c = cjk_code (code c)

-- `_source_character_kind`
pub data SourceKind : Type 0 where
  whitespace word other : SourceKind

unfoldable pub every : (Char → Bool) → Chars → Bool
every p [] = true
every p (c ∷ cs) = p c && every p cs

-- A unit of the source, and what it costs.
pub record SourceUnit : Type 0 where
  pub text : Chars
  pub tokens : ℕ

module _ ⦃u : Unicode⦄ where
  abbrev is_word : Char → Bool
  is_word c = u.is_alnum c || code c == b'_'

  -- The tokens that a character adds, and whether a word goes on behind it.
  abbrev added : Bool → Char → ℕ
  added in_word c =
      if is_space_code (code c) then 0 else if not (is_cjk c) && is_word c && in_word then 0 else 1

  abbrev goes_on : Char → Bool
  goes_on c = not (is_space_code (code c)) && not (is_cjk c) && is_word c

  unfoldable pub count_tokens : Bool → Chars → ℕ
  unfolding is_cjk
  count_tokens in_word [] = 0
  count_tokens in_word (c ∷ cs) = added in_word c + count_tokens (goes_on c) cs

  unfoldable pub estimate_tokens : Chars → ℕ
  unfolding count_tokens
  estimate_tokens text = count_tokens false (u.nfkc text)

  unfoldable pub source_kind : Char → SourceKind
  unfolding every is_cjk
  source_kind c =
      let normalized = u.nfkc (c ∷ []) in
      if nonempty normalized && every (λ d. is_space_code (code d)) normalized
      then whitespace
      else if nonempty normalized && every (λ d. is_word d && not (is_cjk d)) normalized
      then word
      else other

  -- `kind in {"word", "whitespace"} and kind == pending_kind`, where there is pending text
  abbrev pub sticks : SourceKind → SourceKind → Bool
  sticks word word = true
  sticks whitespace whitespace = true
  sticks _ _ = false

  -- `emit_pending`
  abbrev pub emit : Chars → List SourceUnit
  emit [] = []
  emit (c ∷ cs) = record { text = c ∷ cs; tokens = estimate_tokens (c ∷ cs) } ∷ []

  -- What one character adds to the units, and what is pending behind it.
  pub record Taken : Type 0 where
    pub emitted : List SourceUnit
    pub pending : Chars
    pub pending_kind : SourceKind

  abbrev pub begin_unit : Chars → SourceKind → Char → Taken
  begin_unit pending other c = record {
    emitted = emit pending ++ record { text = c ∷ []; tokens = estimate_tokens (c ∷ []) } ∷ [];
    pending = [];
    pending_kind = other;
  }
  begin_unit pending kind c = record {
    emitted = emit pending;
    pending = c ∷ [];
    pending_kind = kind;
  }

  -- `pending_kind` is None, here `other`, where nothing is pending.
  unfoldable pub take_character : Chars → SourceKind → Char → Taken
  unfolding source_kind
  take_character pending pending_kind c =
      if sticks (source_kind c) pending_kind
      then record { emitted = []; pending = pending ++ c ∷ []; pending_kind = pending_kind }
      else begin_unit pending (source_kind c) c

  unfoldable pub units_from : Chars → SourceKind → Chars → List SourceUnit
  unfolding take_character
  units_from pending kind [] = emit pending
  units_from pending kind (c ∷ cs) =
      let t = take_character pending kind c in t.emitted ++ units_from t.pending t.pending_kind cs

  -- `_source_units`
  unfoldable pub source_units : Chars → List SourceUnit
  unfolding units_from
  source_units text = units_from [] other text
