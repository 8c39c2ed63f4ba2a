-- ===== src/Ingestion/Lines.antt =====
-- structured_chunker.py: `_split_sentences`, `_split_lines_without_blank_units`, and the lines of
-- `str.splitlines(keepends=True)` that it groups.
use ecommerce_after_sales_sy.Prelude.{
  Char, code, Bool, false, not, ◌&&◌, ◌||◌, List, [], ◌∷◌, ◌++◌, nonempty, leb, ◌==◌, if◌then◌else◌,
}
use ecommerce_after_sales_sy.Python.Result.{Result, ok, raise, index_error}
use ecommerce_after_sales_sy.Ingestion.Models.{Chars, is_blank}

-- `_SENTENCE_TERMINATORS`
abbrev pub is_terminator : Char → Bool
is_terminator c =
    let n = code c in
    n == b'.'
    || n == b'?'
    || n == b'!'
    || n == b';'
    || n == b':'
    || n == 0x3002
    || n == 0xFF01
    || n == 0xFF1F
    || n == 0xFF1B
    || n == 0xFF1A

-- Text that is added to the last of some pieces, or stands alone where there is none.
pub record Sentences : Type 0 where
  pub sentences : List Chars
  pub current : Chars

unfoldable pub read_sentences : Chars → Chars → Sentences
read_sentences current [] = record { sentences = []; current = current }
read_sentences current (c ∷ cs) =
    let grown = current ++ c ∷ [] in
    let rest = read_sentences (if is_terminator c then [] else grown) cs in
    if is_terminator c
    then record { sentences = grown ∷ rest.sentences; current = rest.current }
    else rest

-- `xs[-1] += t`
abbrev pub extend_last : Chars → List Chars → List Chars
extend_last t [] = []
extend_last t (x ∷ []) = (x ++ t) ∷ []
extend_last t (x ∷ y ∷ ys) = x ∷ extend_last t (y ∷ ys)

unfoldable pub split_sentences : Chars → List Chars
unfolding read_sentences
split_sentences text =
    let r = read_sentences [] text in
    if nonempty r.current
    then (if nonempty r.sentences then extend_last r.current r.sentences else r.current ∷ [])
    else r.sentences

-- A line break of `splitlines`.
abbrev pub is_break : Char → Bool
is_break c =
    let n = code c in
    (leb 0x0A n && leb n 0x0D)
    || (leb 0x1C n && leb n 0x1E)
    || n == 0x85
    || n == 0x2028
    || n == 0x2029

abbrev pub starts_with_feed : Chars → Bool
starts_with_feed [] = false
starts_with_feed (c ∷ cs) = code c == 0x0A

-- A line ends behind a break; a carriage return and a line feed are one break.
abbrev pub ends_line : Char → Chars → Bool
ends_line c cs = is_break c && not (code c == 0x0D && starts_with_feed cs)

unfoldable pub lines_from : Chars → Chars → List Chars
lines_from line [] = if nonempty line then line ∷ [] else []
lines_from line (c ∷ cs) =
    let grown = line ++ c ∷ [] in
    let rest = lines_from (if ends_line c cs then [] else grown) cs in
    if ends_line c cs then grown ∷ rest else rest

unfoldable pub split_lines : Chars → List Chars
unfolding lines_from
split_lines text = lines_from [] text

-- `units` and `pending_blank_lines` behind the loop.
pub record Grouped : Type 0 where
  pub units : List Chars
  pub pending_blank_lines : Chars

unfoldable pub group_lines : Chars → List Chars → Grouped
unfolding is_blank
group_lines pending [] = record { units = []; pending_blank_lines = pending }
group_lines pending (line ∷ lines) =
    let rest = group_lines (if is_blank line then pending ++ line else []) lines in
    if is_blank line then rest else record {
      units = (pending ++ line) ∷ rest.units;
      pending_blank_lines = rest.pending_blank_lines;
    }

abbrev pub close_units : List Chars → Chars → Result (List Chars)
close_units units [] = ok units
close_units [] (c ∷ cs) = raise index_error
close_units (x ∷ xs) (c ∷ cs) = ok (extend_last (c ∷ cs) (x ∷ xs))

unfoldable pub split_lines_without_blank_units : Chars → Result (List Chars)
unfolding split_lines group_lines
split_lines_without_blank_units text =
    let lines = split_lines text in
    let r = group_lines [] lines in
    if nonempty lines then close_units r.units r.pending_blank_lines else ok (text ∷ [])
