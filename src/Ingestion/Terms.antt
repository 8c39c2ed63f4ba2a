-- ===== src/Ingestion/Terms.antt =====
-- knowledge_ingestion/service.py: `_contains_term`. The regular expressions that it builds have one way
-- to match at a place: a part holds no separator, and the separators between two parts are a whole run.
use ecommerce_after_sales_sy.Prelude.{
  Char, code, Bool, true, false, not, ◌&&◌, ◌||◌, List, [], ◌∷◌, ◌++◌, any, nonempty, leb, ◌==◌,
  if◌then◌else◌,
}
use ecommerce_after_sales_sy.Python.Text.{is_space_code}
use ecommerce_after_sales_sy.Ingestion.Models.{Chars, is_blank}
use ecommerce_after_sales_sy.Ingestion.Tokens.{Unicode}

-- Equality of texts.
unfoldable pub same_chars : Chars → Chars → Bool
same_chars [] [] = true
same_chars [] (d ∷ ds) = false
same_chars (c ∷ cs) [] = false
same_chars (c ∷ cs) (d ∷ ds) = code c == code d && same_chars cs ds

abbrev pub is_space : Char → Bool
is_space c = is_space_code (code c)

-- `[\s_-]`
abbrev pub is_joint : Char → Bool
is_joint c = is_space c || code c == b'_' || code c == b'-'

drop_while : (Char → Bool) → Chars → Chars
drop_while p [] = []
drop_while p (c ∷ cs) = let rest = drop_while p cs in if p c then rest else c ∷ cs

trim_end : Chars → Chars
unfolding is_blank
trim_end [] = []
trim_end (c ∷ cs) = let rest = trim_end cs in if is_blank (c ∷ cs) then [] else c ∷ rest

-- `text.strip()`
unfoldable pub trim : Chars → Chars
unfolding drop_while trim_end
trim cs = trim_end (drop_while is_space cs)

-- The parts of a text between its runs of separators, with the part that is read; none is empty.
abbrev close_part : Chars → List Chars → List Chars
close_part [] parts = parts
close_part (c ∷ cs) parts = (c ∷ cs) ∷ parts

unfoldable pub parts_of : (Char → Bool) → Chars → Chars → List Chars
parts_of p part [] = close_part part []
parts_of p part (c ∷ cs) =
    let rest = parts_of p (if p c then [] else part ++ c ∷ []) cs in
    if p c then close_part part rest else rest

-- What is left behind a part at the head of a text.
pub data Match : Type 0 where
  unmatched : Match
  matched : Chars → Match

match_part : Chars → Chars → Match
match_part [] text = matched text
match_part (c ∷ cs) [] = unmatched
match_part (c ∷ cs) (d ∷ ds) = if code c == code d then match_part cs ds else unmatched

-- A run of at least one separator.
match_run : (Char → Bool) → Chars → Match
unfolding drop_while
match_run p [] = unmatched
match_run p (c ∷ cs) = if p c then matched (drop_while p cs) else unmatched

abbrev then_match : Match → (Chars → Match) → Match
then_match unmatched k = unmatched
then_match (matched rest) k = k rest

match_more : (Char → Bool) → List Chars → Chars → Match
unfolding match_run match_part
match_more p [] text = matched text
match_more p (part ∷ parts) text =
    then_match (then_match (match_run p text) (match_part part)) (match_more p parts)

match_all : (Char → Bool) → List Chars → Chars → Match
unfolding match_part match_more
match_all p [] text = matched text
match_all p (part ∷ parts) text = then_match (match_part part text) (match_more p parts)

module _ ⦃u : Unicode⦄ where
  -- `\w`
  abbrev is_word_character : Char → Bool
  is_word_character c = u.is_alnum c || code c == b'_'

  abbrev ends_word : Match → Bool
  ends_word unmatched = false
  ends_word (matched []) = true
  ends_word (matched (c ∷ cs)) = not (is_word_character c)

  -- `re.search`, where the character before is one of a word or not
  search : (Char → Bool) → List Chars → Bool → Chars → Bool
  unfolding match_all
  search p parts inside [] = not inside && ends_word (match_all p parts [])
  search p parts inside (c ∷ cs) =
      (not inside && ends_word (match_all p parts (c ∷ cs)))
      || search p parts (is_word_character c) cs

  abbrev is_han : Char → Bool
  is_han c = leb 0x4E00 (code c) && leb (code c) 0x9FFF

  abbrev search_parts : (Char → Bool) → List Chars → Chars → Bool
  search_parts p parts text = nonempty parts && search p parts false text

  -- `_contains_term`
  unfoldable pub contains_term : Chars → Chars → Bool
  unfolding search trim parts_of
  contains_term text value =
      let wanted = u.casefold (trim (u.nfkc value)) in
      let within = u.casefold (u.nfkc text) in
      if not (nonempty wanted)
      then false
      else if any is_han wanted
      then search_parts is_space (parts_of is_space [] wanted) within
      else search_parts is_joint (parts_of is_joint [] wanted) within
