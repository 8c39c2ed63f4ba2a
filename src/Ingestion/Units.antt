-- ===== src/Ingestion/Units.antt =====
-- The smallest units of a block: no text is lost between them.
use ecommerce_after_sales_sy.Prelude.{
  ◌≡◌, refl, sym, ap, ◌∙◌, code, Bool, true, false, Bool-cases, and_split, inl, inr, List, [], ◌∷◌,
  ◌++◌, flatten, append-nil, append_assoc, nonempty, All, arith, if◌then◌else◌, ◌&&◌,
}
use ecommerce_after_sales_sy.Python.Text.{is_space_code}
use ecommerce_after_sales_sy.Python.Result.{Result, ok}
use ecommerce_after_sales_sy.Ingestion.Models.{Chars, is_blank}
use ecommerce_after_sales_sy.Ingestion.Lines.{
  is_terminator, read_sentences, extend_last, split_sentences, ends_line, lines_from, split_lines,
  group_lines, close_units, split_lines_without_blank_units,
}

extend_last-text :
    (t x : Chars) (xs : List Chars) → flatten (extend_last t (x ∷ xs)) ≡ flatten (x ∷ xs) ++ t
unfolding flatten
extend_last-text t x [] = append-nil (x ++ t) ∙ ap (λ y. y ++ t) (sym (append-nil x))
extend_last-text t x (y ∷ ys) =
    ap (λ z. x ++ z) (extend_last-text t y ys) ∙ sym (append_assoc x (flatten (y ∷ ys)) t)

read_sentences-text :
    (p cs : Chars)
    → flatten (read_sentences p cs).sentences ++ (read_sentences p cs).current ≡ p ++ cs
unfolding read_sentences flatten
read_sentences-text p [] = sym (append-nil p)
read_sentences-text p (c ∷ cs) = elim (Bool-cases (is_terminator c)) [
  | inl h ↦ rw h (
      append_assoc (p ++ c ∷ []) _ _
      ∙ ap (λ t. (p ++ c ∷ []) ++ t) (read_sentences-text [] cs)
      ∙ append_assoc p (c ∷ []) cs)
  | inr h ↦ rw h (read_sentences-text (p ++ c ∷ []) cs ∙ append_assoc p (c ∷ []) cs)
]

-- The sentences of a text, put together, are the text.
pub split_sentences-text : (text : Chars) → flatten (split_sentences text) ≡ text
unfolding split_sentences flatten
split_sentences-text text =
    let r = read_sentences [] text in joined r.sentences r.current ∙ read_sentences-text [] text
  where
    joined :
        (xs : List Chars) (t : Chars)
        → flatten (if nonempty t then (if nonempty xs then extend_last t xs else t ∷ []) else xs)
          ≡ flatten xs ++ t
    joined xs [] = sym (append-nil (flatten xs))
    joined [] (c ∷ cs) = append-nil (c ∷ cs)
    joined (x ∷ xs) (c ∷ cs) = extend_last-text (c ∷ cs) x xs

lines_from-text : (p cs : Chars) → flatten (lines_from p cs) ≡ p ++ cs
unfolding lines_from flatten
lines_from-text [] [] = refl
lines_from-text (x ∷ p) [] = refl
lines_from-text p (c ∷ cs) = elim (Bool-cases (ends_line c cs)) [
  | inl h ↦ rw h (ap (λ t. (p ++ c ∷ []) ++ t) (lines_from-text [] cs) ∙ append_assoc p (c ∷ []) cs)
  | inr h ↦ rw h (lines_from-text (p ++ c ∷ []) cs ∙ append_assoc p (c ∷ []) cs)
]

pub split_lines-text : (text : Chars) → flatten (split_lines text) ≡ text
unfolding split_lines
split_lines-text text = lines_from-text [] text

abbrev pub NonBlank : Chars → Type 0
NonBlank t = is_blank t ≡ false

is_blank-append : (p q : Chars) → is_blank p ≡ true → is_blank (p ++ q) ≡ is_blank q
unfolding is_blank
is_blank-append [] q h = refl
is_blank-append (c ∷ p) q h =
    let (space, blank) = and_split (is_space_code (code c)) (is_blank p) h in
    rw space (is_blank-append p q blank)

and_false : (b : Bool) → (b && false) ≡ false
and_false true = refl
and_false false = refl

left_false : (a b : Bool) → (a && b) ≡ false → b ≡ true → a ≡ false
left_false a b h t = ground arith

append-NonBlank : (p q : Chars) → NonBlank q → NonBlank (p ++ q)
unfolding is_blank
append-NonBlank [] q h = h
append-NonBlank (c ∷ p) q h = rw (append-NonBlank p q h) (and_false (is_space_code (code c)))

pub NonBlank-append : (p q : Chars) → NonBlank p → NonBlank (p ++ q)
unfolding is_blank
NonBlank-append [] q h = ground arith
NonBlank-append (c ∷ p) q h = elim (Bool-cases (is_blank p)) [
  | inl blank ↦ rw (left_false (is_space_code (code c)) (is_blank p) h blank) refl
  | inr text ↦ rw (NonBlank-append p q text) (and_false (is_space_code (code c)))
]

group_lines-text :
    (p : Chars) (lines : List Chars)
    → flatten (group_lines p lines).units ++ (group_lines p lines).pending_blank_lines
      ≡ p ++ flatten lines
unfolding group_lines flatten
group_lines-text p [] = sym (append-nil p)
group_lines-text p (line ∷ lines) = elim (Bool-cases (is_blank line)) [
  | inl h ↦ rw h (group_lines-text (p ++ line) lines ∙ append_assoc p line (flatten lines))
  | inr h ↦ rw h (
      append_assoc (p ++ line) _ _
      ∙ ap (λ t. (p ++ line) ++ t) (group_lines-text [] lines)
      ∙ append_assoc p line (flatten lines))
]

group_lines-NonBlank : (p : Chars) (lines : List Chars) → All NonBlank (group_lines p lines).units
unfolding group_lines
group_lines-NonBlank p [] = tt
group_lines-NonBlank p (line ∷ lines) = elim (Bool-cases (is_blank line)) [
  | inl h ↦ rw h (group_lines-NonBlank (p ++ line) lines)
  | inr h ↦ rw h (append-NonBlank p line h, group_lines-NonBlank [] lines)
]

group_lines-blank :
    (p : Chars) (lines : List Chars)
    → is_blank p ≡ true
    → is_blank (group_lines p lines).pending_blank_lines ≡ true
unfolding group_lines is_blank
group_lines-blank p [] h = h
group_lines-blank p (line ∷ lines) h = elim (Bool-cases (is_blank line)) [
  | inl b ↦ rw b (group_lines-blank (p ++ line) lines (is_blank-append p line h ∙ b))
  | inr b ↦ rw b (group_lines-blank [] lines refl)
]

extend_last-NonBlank :
    (t x : Chars) (xs : List Chars) → All NonBlank (x ∷ xs) → All NonBlank (extend_last t (x ∷ xs))
extend_last-NonBlank t x [] (h, done) = (NonBlank-append x t h, tt)
extend_last-NonBlank t x (y ∷ ys) (h, hs) = (h, extend_last-NonBlank t y ys hs)

-- The units put together are the text, and none of them is blank.
abbrev pub Units : Chars → Result (List Chars) → Type 0
Units text m = (units : List Chars) × (m ≡ ok units) × (flatten units ≡ text) × All NonBlank units

close_units-Units :
    (text : Chars) (units : List Chars) (t : Chars)
    → NonBlank text
    → flatten units ++ t ≡ text
    → is_blank t ≡ true
    → All NonBlank units
    → Units text (close_units units t)
unfolding flatten
close_units-Units text units [] nb e b all =
    (units, refl, sym (append-nil (flatten units)) ∙ e, all)
close_units-Units text [] (c ∷ cs) nb e b all =
    let contra : true ≡ false = sym b ∙ ap is_blank e ∙ nb in ground arith
close_units-Units text (x ∷ xs) (c ∷ cs) nb e b all = (
  extend_last (c ∷ cs) (x ∷ xs),
  refl,
  extend_last-text (c ∷ cs) x xs ∙ e,
  extend_last-NonBlank (c ∷ cs) x xs all,
)

-- A text that is not blank is split into units that are not blank: the lines, each with the blank
-- lines before it and the last also with those behind it. The units put together are the text, and
-- the access to the last unit never fails.
pub lines_round_trip :
    (text : Chars) → NonBlank text → Units text (split_lines_without_blank_units text)
unfolding split_lines_without_blank_units is_blank
lines_round_trip text h = elim (Bool-cases (nonempty (split_lines text))) [
  | inl some_lines ↦ rw some_lines (
      close_units-Units text _ _ h (group_lines-text [] (split_lines text) ∙ split_lines-text text)
        (group_lines-blank [] (split_lines text) refl) (group_lines-NonBlank [] (split_lines text)))
  | inr none_at_all ↦ rw none_at_all (text ∷ [], refl, (unfold flatten in append-nil text), (h, tt))
]
