-- ===== src/Ingestion/Parts.antt =====
-- The parts of `split_by_estimated_tokens`: their text, and their length.
use ecommerce_after_sales_sy.Prelude.{
  ℕ, zero, suc, ◌+◌, ◌≤◌, ◌<◌, ◌≡◌, refl, sym, ap, ◌∙◌, Char, false, ◌&&◌, ◌||◌, Bool-cases, inl,
  inr, List, [], ◌∷◌, ◌++◌, map, flatten, map-append, append-nil, append_assoc, flatten-append,
  take-append-drop, length-take-le, length-drop, length-append, length, take, drop, nonempty, All,
  All-append, ltb, ◌==◌, arith, if◌then◌else◌,
}
use ecommerce_after_sales_sy.Python.Result.{Result, ok}
use ecommerce_after_sales_sy.Ingestion.Models.{Chars}
use ecommerce_after_sales_sy.Ingestion.Tokens.{
  Unicode, SourceKind, whitespace, word, other, SourceUnit, source_kind, sticks, emit, begin_unit,
  take_character, units_from, source_units,
}
use ecommerce_after_sales_sy.Ingestion.Split.{
  slices, Current, nothing, flush, is_long, exceeds, append_unit, split_unit, split_units,
  split_by_estimated_tokens,
}

-- The text of units.
abbrev pub text_of : List SourceUnit → Chars
text_of us = flatten (map (λ u. u.text) us)

text_of-append : (us vs : List SourceUnit) → text_of (us ++ vs) ≡ text_of us ++ text_of vs
text_of-append us vs = ap flatten (map-append (λ w. w.text) us vs) ∙ flatten-append _ _

module _ ⦃u : Unicode⦄ where
  text_of-emit : (p : Chars) → text_of (emit p) ≡ p
  unfolding flatten
  text_of-emit [] = refl
  text_of-emit (c ∷ cs) = append-nil (c ∷ cs)

  begin_unit-text :
      (p : Chars) (k : SourceKind) (c : Char)
      → text_of (begin_unit p k c).emitted ++ (begin_unit p k c).pending ≡ p ++ c ∷ []
  unfolding flatten
  begin_unit-text p other c =
      append-nil _ ∙ text_of-append (emit p) _ ∙ ap (λ t. t ++ c ∷ []) (text_of-emit p)
  begin_unit-text p word c = ap (λ t. t ++ c ∷ []) (text_of-emit p)
  begin_unit-text p whitespace c = ap (λ t. t ++ c ∷ []) (text_of-emit p)

  take_character-text :
      (p : Chars) (k : SourceKind) (c : Char)
      → text_of (take_character p k c).emitted ++ (take_character p k c).pending ≡ p ++ c ∷ []
  unfolding take_character flatten
  take_character-text p k c = elim (Bool-cases (sticks (source_kind c) k)) [
    | inl h ↦ rw h
    | inr h ↦ rw h (begin_unit-text p (source_kind c) c)
  ]

  units_from-text :
      (p : Chars) (k : SourceKind) (cs : Chars) → text_of (units_from p k cs) ≡ p ++ cs
  unfolding units_from
  units_from-text p k [] = text_of-emit p ∙ sym (append-nil p)
  units_from-text p k (c ∷ cs) =
      let t = take_character p k c in
      text_of-append t.emitted (units_from t.pending t.pending_kind cs)
      ∙ ap (λ x. text_of t.emitted ++ x) (units_from-text t.pending t.pending_kind cs)
      ∙ sym (append_assoc (text_of t.emitted) t.pending cs)
      ∙ ap (λ x. x ++ cs) (take_character-text p k c)
      ∙ append_assoc p (c ∷ []) cs

  pub source_units-text : (text : Chars) → text_of (source_units text) ≡ text
  unfolding source_units
  source_units-text text = units_from-text [] other text

slices-text :
    (rounds n : ℕ) (xs : Chars) → length xs ≤ rounds → 0 < n → flatten (slices rounds n xs) ≡ xs
unfolding slices flatten
slices-text zero n [] le pos = refl
slices-text zero n (x ∷ xs) le pos = absurd (omega arith)
slices-text (suc rounds) n [] le pos = refl
slices-text (suc rounds) n (x ∷ xs) le pos =
    ap (λ t. take n (x ∷ xs) ++ t)
      (slices-text rounds n (drop n (x ∷ xs)) (omega (arith, length-drop n (x ∷ xs))) pos)
    ∙ take-append-drop n (x ∷ xs)

-- No part is longer than the limit.
abbrev pub Fit : ℕ → List Chars → Type 0
Fit n = All (λ p. length p ≤ n)

-- The computation returns parts of the text, none of which is longer than the limit.
abbrev pub Parts : ℕ → Chars → Result (List Chars) → Type 0
Parts n text m = (parts : List Chars) × (m ≡ ok parts) × (flatten parts ≡ text) × Fit n parts

slices-Fit : (rounds n : ℕ) (xs : Chars) → Fit n (slices rounds n xs)
unfolding slices
slices-Fit zero n xs = tt
slices-Fit (suc rounds) n [] = tt
slices-Fit (suc rounds) n (x ∷ xs) =
    (length-take-le n (x ∷ xs), slices-Fit rounds n (drop n (x ∷ xs)))

pub flush-text : (c : Current) → flatten (flush c) ≡ flatten c.units
unfolding flatten
flush-text c = go c.units
  where
    go : (us : List Chars) → flatten (if nonempty us then flatten us ∷ [] else []) ≡ flatten us
    go [] = refl
    go (x ∷ xs) = append-nil (flatten (x ∷ xs))

-- The characters that are counted are those of the units, and within the limit.
abbrev pub Counted : ℕ → Current → Type 0
Counted n c = (c.chars ≡ length (flatten c.units)) × (c.chars ≤ n)

module _ (t n : ℕ) (pos : 0 < n) where
  append_unit-text :
      (c : Current) (u : SourceUnit)
      → flatten (append_unit t n c u).units ≡ flatten c.units ++ u.text
  unfolding flatten
  append_unit-text c u =
      flatten-append c.units (u.text ∷ []) ∙ ap (λ x. flatten c.units ++ x) (append-nil u.text)

  pub split_unit-text :
      (c : Current) (u : SourceUnit)
      → flatten (split_unit t n c u).parts ++ flatten (split_unit t n c u).current.units
        ≡ flatten c.units ++ u.text
  unfolding split_unit flatten
  split_unit-text c u = elim (Bool-cases (is_long t n u)) [
    | inl long ↦ rw long (
        append-nil _
        ∙ flatten-append (flush c) (slices (length u.text) n u.text)
        ∙ ap (λ x. x ++ flatten (slices (length u.text) n u.text)) (flush-text c)
        ∙ ap (λ x. flatten c.units ++ x) (slices-text (length u.text) n u.text (omega arith) pos))
    | inr short ↦ elim (Bool-cases (exceeds t n c u)) [
      | inl full ↦
          rw (short, full)
            (ap (λ x. x ++ (u.text ++ [])) (flush-text c)
              ∙ ap (λ x. flatten c.units ++ x) (append-nil u.text))
      | inr room ↦ rw (short, room) (append_unit-text c u)
    ]
  ]

  room-le :
      (c : Current) (u : SourceUnit) (us : List Chars)
      → c.chars ≡ length (flatten us)
      → is_long t n u ≡ false
      → (nonempty us && (ltb t (c.tokens + u.tokens) || ltb n (c.chars + length u.text))) ≡ false
      → c.chars + length u.text ≤ n
  unfolding flatten
  room-le c u [] e short room = ground arith
  room-le c u (x ∷ xs) e short room = ground arith

  flush-Fit : (c : Current) → Counted n c → Fit n (flush c)
  flush-Fit c (e, le) = elim (Bool-cases (nonempty c.units)) [
    | inl h ↦ rw h (omega arith, tt)
    | inr h ↦ rw h tt
  ]

  split_unit-Fit :
      (c : Current) (u : SourceUnit)
      → Counted n c
      → Fit n (split_unit t n c u).parts × Counted n (split_unit t n c u).current
  unfolding split_unit flatten
  split_unit-Fit c u h = elim (Bool-cases (is_long t n u)) [
    | inl long ↦ rw long (
      All-append _ (flush c) _ (flush-Fit c h) (slices-Fit (length u.text) n u.text),
      (refl, omega arith),
    )
    | inr short ↦ elim (Bool-cases (exceeds t n c u)) [
      | inl full ↦
          rw (short, full)
            (flush-Fit c h, (omega (arith, ap length (append_unit-text nothing u)), ground arith))
      | inr room ↦
          rw (short, room)
            (
              tt,
              (
                omega (
                  arith,
                  ap length (append_unit-text c u),
                  length-append (flatten c.units) u.text,
                ),
                room-le c u c.units h.0 short room,
              ),
            )
    ]
  ]

  -- The unit is sliced, or its tokens are within the limit.
  abbrev pub Divisible : List SourceUnit → Type 0
  Divisible = All (λ u. (if is_long t n u then false else ltb t u.tokens) ≡ false)

  split_units-Parts :
      (c : Current) (us : List SourceUnit)
      → Counted n c
      → Divisible us
      → Parts n (flatten c.units ++ text_of us) (split_units t n c us)
  unfolding split_units flatten
  split_units-Parts c [] h d =
      (flush c, refl, flush-text c ∙ sym (append-nil (flatten c.units)), flush-Fit c h)
  split_units-Parts c (u ∷ us) h (d, ds) =
      let s = split_unit t n c u in
      let (fit, counted) = split_unit-Fit c u h in
      let (rest, returned, text, fits) = split_units-Parts s.current us counted ds in
      (
        s.parts ++ rest,
        rw (d, returned),
        flatten-append s.parts rest
            ∙ ap (λ x. flatten s.parts ++ x) text
            ∙ sym (append_assoc (flatten s.parts) (flatten s.current.units) (text_of us))
            ∙ ap (λ x. x ++ text_of us) (split_unit-text c u)
            ∙ append_assoc (flatten c.units) u.text (text_of us),
        All-append _ s.parts rest fit fits,
      )

  -- Where both limits are positive and each unit of the text is divisible, or within the limit of
  -- tokens, the splitting returns: its parts, put together, are the text, and none is longer than the
  -- limit of characters.
  pub split_round_trip :
      ⦃u : Unicode⦄ (text : Chars)
      → 0 < t
      → Divisible (source_units text)
      → Parts n text (split_by_estimated_tokens t n text)
  unfolding split_by_estimated_tokens flatten
  split_round_trip text some_tokens d =
      let zero_t : (t == 0) ≡ false = ground arith in
      let zero_n : (n == 0) ≡ false = ground arith in rw (zero_t, zero_n) (go text d)
    where
      go :
          (x : Chars)
          → Divisible (source_units x)
          → Parts n x (if nonempty x then split_units t n nothing (source_units x) else ok [])
      go [] ds = ([], refl, refl, tt)
      go (c ∷ cs) ds =
          let (parts, returned, text, fits) =
            split_units-Parts nothing (source_units (c ∷ cs)) (refl, omega arith) ds in
          (parts, returned, text ∙ source_units-text (c ∷ cs), fits)
