-- ===== src/Ingestion/Allowed.antt =====
-- What is suggested for a chunk is allowed, and what is not known is reviewed.
use mathlib.Core.Path.{subst}
use ecommerce_after_sales_sy.Prelude.{
  ℕ, suc, ◌≡◌, refl, sym, ◌∙◌, ap, Bool-cases, inl, inr, String, Bool, true, false, not, ◌&&◌, ◌||◌,
  Option, none, some, List, [], ◌∷◌, ◌++◌, All, All-append, any, keep, map, is_some, nonempty,
  arith, if◌then◌else◌,
}
use ecommerce_after_sales_sy.Python.Value.{Value, get}
use ecommerce_after_sales_sy.Python.Result.{Exn, Result, overflow_error}
use ecommerce_after_sales_sy.Python.Ensures.{
  Ensures, Raises, Ensures-bind, Ensures-if, Ensures-guard,
}
use ecommerce_after_sales_sy.Python.Convert.{truthy, too_large}
use ecommerce_after_sales_sy.Python.Runtime.{Runtime}
use ecommerce_after_sales_sy.Ingestion.Models.{Chars, StructuredChunk}
use ecommerce_after_sales_sy.Ingestion.Tokens.{Unicode}
use ecommerce_after_sales_sy.Ingestion.Terms.{same_chars, contains_term}
use ecommerce_after_sales_sy.Ingestion.Classify.{
  Metadata, Suggestion, some_values, contains_chars, allowed_metadata, ClassifyRequest, DraftChunk,
  Intersection, rule_values, rule_suggestions, canonical, add_match, suggested, candidate,
  intersect_values, intersect_allowed, value_of, answered_confidence, draft_with, draft_of,
  answer_for, drafts_from, classify_chunks,
}

-- The value is one of the allowed ones.
abbrev pub IsAllowed : List Chars → Chars → Type 0
IsAllowed allowed v = contains_chars allowed v ≡ true

-- All the suggested values are allowed.
abbrev pub Within : List Chars → Suggestion → Type 0
Within allowed none = Unit
Within allowed (some vs) = All (IsAllowed allowed) vs

same_chars_refl : (c : Chars) → same_chars c c ≡ true
unfolding same_chars
same_chars_refl [] = refl
same_chars_refl (c ∷ cs) = let same = same_chars_refl cs in ground arith

All-weaken : (x : Chars) (xs vs : List Chars) → All (IsAllowed xs) vs → All (IsAllowed (x ∷ xs)) vs
All-weaken x xs [] h = tt
All-weaken x xs (v ∷ vs) (h, hs) = (ground arith, All-weaken x xs vs hs)

IsAllowed-self : (xs : List Chars) → All (IsAllowed xs) xs
IsAllowed-self [] = tt
IsAllowed-self (x ∷ xs) =
    let same = same_chars_refl x in (ground arith, All-weaken x xs xs (IsAllowed-self xs))

keep-All : (P : Chars → Type 0) (p : Chars → Bool) (xs : List Chars) → All P xs → All P (keep p xs)
keep-All P p [] h = tt
keep-All P p (x ∷ xs) (h, hs) = elim (Bool-cases (p x)) [
  | inl t ↦ rw t (h, keep-All P p xs hs)
  | inr f ↦ rw f (keep-All P p xs hs)
]

some_values-Within :
    (allowed vs : List Chars) → All (IsAllowed allowed) vs → Within allowed (some_values vs)
some_values-Within allowed [] h = tt
some_values-Within allowed (v ∷ vs) h = h

module _ ⦃u : Unicode⦄ where
  rule_values-Within :
      (text : Chars) (allowed : List Chars) → Within allowed (rule_values text allowed)
  rule_values-Within text allowed =
      some_values-Within allowed (keep (contains_term text) allowed)
        (keep-All (IsAllowed allowed) (contains_term text) allowed (IsAllowed-self allowed))

  or_kept : (a b : Bool) → b ≡ true → (a || b) ≡ true
  or_kept a b h = ground arith

  chosen : (b : Bool) (x v : Chars) → (if b then some x else none) ≡ some v → x ≡ v
  chosen true x v h = cc
  chosen false x v h = ground arith

  latest :
      (o : Option Chars) (x : Chars) (xs : List Chars) (c v : Chars)
      → canonical xs c ≡ o
      → (canonical xs c ≡ some v → IsAllowed xs v)
      → (elim o [ some w ↦ some w | none ↦ if same_chars (u.lower x) c then some x else none ])
        ≡ some v
      → IsAllowed (x ∷ xs) v
  latest (some w) x xs c v e ih h = or_kept (same_chars v x) _ (ih (e ∙ h))
  latest none x xs c v e ih h =
      let same : x ≡ v = chosen (same_chars (u.lower x) c) x v h in
      let found : same_chars v x ≡ true =
        subst (λ y. same_chars v y ≡ true) (sym same) (same_chars_refl v) in
      ground arith

  canonical-IsAllowed :
      (allowed : List Chars) (c v : Chars) → canonical allowed c ≡ some v → IsAllowed allowed v
  unfolding canonical
  canonical-IsAllowed [] c v h = ground arith
  canonical-IsAllowed (x ∷ xs) c v h =
      latest (canonical xs c) x xs c v refl (λ e. canonical-IsAllowed xs c v e) h

  add_match-Within :
      (allowed : List Chars) (o : Option Chars) (r : Intersection)
      → ((v : Chars) → o ≡ some v → IsAllowed allowed v)
      → Within allowed r.values
      → Within allowed (add_match o r).values
  add_match-Within allowed none r f h = h
  add_match-Within allowed (some v) r f h = added r.values h
    where
      added :
          (s : Suggestion)
          → Within allowed s
          → Within allowed (elim s [
            | none ↦ some (v ∷ [])
            | some vs ↦ some (if contains_chars vs v then vs else vs ++ v ∷ [])
          ])
      added none h' = (f v refl, tt)
      added (some vs) h' = elim (Bool-cases (contains_chars vs v)) [
        | inl known ↦ rw known h'
        | inr new ↦ rw new (All-append (IsAllowed allowed) vs (v ∷ []) h' (f v refl, tt))
      ]

  module _ {F : Type 0} ⦃r : Runtime F⦄ where
    intersect_values-Within :
        (allowed : List Chars) (items : List (Value F)) (found : Intersection)
        → Within allowed found.values
        → Within allowed (intersect_values allowed items found).values
    unfolding intersect_values
    intersect_values-Within allowed [] found h = h
    intersect_values-Within allowed (item ∷ items) found h =
        intersect_values-Within allowed items
          (if nonempty (candidate item)
            then add_match (canonical allowed (candidate item)) found
            else found)
          (entered (nonempty (candidate item)))
      where
        entered :
            (given : Bool)
            → Within allowed
                (if given
                  then add_match (canonical allowed (candidate item)) found
                  else found).values
        entered true =
            add_match-Within allowed (canonical allowed (candidate item)) found
              (canonical-IsAllowed allowed (candidate item)) h
        entered false = h

    intersect_allowed-Within :
        (value : Value F) (allowed : List Chars)
        → Within allowed (intersect_allowed value allowed).values
    unfolding intersect_allowed
    intersect_allowed-Within value allowed =
        intersect_values-Within allowed (suggested value)
          (record { values = none; unknown = false }) tt

    value_of-Within :
        (rules : Suggestion) (value : Value F) (allowed : List Chars)
        → Within allowed rules
        → Within allowed (value_of rules value allowed).values
    value_of-Within (some vs) value allowed h = h
    value_of-Within none value allowed h = intersect_allowed-Within value allowed

    -- The suggestions are allowed, and if one of them is missing, the draft is to be reviewed.
    abbrev pub Checked : Metadata (List Chars) → DraftChunk F → Type 0
    Checked allowed d =
        Within allowed.product_categories d.suggestions.product_categories
        × Within allowed.scenes d.suggestions.scenes
        × Within allowed.intents d.suggestions.intents
        × ((d.review_required
              || (is_some d.suggestions.product_categories
                  && is_some d.suggestions.scenes
                  && is_some d.suggestions.intents))
            ≡ true)

    module _ (classify : ClassifyRequest → Result (Value F)) (knowledge_type : String) where
      draft_with-Checked :
          (allowed : Metadata (List Chars)) (confidence : Option F) (index : ℕ)
          (chunk : StructuredChunk) (answer : Value F)
          → Checked allowed (
              draft_with classify knowledge_type allowed confidence index chunk
                (rule_suggestions chunk allowed)
                answer)
      unfolding draft_with rule_suggestions
      draft_with-Checked allowed confidence index chunk answer =
          let rules = rule_suggestions chunk allowed in
          let c =
            value_of rules.product_categories (get "product_categories" answer)
              allowed.product_categories in
          let s = value_of rules.scenes (get "scenes" answer) allowed.scenes in
          let i = value_of rules.intents (get "intents" answer) allowed.intents in
          (
            value_of-Within _ _ allowed.product_categories
                (rule_values-Within _ allowed.product_categories),
            value_of-Within _ _ allowed.scenes (rule_values-Within _ allowed.scenes),
            value_of-Within _ _ allowed.intents (rule_values-Within _ allowed.intents),
            reviewed (c.unknown || s.unknown || i.unknown)
                (is_some c.values && is_some s.values && is_some i.values),
          )
        where
          reviewed : (a b : Bool) → ((a || not b) || b) ≡ true
          reviewed a b = ground arith

      -- The model's answer for a chunk has a confidence that is an integer too large for a float.
      abbrev pub overstates : Metadata (List Chars) → StructuredChunk → Bool
      overstates allowed chunk =
          too_large (get "confidence" (answer_for classify knowledge_type allowed chunk))

      answered_confidence-Ensures :
          (E : Exn → Type 0) (answer : Value F)
          → (too_large (get "confidence" answer) ≡ true → E overflow_error)
          → Raises E (answered_confidence answer)
      answered_confidence-Ensures E answer h =
          Ensures-if E (truthy answer) _ _ (λ _. Unit)
            (λ _.
              Ensures-guard E (too_large (get "confidence" answer)) overflow_error _ (λ _. Unit) h
                (λ _. tt))
            (λ _. tt)

      -- One draft for each chunk, each of them checked.
      abbrev pub AllChecked :
          Metadata (List Chars) → List StructuredChunk → List (DraftChunk F) → Type 0
      AllChecked allowed chunks ds = All (Checked allowed) ds × (map (λ d. d.chunk) ds ≡ chunks)

      drafts_from-Checked :
          (E : Exn → Type 0) (allowed : Metadata (List Chars)) (index : ℕ)
          (chunks : List StructuredChunk)
          → (any (overstates allowed) chunks ≡ true → E overflow_error)
          → Ensures E
              (drafts_from classify knowledge_type allowed index chunks)
              (AllChecked allowed chunks)
      unfolding drafts_from draft_of draft_with
      drafts_from-Checked E allowed index [] h = (tt, refl)
      drafts_from-Checked E allowed index (chunk ∷ chunks) h =
          let answer = answer_for classify knowledge_type allowed chunk in
          let rules = rule_suggestions chunk allowed in
          Ensures-bind E (draft_of classify knowledge_type allowed index chunk rules answer) _
            (λ d. Checked allowed d × (d.chunk ≡ chunk)) (AllChecked allowed (chunk ∷ chunks))
            (Ensures-bind E (answered_confidence answer) _ (λ _. Unit)
              (λ d. Checked allowed d × (d.chunk ≡ chunk))
              (answered_confidence-Ensures E answer (λ t. h (rw t refl)))
              (λ c _. (draft_with-Checked allowed c index chunk answer, refl)))
            λ d checked.
              Ensures-bind E (drafts_from classify knowledge_type allowed (suc index) chunks) _
                (AllChecked allowed chunks) (AllChecked allowed (chunk ∷ chunks))
                (drafts_from-Checked E allowed (suc index) chunks
                  (λ t. h (later (overstates allowed chunk) t)))
                λ ds all. (
                  (checked.0, all.0),
                  ap (λ c. c ∷ map (λ d'. d'.chunk) ds) checked.1 ∙ ap (λ t. chunk ∷ t) all.1,
                )
        where
          later : (a : Bool) {b : Bool} → b ≡ true → (a || b) ≡ true
          later a t = ground arith

      -- Whatever the model answers or raises, there is one draft for each chunk, in their order; its
      -- suggestions are among the allowed values, and it is to be reviewed if one of them is missing.
      -- Only where the confidence of an answer is an integer beyond the range of floats, there may be
      -- no drafts, but the OverflowError of `float`; nothing else is raised.
      pub classify_chunks-Checked :
          (raw : Metadata (List Chars)) (chunks : List StructuredChunk)
          → Ensures
              (λ e. (e ≡ overflow_error) × (any (overstates (allowed_metadata raw)) chunks ≡ true))
              (classify_chunks classify knowledge_type raw chunks)
              (AllChecked (allowed_metadata raw) chunks)
      unfolding classify_chunks
      classify_chunks-Checked raw chunks =
          drafts_from-Checked _ (allowed_metadata raw) 0 chunks (λ t. (refl, t))
