-- ===== src/Ingestion/Classify.antt =====
-- knowledge_ingestion/service.py: `_classify` and what it calls.
use Prim.Native.String.{◌++◌ as append}
use ecommerce_after_sales_sy.Prelude.{
  ℕ, suc, String, Bool, true, false, not, ◌&&◌, ◌||◌, Option, none, some, List, [], ◌∷◌, ◌++◌, any,
  keep, map, nonempty, is_some, if◌then◌else◌,
}
use ecommerce_after_sales_sy.Python.Text.{is_text, strip, join}
use ecommerce_after_sales_sy.Python.Value.{Value, str, arr, obj, end, get, elements}
use ecommerce_after_sales_sy.Python.Result.{Result, ok, raise_if, overflow_error, ◌>>=◌, ◌>>◌}
use ecommerce_after_sales_sy.Python.Runtime.{Runtime, min, max}
use ecommerce_after_sales_sy.Python.Convert.{truthy, text, text_or_empty, too_large, to_float}
use ecommerce_after_sales_sy.Ingestion.Models.{Chars, StructuredChunk}
use ecommerce_after_sales_sy.Ingestion.Tokens.{Unicode}
use ecommerce_after_sales_sy.Ingestion.Terms.{same_chars, trim, contains_term}

-- The code points of a text.
unfoldable pub chars_of : String → Chars
chars_of String.[] = []
chars_of (String.◌∷◌ c s) = c ∷ chars_of s

-- A dictionary with the keys product_categories, scenes and intents, in this order.
pub record Metadata (A : Type 0) : Type 0 where
  pub product_categories : A
  pub scenes : A
  pub intents : A

abbrev pub Suggestion : Type 0
Suggestion = Option (List Chars)

-- `values or None`
abbrev pub some_values : List Chars → Suggestion
some_values [] = none
some_values (v ∷ vs) = some (v ∷ vs)

abbrev pub contains_chars : List Chars → Chars → Bool
contains_chars xs c = any (same_chars c) xs

-- `_allowed_metadata`, where the values are texts
unfoldable pub allowed_metadata : Metadata (List Chars) → Metadata (List Chars)
unfolding trim
allowed_metadata raw = record {
  product_categories = keep nonempty (map trim raw.product_categories);
  scenes = keep nonempty (map trim raw.scenes);
  intents = keep nonempty (map trim raw.intents);
}

-- `_classification_source`
pub data Source : Type 0 where
  rule_and_model rule model unclassified : Source

-- What the model is asked; only the keys that are missing are there.
pub record ClassifyRequest : Type 0 where
  pub text : Chars
  pub heading_path : List String
  pub knowledge_type : String
  pub allowed_metadata : Metadata (Option (List Chars))

-- A draft; its text, heading path, page and metadata are those of the chunk.
pub record DraftChunk (F : Type 0) : Type 0 where
  pub chunk_index : ℕ
  pub chunk : StructuredChunk
  pub suggestions : Metadata Suggestion
  pub classification_source : Source
  pub classification_confidence : Option F
  pub classification_reason : Option String
  pub review_required : Bool

-- The suggestion for one key, and whether the model gave a value that is not allowed.
pub record Intersection : Type 0 where
  pub values : Suggestion
  pub unknown : Bool

abbrev pub is_missing : Suggestion → List Chars → Bool
is_missing rules allowed = not (is_some rules) && nonempty allowed

abbrev pub some_rule : Metadata Suggestion → Bool
some_rule m = is_some m.product_categories || is_some m.scenes || is_some m.intents

abbrev pub source_of : Bool → Bool → Source
source_of true true = rule_and_model
source_of true false = rule
source_of false true = model
source_of false false = unclassified

abbrev named : Suggestion → String → List String → List String
named none name rest = rest
named (some vs) name rest = name ∷ rest

abbrev used_keys : Metadata Suggestion → List String
used_keys m =
    named m.product_categories "product_categories"
      (named m.scenes "scenes" (named m.intents "intents" []))

abbrev matched_reason : List String → Option String
matched_reason [] = none
matched_reason (k ∷ ks) = some (append "matched allowed " (join ", " (k ∷ ks)))

module _ ⦃u : Unicode⦄ where
  -- `" ".join([*chunk.heading_path, chunk.text]).lower()`
  abbrev heading_text : List String → Chars → Chars
  heading_text [] text = text
  heading_text (h ∷ hs) text = chars_of h ++ " " ∷ heading_text hs text

  -- `_rule_suggestions`
  abbrev pub rule_values : Chars → List Chars → Suggestion
  rule_values text values = some_values (keep (contains_term text) values)

  unfoldable pub rule_suggestions : StructuredChunk → Metadata (List Chars) → Metadata Suggestion
  unfolding contains_term chars_of
  rule_suggestions chunk allowed =
      let text = u.lower (heading_text chunk.heading_path chunk.text) in
      record {
        product_categories = rule_values text allowed.product_categories;
        scenes = rule_values text allowed.scenes;
        intents = rule_values text allowed.intents;
      }

  -- `canonical.get(candidate)`: the last of the allowed values that are the same in lower case.
  unfoldable pub canonical : List Chars → Chars → Option Chars
  unfolding same_chars
  canonical [] candidate = none
  canonical (v ∷ vs) candidate = elim (canonical vs candidate) [
    | some w ↦ some w
    | none ↦ if same_chars (u.lower v) candidate then some v else none
  ]

  abbrev pub add_match : Option Chars → Intersection → Intersection
  add_match none r = record { values = r.values; unknown = true }
  add_match (some v) r = record {
    values = elim r.values [
      | none ↦ some (v ∷ [])
      | some vs ↦ some (if contains_chars vs v then vs else vs ++ v ∷ [])
    ];
    unknown = r.unknown;
  }

  module _ {F : Type 0} ⦃r : Runtime F⦄ where
    abbrev pub suggested : Value F → List (Value F)
    suggested (arr xs) = elements xs
    suggested (str s) = str s ∷ []
    suggested _ = []

    abbrev pub candidate : Value F → Chars
    candidate item = u.lower (chars_of (strip (text item)))

    unfoldable pub intersect_values : List Chars → List (Value F) → Intersection → Intersection
    unfolding canonical same_chars chars_of strip
    intersect_values allowed [] found = found
    intersect_values allowed (item ∷ items) found = intersect_values allowed items (
        if nonempty (candidate item)
        then add_match (canonical allowed (candidate item)) found
        else found)

    -- `_intersect_allowed`
    unfoldable pub intersect_allowed : Value F → List Chars → Intersection
    unfolding intersect_values
    intersect_allowed value allowed =
        intersect_values allowed (suggested value) (record { values = none; unknown = false })

    -- The rule's values, or those of the model.
    abbrev pub value_of : Suggestion → Value F → List Chars → Intersection
    value_of (some vs) value allowed = record { values = some vs; unknown = false }
    value_of none value allowed = intersect_allowed value allowed

    abbrev clamped : Option F → Option F
    clamped none = none
    clamped (some x) = some (min r.one (max r.nought x))

    -- `_confidence`, which does not catch the OverflowError of `float`
    abbrev confidence : Value F → Result (Option F)
    confidence value = do raise_if (too_large value) overflow_error; ok (clamped (to_float value))

    -- `self._confidence(model.get("confidence")) if model_available else None`
    abbrev pub answered_confidence : Value F → Result (Option F)
    answered_confidence answer =
        if truthy answer then confidence (get "confidence" answer) else ok none

    -- `_reason`
    abbrev pub reason_of : Metadata Suggestion → Value F → Option String
    reason_of rules answer =
        let reason = strip (text_or_empty (get "reason" answer)) in
        if is_text reason then some reason else matched_reason (used_keys rules)

    -- `except Exception`, and `isinstance(response, dict)`
    abbrev model_or_empty : Result (Value F) → Value F
    model_or_empty (ok (obj fs)) = obj fs
    model_or_empty _ = obj end

    module _ (classify : ClassifyRequest → Result (Value F)) (knowledge_type : String)
        (allowed : Metadata (List Chars)) where
      abbrev asked : Suggestion → List Chars → Option (List Chars)
      asked rules values = if is_missing rules values then some values else none

      abbrev any_missing : Metadata Suggestion → Bool
      any_missing rules =
          is_missing rules.product_categories allowed.product_categories
          || is_missing rules.scenes allowed.scenes
          || is_missing rules.intents allowed.intents

      -- `_classify_with_model`, where a key is missing
      unfoldable pub classify_with_model : StructuredChunk → Metadata Suggestion → Value F
      classify_with_model chunk rules =
          if any_missing rules
          then model_or_empty (
              classify (record {
                text = chunk.text;
                heading_path = chunk.heading_path;
                knowledge_type = knowledge_type;
                allowed_metadata = record {
                  product_categories = asked rules.product_categories allowed.product_categories;
                  scenes = asked rules.scenes allowed.scenes;
                  intents = asked rules.intents allowed.intents;
                };
              }))
          else obj end

      -- The draft, given its confidence.
      unfoldable pub draft_with :
          Option F → ℕ → StructuredChunk → Metadata Suggestion → Value F → DraftChunk F
      unfolding intersect_allowed strip join
      draft_with confidence index chunk rules answer =
          let categories =
            value_of rules.product_categories (get "product_categories" answer)
              allowed.product_categories in
          let scenes = value_of rules.scenes (get "scenes" answer) allowed.scenes in
          let intents = value_of rules.intents (get "intents" answer) allowed.intents in
          record {
            chunk_index = index;
            chunk = chunk;
            suggestions = record {
              product_categories = categories.values;
              scenes = scenes.values;
              intents = intents.values;
            };
            classification_source = source_of (some_rule rules) (truthy answer);
            classification_confidence = confidence;
            classification_reason = reason_of rules answer;
            review_required =
                (categories.unknown || scenes.unknown || intents.unknown)
                || not
                    (is_some categories.values && is_some scenes.values && is_some intents.values);
          }

      -- One round of the loop, from the rules and the model's answer on.
      unfoldable pub draft_of :
          ℕ → StructuredChunk → Metadata Suggestion → Value F → Result (DraftChunk F)
      unfolding draft_with
      draft_of index chunk rules answer = do
        confidence ← answered_confidence answer
        ok (draft_with confidence index chunk rules answer)

      -- What the model says of a chunk.
      abbrev pub answer_for : StructuredChunk → Value F
      answer_for chunk = classify_with_model chunk (rule_suggestions chunk allowed)

      unfoldable pub drafts_from : ℕ → List StructuredChunk → Result (List (DraftChunk F))
      unfolding rule_suggestions classify_with_model draft_of
      drafts_from index [] = ok []
      drafts_from index (chunk ∷ chunks) = do
        draft ← draft_of index chunk (rule_suggestions chunk allowed) (answer_for chunk)
        drafts ← drafts_from (suc index) chunks
        ok (draft ∷ drafts)

    -- `_classify`
    unfoldable pub classify_chunks :
        (ClassifyRequest → Result (Value F))
        → String
        → Metadata (List Chars)
        → List StructuredChunk
        → Result (List (DraftChunk F))
    unfolding allowed_metadata drafts_from
    classify_chunks classify knowledge_type raw chunks =
        drafts_from classify knowledge_type (allowed_metadata raw) 0 chunks
