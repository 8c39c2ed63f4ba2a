-- ===== src/FunctionCalling/Within.antt =====
-- What a valid value is, told from all the values within it.
use mathlib.Core.Path.{subst}
use ecommerce_after_sales_sy.Prelude.{
  ◌≡◌, refl, ◌⊎◌, inl, inr, String, Bool, true, false, not, ◌||◌, arith,
}
use ecommerce_after_sales_sy.Python.Value.{
  ℤ, Value, Items, Fields, null, bool, int, float, str, arr, obj, nil, cons, end, field, get,
  is_dict, is_false,
}
use ecommerce_after_sales_sy.Python.Result.{
  Exn, Result, ok, raise, raise_if, type_error, function_calling_error, ◌>>◌, if_ok,
}
use ecommerce_after_sales_sy.Python.Runtime.{Runtime}
use ecommerce_after_sales_sy.FunctionCalling.Schema.{
  lacks, has_unknown, required, items_in, check_object, expects, is_scalar, validate_scalar,
  validate_value, validate_fields, validate_items,
}

abbrev Ok : Result (Unit {0}) → Type 0
Ok m = m ≡ ok tt

both : (m n : Result (Unit {0})) → Ok (m >> n) → Ok m × Ok n
both (ok u) n h = (refl, h)
both (raise e) n h = ground arith

tested : (b : Bool) (e : Exn) → Ok (raise_if b e) → b ≡ false
tested true e h = ground arith
tested false e h = refl

unnegated : (b : Bool) → not b ≡ false → b ≡ true
unnegated true h = refl
unnegated false h = ground arith

module _ {F : Type 0} where
  pub HasField : String → Value F → Fields F → Type 0
  HasField k v end = ⊥
  HasField k v (field j w fs) = ((j ≡ k) × (w ≡ v)) ⊎ HasField k v fs

  pub HasItem : Value F → Items F → Type 0
  HasItem v nil = ⊥
  HasItem v (cons w xs) = (w ≡ v) ⊎ HasItem v xs

  -- `Within v s w t`: the value w stands within v, where the schema s gives the schema t.
  pub data Within : Value F → Value F → Value F → Value F → Type 0 where
    here : {v s : Value F} → Within v s v s
    in_field :
        (k : String) (v : Value F) {s w t : Value F} {fs : Fields F}
        → HasField k v fs
        → Within v (get k (get "properties" s)) w t
        → Within (obj fs) s w t
    in_item :
        (v : Value F) {s w t : Value F} {xs : Items F}
        → HasItem v xs
        → Within v (get "items" s) w t
        → Within (arr xs) s w t

  -- An object has the required fields, and none but the properties.
  abbrev pub FitsObject : Fields F → Value F → Type 0
  FitsObject fs t =
      (lacks fs (items_in (required t)) ≡ false)
      × (has_unknown (get "properties" t) fs ≡ false)
      × (is_false (get "additionalProperties" t) ≡ true)

  module _ ⦃r : Runtime F⦄ (fits_float : ℤ → Bool) where
    -- What the type that the schema names asks of the value itself.
    pub Fits : Value F → Value F → Type 0
    Fits (obj fs) t = (expects "object" t ≡ true) × FitsObject fs t
    Fits (arr xs) t = expects "array" t ≡ true
    Fits v t = is_scalar fits_float v t ≡ true

    not_scalar :
        (v t : Value F) → Ok (validate_scalar fits_float v t) → is_scalar fits_float v t ≡ true
    unfolding validate_scalar
    not_scalar v t h =
        if_ok (expects "object" t || expects "array" t) _ _ (λ p e. ground arith)
          (λ p e. ground (arith, tested (not (is_scalar fits_float v t)) function_calling_error e))
          h

    checked : (t : Value F) (fs : Fields F) → Ok (check_object t fs) → FitsObject fs t
    unfolding check_object
    checked t fs h =
        let (shape, h1) = both (raise_if _ function_calling_error) _ h in
        let (texts, h2) = both (raise_if _ type_error) _ h1 in
        let (all, h3) = both (raise_if _ function_calling_error) _ h2 in
        let (closed, known) = both (raise_if _ function_calling_error) _ h3 in
        (
          tested (lacks fs (items_in (required t))) _ all,
          tested (has_unknown (get "properties" t) fs) _ known,
          unnegated (is_false (get "additionalProperties" t))
              (tested _ function_calling_error closed),
        )

    valid-Fits : (v t : Value F) → Ok (validate_value fits_float v t) → Fits v t
    unfolding validate_value Fits is_scalar
    valid-Fits (obj fs) t h =
        if_ok (expects "object" t) _ _ (λ p e. (p, checked t fs (both (check_object t fs) _ e).0))
          (λ p e. ground (arith, not_scalar (obj fs) t e)) h
    valid-Fits (arr xs) t h =
        if_ok (expects "array" t) _ _ (λ p e. p) (λ p e. ground (arith, not_scalar (arr xs) t e)) h
    valid-Fits null t h = not_scalar null t h
    valid-Fits (bool b) t h = not_scalar (bool b) t h
    valid-Fits (int n) t h = not_scalar (int n) t h
    valid-Fits (float x) t h = not_scalar (float x) t h
    valid-Fits (str s) t h = not_scalar (str s) t h

    field-valid :
        (fs : Fields F) (p : Value F) (k : String) (v : Value F)
        → Ok (validate_fields fits_float fs p)
        → HasField k v fs
        → Ok (validate_value fits_float v (get k p))
    unfolding validate_value HasField
    field-valid end p k v h i = absurd i
    field-valid (field j w fs) p k v h i =
        let described = raise_if (not (is_dict (get j p))) function_calling_error in
        let (first, rest) =
          both (described >> validate_value fits_float w (get j p))
            (validate_fields fits_float fs p) h in
        let (known, at_once) = both described (validate_value fits_float w (get j p)) first in
        elim i [
          | inl (e, f) ↦
              subst (λ x. Ok (validate_value fits_float x (get k p))) f
                (subst (λ x. Ok (validate_value fits_float w (get x p))) e at_once)
          | inr later ↦ field-valid fs p k v rest later
        ]

    item-valid :
        (xs : Items F) (s v : Value F)
        → Ok (validate_items fits_float xs s)
        → HasItem v xs
        → Ok (validate_value fits_float v s)
    unfolding validate_value HasItem
    item-valid nil s v h i = absurd i
    item-valid (cons w xs) s v h i =
        let (at_once, rest) = both (validate_value fits_float w s) _ h in
        elim i [
          | inl f ↦ subst (λ x. Ok (validate_value fits_float x s)) f at_once
          | inr later ↦ item-valid xs s v rest later
        ]

    fields-valid :
        (fs : Fields F) (s : Value F)
        → Ok (validate_value fits_float (obj fs) s)
        → Ok (validate_fields fits_float fs (get "properties" s))
    unfolding validate_value is_scalar
    fields-valid fs s h =
        if_ok (expects "object" s) _ _ (λ p e. (both (check_object s fs) _ e).1)
          (λ p e. ground (arith, not_scalar (obj fs) s e)) h

    items-valid :
        (xs : Items F) (s : Value F)
        → Ok (validate_value fits_float (arr xs) s)
        → Ok (validate_items fits_float xs (get "items" s))
    unfolding validate_value is_scalar
    items-valid xs s h =
        if_ok (expects "array" s) _ _
          (λ p e. (both (raise_if (not (is_dict (get "items" s))) _) _ e).1)
          (λ p e. ground (arith, not_scalar (arr xs) s e)) h

    -- Where a value is valid, each value within it fits the schema that it is under.
    pub valid-all :
        (v s w t : Value F) → Within v s w t → Ok (validate_value fits_float v s) → Fits w t
    valid-all v s _ _ here h = valid-Fits v s h
    valid-all (obj fs) s w t (in_field k v i inside) h =
        valid-all v (get k (get "properties" s)) w t inside
          (field-valid fs (get "properties" s) k v (fields-valid fs s h) i)
    valid-all (arr xs) s w t (in_item v i inside) h =
        valid-all v (get "items" s) w t inside
          (item-valid xs (get "items" s) v (items-valid xs s h) i)
