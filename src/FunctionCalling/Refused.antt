-- ===== src/FunctionCalling/Refused.antt =====
-- What the parts of the adapter raise.
use ecommerce_after_sales_sy.Prelude.{
  ◌≡◌, refl, ◌⊎◌, inl, inr, String, Bool, true, false, not, List, [], ◌∷◌, if◌then◌else◌, Option,
  none, some, ◌||◌,
}
use ecommerce_after_sales_sy.Python.Text.{strip, is_text}
use ecommerce_after_sales_sy.Python.Value.{
  ℤ, Value, Items, Fields, null, bool, int, float, str, arr, obj, nil, cons, end, field, find, get,
  is_dict, is_list, is_str, is_false,
}
use ecommerce_after_sales_sy.Python.Result.{
  Exn, Result, raise_if, value_error, type_error, function_calling_error, ◌>>=◌, ◌>>◌,
}
use ecommerce_after_sales_sy.Python.Ensures.{Raises, Ensures-bind, Ensures-if}
use ecommerce_after_sales_sy.Python.Runtime.{Runtime}
use ecommerce_after_sales_sy.FunctionCalling.Schema.{
  has_other, lacks, has_unknown, required, items_in, check_object, expects, is_scalar,
  validate_scalar, validate_value, validate_fields, validate_items,
}
use ecommerce_after_sales_sy.FunctionCalling.Message.{
  fields_of, text_of, or_protocol_error, first_choice, only_call, nonblank,
}
use ecommerce_after_sales_sy.FunctionCalling.Decide.{schema_for_name}

-- The adapter's own error, and the TypeError of a schema that requires a name that is no text.
abbrev pub Protocol : Exn → Type 0
Protocol e = (e ≡ function_calling_error) ⊎ (e ≡ type_error)

-- `json.loads` raises nothing but a ValueError.
abbrev pub IsValueError : Exn → Type 0
IsValueError e = (t : String) × (e ≡ value_error t)

pub own : Protocol function_calling_error
own = inl refl

pub chain :
    {A B : Type 0} (m : Result A) (f : A → Result B)
    → Raises Protocol m
    → ((a : A) → Raises Protocol (f a))
    → Raises Protocol (m >>= f)
chain m f h k = Ensures-bind Protocol m f (λ _. Unit) (λ _. Unit) h (λ a t. k a)

pub branch :
    {A : Type 0} (b : Bool) (m n : Result A)
    → Raises Protocol m
    → Raises Protocol n
    → Raises Protocol (if b then m else n)
branch b m n h k = Ensures-if Protocol b m n (λ _. Unit) (λ t. h) (λ f. k)

pub raise_if-Raises : (b : Bool) (e : Exn) → Protocol e → Raises Protocol (raise_if b e)
raise_if-Raises true e h = h
raise_if-Raises false e h = tt

pub guarded :
    {B : Type 0} (b : Bool) (m : Result B)
    → Raises Protocol m
    → Raises Protocol (raise_if b function_calling_error >> m)
guarded b m h =
    chain (raise_if b function_calling_error) (λ done. m) (raise_if-Raises b _ own) (λ done. h)

module _ {F : Type 0} where
  pub fields_of-Raises : (v : Value F) → Raises Protocol (fields_of v)
  fields_of-Raises (obj fs) = tt
  fields_of-Raises null = own
  fields_of-Raises (bool b) = own
  fields_of-Raises (int n) = own
  fields_of-Raises (float x) = own
  fields_of-Raises (str s) = own
  fields_of-Raises (arr xs) = own

  pub text_of-Raises : (v : Value F) → Raises Protocol (text_of v)
  text_of-Raises (str s) = tt
  text_of-Raises null = own
  text_of-Raises (bool b) = own
  text_of-Raises (int n) = own
  text_of-Raises (float x) = own
  text_of-Raises (obj fs) = own
  text_of-Raises (arr xs) = own

  pub nonblank-Raises : (v : Value F) → Raises Protocol (nonblank v)
  nonblank-Raises (str s) = branch (is_text (strip s)) _ _ tt own
  nonblank-Raises null = own
  nonblank-Raises (bool b) = own
  nonblank-Raises (int n) = own
  nonblank-Raises (float x) = own
  nonblank-Raises (obj fs) = own
  nonblank-Raises (arr xs) = own

  pub only_call-Raises : (v : Value F) → Raises Protocol (only_call v)
  only_call-Raises (arr nil) = own
  only_call-Raises (arr (cons (obj fs) nil)) = tt
  only_call-Raises (arr (cons (obj fs) (cons x xs))) = own
  only_call-Raises (arr (cons null xs)) = own
  only_call-Raises (arr (cons (bool b) xs)) = own
  only_call-Raises (arr (cons (int n) xs)) = own
  only_call-Raises (arr (cons (float x) xs)) = own
  only_call-Raises (arr (cons (str s) xs)) = own
  only_call-Raises (arr (cons (arr ys) xs)) = own
  only_call-Raises null = own
  only_call-Raises (bool b) = own
  only_call-Raises (int n) = own
  only_call-Raises (float x) = own
  only_call-Raises (str s) = own
  only_call-Raises (obj fs) = own

  or_protocol_error-Raises : (o : Option (Value F)) → Raises Protocol (or_protocol_error o)
  or_protocol_error-Raises (some v) = tt
  or_protocol_error-Raises none = own

  pub first_choice-Raises : (v : Value F) → Raises Protocol (first_choice v)
  unfolding first_choice
  first_choice-Raises (arr nil) = own
  first_choice-Raises (arr (cons (obj fs) xs)) = or_protocol_error-Raises (find "message" fs)
  first_choice-Raises (arr (cons null xs)) = own
  first_choice-Raises (arr (cons (bool b) xs)) = own
  first_choice-Raises (arr (cons (int n) xs)) = own
  first_choice-Raises (arr (cons (float x) xs)) = own
  first_choice-Raises (arr (cons (str s) xs)) = own
  first_choice-Raises (arr (cons (arr ys) xs)) = own
  first_choice-Raises null = own
  first_choice-Raises (bool b) = own
  first_choice-Raises (int n) = own
  first_choice-Raises (float x) = own
  first_choice-Raises (str s) = own
  first_choice-Raises (obj fs) = own

  pub schema_for_name-Raises :
      (name : String) (tools : List (Value F)) → Raises Protocol (schema_for_name name tools)
  unfolding schema_for_name
  schema_for_name-Raises name [] = own
  schema_for_name-Raises name (tool ∷ tools) =
      branch (is_str (get "name" (get "function" tool)) name) _ _
        (branch (is_dict (get "parameters" (get "function" tool))) _ _ tt own)
        (schema_for_name-Raises name tools)

  check_object-Raises : (s : Value F) (fs : Fields F) → Raises Protocol (check_object s fs)
  unfolding check_object
  check_object-Raises s fs =
      guarded (not (is_dict (get "properties" s)) || not (is_list (required s))) _ (
        chain (raise_if (has_other (items_in (required s))) type_error) _
          (raise_if-Raises _ _ (inr refl))
          (λ done. guarded (lacks fs (items_in (required s))) _ (
            guarded (not (is_false (get "additionalProperties" s))) _
              (raise_if-Raises (has_unknown (get "properties" s) fs) _ own))))

  module _ ⦃r : Runtime F⦄ (fits_float : ℤ → Bool) where
    validate_scalar-Raises : (v s : Value F) → Raises Protocol (validate_scalar fits_float v s)
    unfolding validate_scalar
    validate_scalar-Raises v s =
        branch (expects "object" s || expects "array" s) _ _ own
          (raise_if-Raises (not (is_scalar fits_float v s)) _ own)

    mutual
      unfolding validate_value

      pub validate_value-Raises : (v s : Value F) → Raises Protocol (validate_value fits_float v s)
      validate_value-Raises (obj fs) s =
          branch (expects "object" s) _ _
            (chain (check_object s fs) _ (check_object-Raises s fs)
              (λ done. validate_fields-Raises fs (get "properties" s)))
            (validate_scalar-Raises (obj fs) s)
      validate_value-Raises (arr xs) s =
          branch (expects "array" s) _ _
            (guarded (not (is_dict (get "items" s))) _ (validate_items-Raises xs (get "items" s)))
            (validate_scalar-Raises (arr xs) s)
      validate_value-Raises null s = validate_scalar-Raises null s
      validate_value-Raises (bool b) s = validate_scalar-Raises (bool b) s
      validate_value-Raises (int n) s = validate_scalar-Raises (int n) s
      validate_value-Raises (float x) s = validate_scalar-Raises (float x) s
      validate_value-Raises (str t) s = validate_scalar-Raises (str t) s

      validate_fields-Raises :
          (fs : Fields F) (p : Value F) → Raises Protocol (validate_fields fits_float fs p)
      validate_fields-Raises end p = tt
      validate_fields-Raises (field k v fs) p =
          chain
            (raise_if (not (is_dict (get k p))) function_calling_error
              >> validate_value fits_float v (get k p))
            _ (guarded (not (is_dict (get k p))) _ (validate_value-Raises v (get k p)))
            (λ done. validate_fields-Raises fs p)

      validate_items-Raises :
          (xs : Items F) (s : Value F) → Raises Protocol (validate_items fits_float xs s)
      validate_items-Raises nil s = tt
      validate_items-Raises (cons v xs) s =
          chain (validate_value fits_float v s) _ (validate_value-Raises v s)
            (λ done. validate_items-Raises xs s)
