-- ===== src/FunctionCalling/Schema.antt =====
-- `_validate_schema_value`. The messages of the errors, and the path in them, are left out.
use ecommerce_after_sales_sy.Prelude.{
  String, Bool, true, false, not, ◌&&◌, ◌||◌, is_some, if◌then◌else◌,
}
use ecommerce_after_sales_sy.Python.Value.{
  ℤ, Value, Items, Fields, null, bool, int, float, str, arr, obj, nil, cons, end, field, find, get,
  get_default, is_dict, is_list, is_str, is_false,
}
use ecommerce_after_sales_sy.Python.Result.{
  Result, ok, raise, raise_if, type_error, function_calling_error, ◌>>◌,
}
use ecommerce_after_sales_sy.Python.Runtime.{Runtime}

-- `raise FunctionCallingProtocolError(...)`
abbrev pub protocol_error : {A : Type 0} → Result A
protocol_error = raise function_calling_error

module _ {F : Type 0} where
  -- A name that is no text is in no object, and `', '.join(missing)` fails on it.
  unfoldable pub has_other : Items F → Bool
  has_other nil = false
  has_other (cons (str s) xs) = has_other xs
  has_other (cons x xs) = true

  unfoldable pub lacks : Fields F → Items F → Bool
  lacks fs nil = false
  lacks fs (cons (str s) xs) = not (is_some (find s fs)) || lacks fs xs
  lacks fs (cons x xs) = true

  -- `set(value) - set(properties)` is not empty.
  unfoldable pub has_unknown : Value F → Fields F → Bool
  has_unknown (obj ps) end = false
  has_unknown (obj ps) (field k v fs) = not (is_some (find k ps)) || has_unknown (obj ps) fs
  has_unknown v fs = true

  abbrev pub required : Value F → Value F
  required schema = get_default "required" schema (arr nil)

  abbrev pub items_in : Value F → Items F
  items_in (arr xs) = xs
  items_in v = nil

  -- The tests of an object before its fields.
  unfoldable pub check_object : Value F → Fields F → Result (Unit {0})
  unfolding has_other lacks has_unknown
  check_object schema fs = do
    raise_if (not (is_dict (get "properties" schema)) || not (is_list (required schema)))
        function_calling_error
    raise_if (has_other (items_in (required schema))) type_error
    raise_if (lacks fs (items_in (required schema))) function_calling_error
    raise_if (not (is_false (get "additionalProperties" schema))) function_calling_error
    raise_if (has_unknown (get "properties" schema) fs) function_calling_error

  abbrev pub is_text_value : Value F → Bool
  is_text_value (str s) = true
  is_text_value v = false

  abbrev pub is_bool_value : Value F → Bool
  is_bool_value (bool b) = true
  is_bool_value v = false

  abbrev pub is_null : Value F → Bool
  is_null null = true
  is_null v = false

  -- `schema.get("type") == name`
  abbrev pub expects : String → Value F → Bool
  expects name schema = is_str (get "type" schema) name

  module _ ⦃r : Runtime F⦄ (fits_float : ℤ → Bool) where
    -- `_is_finite_number` of a number; `fits_float n` says that n can be converted to a float.
    abbrev pub is_number : Value F → Bool
    is_number (int n) = fits_float n
    is_number (float x) = is_some (r.trunc x)
    is_number v = false

    abbrev pub is_integer : Value F → Bool
    is_integer (int n) = fits_float n
    is_integer v = false

    -- The types without parts.
    unfoldable pub is_scalar : Value F → Value F → Bool
    is_scalar v schema =
        if expects "string" schema
        then is_text_value v
        else if expects "boolean" schema
        then is_bool_value v
        else if expects "number" schema
        then is_number v
        else if expects "integer" schema
        then is_integer v
        else expects "null" schema && is_null v

    unfoldable pub validate_scalar : Value F → Value F → Result (Unit {0})
    unfolding is_scalar
    validate_scalar v schema =
        if expects "object" schema || expects "array" schema
        then protocol_error
        else raise_if (not (is_scalar v schema)) function_calling_error

    -- `_validate_schema_value`
    unfoldable mutual
      unfolding check_object validate_scalar

      pub validate_value : Value F → Value F → Result (Unit {0})
      validate_value (obj fs) schema =
          let children = validate_fields fs (get "properties" schema) in
          if expects "object" schema
          then check_object schema fs >> children
          else validate_scalar (obj fs) schema
      validate_value (arr xs) schema =
          let children = validate_items xs (get "items" schema) in
          if expects "array" schema
          then raise_if (not (is_dict (get "items" schema))) function_calling_error >> children
          else validate_scalar (arr xs) schema
      validate_value v schema = validate_scalar v schema

      pub validate_fields : Fields F → Value F → Result (Unit {0})
      validate_fields end properties = ok tt
      validate_fields (field k v fs) properties =
          let here = validate_value v (get k properties) in
          let rest = validate_fields fs properties in
          raise_if (not (is_dict (get k properties))) function_calling_error >> here >> rest

      pub validate_items : Items F → Value F → Result (Unit {0})
      validate_items nil schema = ok tt
      validate_items (cons v xs) schema =
          let here = validate_value v schema in let rest = validate_items xs schema in here >> rest
