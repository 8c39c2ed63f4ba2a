-- ===== src/Python/Convert.antt =====
-- Conversions of dynamic values: truth, `str`, `float`, `int`, iteration, `upper` and `lower`.
use Prim.Native.String.{◌++◌ as append}
use ecommerce_after_sales_sy.Prelude.{
  Char, code, String, Bool, true, false, not, ◌||◌, Option, none, some, List, [], ◌∷◌, ◌==◌, ltb,
  if◌then◌else◌,
}
use ecommerce_after_sales_sy.Python.Text.{is_text}
use ecommerce_after_sales_sy.Python.Value.{
  ℤ, pos, negsuc, Value, null, bool, int, float, str, arr, obj, Items, nil, cons, Fields, end,
  field, elements,
}
use ecommerce_after_sales_sy.Python.Result.{
  Exn, Result, ok, raise, value_error, type_error, overflow_error,
}
use ecommerce_after_sales_sy.Python.Runtime.{Runtime}

-- One step of a case mapping: `from` and `to` are walked together.
map_char : String → String → Char → Option Char
map_char String.[] to c = none
map_char (String.◌∷◌ a from) String.[] c = none
map_char (String.◌∷◌ a from) (String.◌∷◌ b to) c =
    if code a == code c then some b else map_char from to c

cased : (Char → String) → Char → Option Char → String
cased other c (some d) = String.◌∷◌ d String.[]
cased other c none = if ltb (code c) 128 then String.◌∷◌ c String.[] else other c

recase : String → String → (Char → String) → String → String
unfolding map_char cased
recase from to other String.[] = String.[]
recase from to other (String.◌∷◌ c s) =
    append (cased other c (map_char from to c)) (recase from to other s)

unfoldable pub upper : (Char → String) → String → String
unfolding recase
upper other s = recase "abcdefghijklmnopqrstuvwxyz" "ABCDEFGHIJKLMNOPQRSTUVWXYZ" other s

unfoldable pub lower : (Char → String) → String → String
unfolding recase
lower other s = recase "ABCDEFGHIJKLMNOPQRSTUVWXYZ" "abcdefghijklmnopqrstuvwxyz" other s

-- `text or None`
abbrev pub nonblank : String → Option String
nonblank s = if is_text s then some s else none

abbrev pub or_value_error : Option ℤ → Result ℤ
or_value_error (some n) = ok n
or_value_error none = raise (value_error "invalid literal for int()")

module _ {F : Type 0} ⦃r : Runtime F⦄ where
  -- `bool(v)`
  abbrev pub truthy : Value F → Bool
  truthy null = false
  truthy (bool b) = b
  truthy (int (pos n)) = not (n == 0)
  truthy (int (negsuc n)) = true
  truthy (float x) = not (r.is_nought x)
  truthy (str s) = is_text s
  truthy (arr nil) = false
  truthy (arr (cons x xs)) = true
  truthy (obj end) = false
  truthy (obj (field k v fs)) = true

  -- `a or b`
  abbrev pub or_else : Value F → Value F → Value F
  or_else a b = if truthy a then a else b

  -- `str(v)`
  abbrev pub text : Value F → String
  text (str s) = s
  text v = r.repr v

  -- `str(v or "")`
  abbrev pub text_or_empty : Value F → String
  text_or_empty v = if truthy v then text v else ""

  -- `float(v)` raises OverflowError.
  abbrev pub too_large : Value F → Bool
  too_large (int n) = not (r.fits_float n)
  too_large _ = false

  -- `float(v)` of what is not too large; `none` where it raises TypeError or ValueError.
  abbrev pub to_float : Value F → Option F
  to_float (bool b) = some (if b then r.one else r.nought)
  to_float (int n) = some (r.of_int n)
  to_float (float x) = some x
  to_float (str s) = r.parse_float s
  to_float _ = none

  -- What `int(x)` raises where it has no value: x is infinite, or no number.
  abbrev pub no_int : F → Exn
  no_int x =
      if r.lt x r.nought || r.lt r.nought x
      then overflow_error
      else value_error "cannot convert float NaN to integer"

  abbrev pub int_of_float : F → Option ℤ → Result ℤ
  int_of_float x (some n) = ok n
  int_of_float x none = raise (no_int x)

  -- `int(v)`
  abbrev pub to_int : Value F → Result ℤ
  to_int (bool b) = ok (pos (if b then 1 else 0))
  to_int (int n) = ok n
  to_int (float x) = int_of_float x (r.trunc x)
  to_int (str s) = or_value_error (r.parse_int s)
  to_int _ = raise type_error

  abbrev chars : String → List (Value F)
  chars String.[] = []
  chars (String.◌∷◌ c s) = str (String.◌∷◌ c String.[]) ∷ chars s

  abbrev keys : Fields F → List (Value F)
  keys end = []
  keys (field k v fs) = str k ∷ keys fs

  -- `for item in v`
  abbrev pub iterate : Value F → Result (List (Value F))
  iterate (str s) = ok (chars s)
  iterate (arr xs) = ok (elements xs)
  iterate (obj fs) = ok (keys fs)
  iterate _ = raise type_error

  -- `for item in v or []`
  abbrev pub iterate_or_empty : Value F → Result (List (Value F))
  iterate_or_empty v = if truthy v then iterate v else ok []

-- `xs` as a list value.
abbrev pub items_of : {F : Type 0} → List (Value F) → Items F
items_of [] = nil
items_of (x ∷ xs) = cons x (items_of xs)
