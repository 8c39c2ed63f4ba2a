-- ===== src/Python/Value.antt =====
-- The values of decoded JSON, which the code handles as `Any`; `F` is the type of floats.
use ecommerce_after_sales_sy.Prelude.{
  ℕ, String, Bool, true, false, Option, none, some, List, [], ◌∷◌, str_eq, leb, not, if◌then◌else◌,
}

-- `negsuc n` is -(n + 1).
pub data ℤ : Type 0 where
  pos : ℕ → ℤ
  negsuc : ℕ → ℤ

mutual
  pub data Value (F : Type 0) : Type 0 where
    null : Value F
    bool : Bool → Value F
    int : ℤ → Value F
    float : F → Value F
    str : String → Value F
    arr : Items F → Value F
    obj : Fields F → Value F

  pub data Items (F : Type 0) : Type 0 where
    nil : Items F
    cons : Value F → Items F → Items F

  pub data Fields (F : Type 0) : Type 0 where
    end : Fields F
    field : String → Value F → Fields F → Fields F

module _ {F : Type 0} where
  -- A field's value, if the dictionary has the key.
  abbrev pub find : String → Fields F → Option (Value F)
  find k end = none
  find k (field j v r) = if str_eq j k then some v else find k r

  abbrev pub or_null : Option (Value F) → Value F
  or_null none = null
  or_null (some v) = v

  -- `value.get(k)` of a dictionary; nothing that is no dictionary is asked.
  abbrev pub get : String → Value F → Value F
  get k (obj fs) = or_null (find k fs)
  get k _ = null

  -- `value.get(k, d)`
  abbrev or_given : Option (Value F) → Value F → Value F
  or_given none d = d
  or_given (some v) d = v

  abbrev pub get_default : String → Value F → Value F → Value F
  get_default k (obj fs) d = or_given (find k fs) d
  get_default k _ d = d

  abbrev pub elements : Items F → List (Value F)
  elements nil = []
  elements (cons x r) = x ∷ elements r

  -- The rounds of `for item in value or []`.
  abbrev pub items : Value F → List (Value F)
  items (arr xs) = elements xs
  items _ = []

  abbrev pub is_dict : Value F → Bool
  is_dict (obj fs) = true
  is_dict _ = false

  abbrev pub is_list : Value F → Bool
  is_list (arr xs) = true
  is_list _ = false

  -- `value == t` of a text t
  abbrev pub is_str : Value F → String → Bool
  is_str (str s) t = str_eq s t
  is_str _ t = false

  -- `value is True`, `value is False`
  abbrev pub is_true : Value F → Bool
  is_true (bool b) = b
  is_true _ = false

  abbrev pub is_false : Value F → Bool
  is_false (bool b) = not b
  is_false _ = false

-- `a <= b`, `a < b`
abbrev pub le_ℤ : ℤ → ℤ → Bool
le_ℤ (pos a) (pos b) = leb a b
le_ℤ (pos a) (negsuc b) = false
le_ℤ (negsuc a) (pos b) = true
le_ℤ (negsuc a) (negsuc b) = leb b a

abbrev pub lt_ℤ : ℤ → ℤ → Bool
lt_ℤ a b = not (le_ℤ b a)
