-- ===== src/Python/Runtime.antt =====
-- What Python's interpreter supplies and no source of the repository defines: floats, the
-- parsing and printing of numbers, case mapping outside ASCII, and a digest of a JSON value.
use ecommerce_after_sales_sy.Prelude.{
  ℕ, Char, String, ◌≡◌, Bool, true, false, Option, List, if◌then◌else◌,
}
use ecommerce_after_sales_sy.Python.Value.{ℤ, Value}

pub record Runtime (F : Type 0) : Type 0 where
  pub nought : F
  pub one : F
  pub lt : F → F → Bool
  -- `sum(xs)`
  pub sum : List F → F
  pub mul : F → F → F
  -- `decimal n k` is the literal n / 10^k.
  pub decimal : ℕ → ℕ → F
  -- `round(x, 4)`
  pub round4 : F → F
  -- `x == 0.0`
  pub is_nought : F → Bool
  -- `float(n)`, and whether n is within the range of floats; where it is not, OverflowError is raised.
  pub of_int : ℤ → F
  pub fits_float : ℤ → Bool
  pub parse_float : String → Option F
  -- `int(x)` of a float and of a text; `none` where it raises.
  pub trunc : F → Option ℤ
  pub parse_int : String → Option ℤ
  -- `datetime.fromisoformat`: the instant of a text that is valid and carries an offset.
  pub instant : String → Option ℤ
  -- `a == b`
  pub equal : Value F → Value F → Bool
  -- `str(x)` of what is no text.
  pub repr : Value F → String
  -- `c.upper()`, `c.lower()` for c outside ASCII.
  pub other_upper : Char → String
  pub other_lower : Char → String
  -- `hashlib.sha256(json.dumps(x, sort_keys=True).encode()).hexdigest()`, and that of a text.
  pub digest : Value F → String
  pub digest_text : String → String

-- The facts about IEEE comparison that the proofs use; they hold of NaN too.
pub record IsOrdered (F : Type 0) ⦃r : Runtime F⦄ : Type 0 where
  pub trans : (x y z : F) → r.lt x y ≡ true → r.lt y z ≡ true → r.lt x z ≡ true
  pub asym : (x y : F) → r.lt x y ≡ true → r.lt y x ≡ false
  pub one_pos : r.lt r.nought r.one ≡ true

module _ {F : Type 0} ⦃r : Runtime F⦄ where
  -- `a < b`
  abbrev pub less : F → F → Bool
  less a b = r.lt a b

  -- `min(a, b)` and `max(a, b)` keep the first argument unless the second is beyond it.
  abbrev pub min : F → F → F
  min a b = if r.lt b a then b else a

  abbrev pub max : F → F → F
  max a b = if r.lt a b then b else a
