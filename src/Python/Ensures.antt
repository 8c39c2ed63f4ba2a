-- ===== src/Python/Ensures.antt =====
-- A postcondition of a computation that may raise, with a condition on what it raises.
use ecommerce_after_sales_sy.Prelude.{
  ◌≡◌, refl, String, Option, none, some, Bool, true, false, if◌then◌else◌, Bool-cases, inl, inr,
  ◌||◌,
}
use ecommerce_after_sales_sy.Python.Value.{ℤ, Value, null, bool, int, float, str, arr, obj}
use ecommerce_after_sales_sy.Python.Result.{
  Result, Exn, value_error, type_error, overflow_error, ok, raise, raise_if, ◌>>=◌, ◌>>◌,
}
use ecommerce_after_sales_sy.Python.Runtime.{Runtime}
use ecommerce_after_sales_sy.Python.Convert
use ecommerce_after_sales_sy.Python.Convert.{truthy, iterate_or_empty, to_int}

-- What is returned satisfies `P`, and what is raised satisfies `E`.
abbrev pub Ensures {ℓ} : {A : Type ℓ} → (Exn → Type 0) → Result A → (A → Type 0) → Type 0
Ensures E (ok a) P = P a
Ensures E (raise e) P = E e

-- Nothing is said of the value.
abbrev pub Raises {ℓ} : {A : Type ℓ} → (Exn → Type 0) → Result A → Type 0
Raises E m = Ensures E m (λ _. Unit)

module _ (E : Exn → Type 0) where
  pub Ensures-bind {ℓ κ} :
      {A : Type ℓ} {B : Type κ} (m : Result A) (f : A → Result B) (Q : A → Type 0) (P : B → Type 0)
      → Ensures E m Q
      → ((a : A) → Q a → Ensures E (f a) P)
      → Ensures E (m >>= f) P
  Ensures-bind (ok a) f Q P q h = h a q
  Ensures-bind (raise e) f Q P q h = q

  pub Ensures-if {ℓ} :
      {A : Type ℓ} (b : Bool) (m n : Result A) (P : A → Type 0)
      → (b ≡ true → Ensures E m P)
      → (b ≡ false → Ensures E n P)
      → Ensures E (if b then m else n) P
  Ensures-if true m n P hm hn = hm refl
  Ensures-if false m n P hm hn = hn refl

  -- A test that may raise, in front of a computation.
  pub Ensures-guard :
      {A : Type 0} (b : Bool) (e : Exn) (m : Result A) (P : A → Type 0)
      → (b ≡ true → E e)
      → (b ≡ false → Ensures E m P)
      → Ensures E (raise_if b e >> m) P
  Ensures-guard true e m P he hm = he refl
  Ensures-guard false e m P he hm = hm refl

  -- The value is the one that is returned.
  pub Ensures-self : {A : Type 0} (m : Result A) → Raises E m → Ensures E m (λ a. m ≡ ok a)
  Ensures-self (ok a) h = refl
  Ensures-self (raise e) h = h

  -- From an equation with a returned value.
  pub Ensures-ok {ℓ} :
      {A : Type ℓ} (m : Result A) (P : A → Type 0) {a : A} → Ensures E m P → m ≡ ok a → P a
  Ensures-ok m P h e = rw e at h

-- What the conversions of dynamic values raise is a ValueError, a TypeError or, of `int`, an
-- OverflowError.
module _ {F : Type 0} ⦃r : Runtime F⦄ (E : Exn → Type 0) (value : (t : String) → E (value_error t))
    (type : E type_error) where
  pub iterate_or_empty-Raises : (v : Value F) → Raises E (iterate_or_empty v)
  iterate_or_empty-Raises v = elim (Bool-cases (truthy v)) [
    | inl h ↦ rw h (iterates v)
    | inr h ↦ rw h tt
  ]
    where
      iterates : (w : Value F) → Raises E (Convert.iterate w)
      iterates null = type
      iterates (bool b) = type
      iterates (int n) = type
      iterates (float x) = type
      iterates (str s) = tt
      iterates (arr xs) = tt
      iterates (obj fs) = tt

  pub to_int-Raises : E overflow_error → (v : Value F) → Raises E (to_int v)
  to_int-Raises overflow null = type
  to_int-Raises overflow (bool b) = tt
  to_int-Raises overflow (int n) = tt
  to_int-Raises overflow (float x) = converted (r.trunc x)
    where
      no_int-E :
          (b : Bool)
          → E (if b then overflow_error else value_error "cannot convert float NaN to integer")
      no_int-E true = overflow
      no_int-E false = value "cannot convert float NaN to integer"

      converted : (o : Option ℤ) → Raises E (Convert.int_of_float x o)
      converted (some n) = tt
      converted none = no_int-E (r.lt x r.nought || r.lt r.nought x)
  to_int-Raises overflow (str s) = parsed (r.parse_int s)
    where
      parsed : (o : Option ℤ) → Raises E (Convert.or_value_error o)
      parsed (some n) = tt
      parsed none = value "invalid literal for int()"
  to_int-Raises overflow (arr xs) = type
  to_int-Raises overflow (obj fs) = type
