-- ===== src/Python/Result.antt =====
-- Exceptions as values.
use ecommerce_after_sales_sy.Prelude.{
  ◌≡◌, refl, ◌⊎◌, inl, inr, String, Bool, true, false, arith, if◌then◌else◌,
}

pub data Exn : Type 0 where
  value_error : String → Exn
  type_error : Exn
  key_error : String → Exn
  runtime_error : String → Exn
  circuit_open : Exn
  llm_error : Exn
  rag_rewrite_error : Exn
  index_error : Exn
  function_calling_error : Exn
  overflow_error : Exn

pub data Result {ℓ} (A : Type ℓ) : Type ℓ where
  ok : A → Result A
  raise : Exn → Result A

infixl 5 ◌>>=◌ ◌>>◌
-- What is raised skips the rest.
abbrev pub ◌>>=◌ {a b} : {X : Type a} {Y : Type b} (m : Result X) (k : X → Result Y) → Result Y
raise e >>= k = raise e
ok x >>= k = k x

-- `if test: raise e`
abbrev pub raise_if : Bool → Exn → Result (Unit {0})
raise_if true e = raise e
raise_if false e = ok tt

abbrev pub ◌>>◌ {a} : {X : Type a} (m : Result (Unit {0})) (next : Result X) → Result X
m >> next = m >>= (λ done. next)

pub >>=-eq-ok {a b} :
    {X : Type a} {Y : Type b} (m : Result X) (k : X → Result Y) {y : Y}
    → (m >>= k) ≡ ok y
    → (x : X) × (m ≡ ok x) × (k x ≡ ok y)
>>=-eq-ok (raise e) k h = ground arith
>>=-eq-ok (ok x) k h = (x, refl, h)

pub ok-injective {ℓ} : {A : Type ℓ} {a b : A} → ok a ≡ ok b → a ≡ b
ok-injective h = cc

pub Result-cases {ℓ} :
    {A : Type ℓ} (m : Result A) → ((a : A) × (m ≡ ok a)) ⊎ ((e : Exn) × (m ≡ raise e))
Result-cases (ok a) = inl (a, refl)
Result-cases (raise e) = inr (e, refl)

-- Where a computation behind a test returns, the test has not raised.
pub raised :
    {A : Type 0} (b : Bool) (e : Exn) {x : A} {m : Result A}
    → (raise_if b e >>= (λ done. m)) ≡ ok x
    → (b ≡ false) × (m ≡ ok x)
raised true e h = ground arith
raised false e h = (refl, h)

pub if_raise :
    {A : Type 0} (b : Bool) (e : Exn) (m : Result A) {x : A}
    → (if b then raise e else m) ≡ ok x
    → m ≡ ok x
if_raise true e m h = ground arith
if_raise false e m h = h

-- What both branches of a conditional give, where they return.
pub if_ok :
    {A G : Type 0} (test : Bool) (m k : Result A) {x : A}
    → (test ≡ true → m ≡ ok x → G)
    → (test ≡ false → k ≡ ok x → G)
    → (if test then m else k) ≡ ok x
    → G
if_ok true m k p q h = p refl h
if_ok false m k p q h = q refl h
