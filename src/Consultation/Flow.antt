-- ===== src/Consultation/Flow.antt =====
-- Computations that call the tool registry: they may raise, and the calls are kept, the last one
-- first.
use ecommerce_after_sales_sy.Prelude.{◌≡◌, refl, Bool, true, false, List, ◌∷◌, if◌then◌else◌}
use ecommerce_after_sales_sy.Python.Result.{Exn, Result, ok, raise}
use ecommerce_after_sales_sy.FormalReview.Contracts.{ToolResult}
use ecommerce_after_sales_sy.FormalReview.Workflow.Ports.{ToolCall, Tools}

abbrev pub Calls : Type 0 → Type 0
Calls F = List (ToolCall F)

abbrev pub Run : Type 0 → Type 0 → Type 0
Run F A = Calls F → Result A × Calls F

module _ {F : Type 0} where
  abbrev pub return : {A : Type 0} → A → Run F A
  return a calls = (ok a, calls)

  abbrev pub lift : {A : Type 0} → Result A → Run F A
  lift m calls = (m, calls)

  abbrev go_on : {A B : Type 0} → (A → Run F B) → Result A → Run F B
  go_on k (ok a) calls = k a calls
  go_on k (raise e) calls = (raise e, calls)

  infixl 5 ◌>>=◌
  abbrev pub ◌>>=◌ : {A B : Type 0} → Run F A → (A → Run F B) → Run F B
  (m >>= k) calls = go_on k (m calls).0 (m calls).1

  -- `self.tools.call(name, arguments)`
  abbrev pub call : Tools F → ToolCall F → Run F (ToolResult F)
  call tools c calls = (ok (tools calls c), c ∷ calls)

  -- What holds of a value that is returned, or else of what is raised, and of the calls then.
  abbrev pub After :
      {A : Type 0} → Result A × Calls F → (A → Calls F → Type 0) → (Exn → Calls F → Type 0) → Type 0
  After (ok a, calls) P E = P a calls
  After (raise e, calls) P E = E e calls

  abbrev pub Post :
      {A : Type 0} → Run F A → Calls F → (A → Calls F → Type 0) → (Exn → Calls F → Type 0) → Type 0
  Post m calls P E = After (m calls) P E

  module _ (E : Exn → Calls F → Type 0) where
    pub After-eq :
        {A : Type 0} (m : Result A × Calls F) (P : A → Calls F → Type 0) {a : A} {after : Calls F}
        → After m P E
        → m ≡ (ok a, after)
        → P a after
    After-eq m P h e = rw e at h

    pub Post-bind :
        {A B : Type 0} (m : Run F A) (k : A → Run F B) (calls : Calls F) (P : A → Calls F → Type 0)
        (Q : B → Calls F → Type 0)
        → Post m calls P E
        → ((a : A) (after : Calls F) → P a after → Post (k a) after Q E)
        → Post (m >>= k) calls Q E
    Post-bind {A = A} m k calls P Q h f = go (m calls) h
      where
        go : (o : Result A × Calls F) → After o P E → After (go_on k o.0 o.1) Q E
        go (ok a, after) p = f a after p
        go (raise e, after) p = p

    pub Post-if :
        {A : Type 0} (b : Bool) (m n : Run F A) (calls : Calls F) (P : A → Calls F → Type 0)
        → (b ≡ true → Post m calls P E)
        → (b ≡ false → Post n calls P E)
        → Post (if b then m else n) calls P E
    Post-if true m n calls P f g = f refl
    Post-if false m n calls P f g = g refl

    -- What is computed without a call goes on, or raises.
    pub Post-lift :
        {A B : Type 0} (m : Result A) (k : A → Run F B) (calls : Calls F) (Q : B → Calls F → Type 0)
        → ((e : Exn) → m ≡ raise e → E e calls)
        → ((a : A) → m ≡ ok a → Post (k a) calls Q E)
        → Post (lift m >>= k) calls Q E
    Post-lift (ok a) k calls Q h f = f a refl
    Post-lift (raise e) k calls Q h f = h e refl

  pub Post-weaken :
      {A : Type 0} (m : Run F A) (calls : Calls F) (P Q : A → Calls F → Type 0)
      (D E : Exn → Calls F → Type 0)
      → ((a : A) (after : Calls F) → P a after → Q a after)
      → ((e : Exn) (after : Calls F) → D e after → E e after)
      → Post m calls P D
      → Post m calls Q E
  Post-weaken {A = A} m calls P Q D E f g h = go (m calls) h
    where
      go : (o : Result A × Calls F) → After o P D → After o Q E
      go (ok a, after) p = f a after p
      go (raise e, after) p = g e after p
