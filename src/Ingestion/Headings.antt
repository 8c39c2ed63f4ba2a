-- ===== src/Ingestion/Headings.antt =====
-- knowledge_ingestion/section_builder.py: `HeadingStack`.
use ecommerce_after_sales_sy.Prelude.{
  ℕ, ◌≤◌, ◌<◌, ◌≡◌, refl, ap, String, Bool, false, Bool-cases, inl, inr, List, [], ◌∷◌, ◌++◌, map,
  All, All-append, append-nil, keep, ltb, arith,
}
use ecommerce_after_sales_sy.Python.Text.{strip}

pub record Heading : Type 0 where
  pub level : ℕ
  pub title : String

abbrev pub HeadingStack : Type 0
HeadingStack = List Heading

-- `enter`, whose result is the `path` behind it
unfoldable pub enter : HeadingStack → ℕ → String → HeadingStack
unfolding strip
enter items level title =
    keep (λ item. ltb item.level level) items ++ record { level = level; title = strip title } ∷ []

abbrev pub path : HeadingStack → List String
path items = map (λ item. item.title) items

-- Headings that are entered one after the other.
unfoldable pub enter_all : HeadingStack → List Heading → HeadingStack
unfolding enter
enter_all items [] = items
enter_all items (h ∷ hs) = enter_all (enter items h.level h.title) hs

-- The levels grow strictly from the outermost heading to the innermost.
unfoldable pub Increasing : HeadingStack → Type 0
Increasing [] = Unit
Increasing (h ∷ hs) = All (λ k. h.level < k.level) hs × Increasing hs

keep-All :
    (P : Heading → Type 0) (p : Heading → Bool) (xs : List Heading) → All P xs → All P (keep p xs)
keep-All P p [] all = tt
keep-All P p (x ∷ xs) (h, all) = elim (Bool-cases (p x)) [
  | inl t ↦ rw t (h, keep-All P p xs all)
  | inr f ↦ rw f (keep-All P p xs all)
]

enter-Increasing :
    (items : HeadingStack) (level : ℕ) (title : String)
    → Increasing items
    → Increasing (enter items level title)
unfolding enter Increasing
enter-Increasing [] level title h = (tt, tt)
enter-Increasing (x ∷ xs) level title (below, h) = elim (Bool-cases (ltb x.level level)) [
  | inl t ↦ rw t (
    All-append (λ k. x.level < k.level) (keep (λ item. ltb item.level level) xs) _
        (keep-All (λ k. x.level < k.level) (λ item. ltb item.level level) xs below)
        (ground arith, tt),
    enter-Increasing xs level title h,
  )
  | inr f ↦ rw f (enter-Increasing xs level title h)
]

-- Whatever headings are entered, from a stack whose levels grow strictly, the levels grow strictly.
pub levels_increase :
    (items : HeadingStack) (hs : List Heading) → Increasing items → Increasing (enter_all items hs)
unfolding enter_all
levels_increase items [] h = h
levels_increase items (x ∷ xs) h =
    levels_increase (enter items x.level x.title) xs (enter-Increasing items x.level x.title h)

keep-keep :
    (a b : ℕ) (tail xs : List Heading)
    → a ≤ b
    → keep (λ item. ltb item.level a) (keep (λ item. ltb item.level b) xs ++ tail)
      ≡ keep (λ item. ltb item.level a) xs ++ keep (λ item. ltb item.level a) tail
keep-keep a b tail [] le = refl
keep-keep a b tail (x ∷ xs) le = elim (Bool-cases (ltb x.level b)) [
  | inl t ↦ elim (Bool-cases (ltb x.level a)) [
    | inl t' ↦ rw (t, t') (ap (λ ys. x ∷ ys) (keep-keep a b tail xs le))
    | inr f' ↦ rw (t, f') (keep-keep a b tail xs le)
  ]
  | inr f ↦ let f' : ltb x.level a ≡ false = ground arith in rw (f, f') (keep-keep a b tail xs le)
]

-- A heading that is entered behind one of the same level or a deeper one leaves no trace of it: the
-- stack is the same as without that one.
pub sibling_replaces :
    (items : HeadingStack) (level deeper : ℕ) (title former : String)
    → level ≤ deeper
    → enter (enter items deeper former) level title ≡ enter items level title
unfolding enter
sibling_replaces items level deeper title former le =
    let shut : ltb deeper level ≡ false = ground arith in
    rw
      (keep-keep level deeper (record { level = deeper; title = strip former } ∷ []) items le, shut)
      (ap (λ ys. ys ++ record { level = level; title = strip title } ∷ [])
        (append-nil (keep (λ item. ltb item.level level) items)))
