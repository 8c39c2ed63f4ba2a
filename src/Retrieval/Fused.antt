-- ===== src/Retrieval/Fused.antt =====
-- The result of the fusion: no chunk comes twice, and the ranks count up.
use mathlib.Core.Path.{subst}
use ecommerce_after_sales_sy.Prelude.{
  ℕ, zero, suc, ◌≤◌, ◌≡◌, refl, sym, ap, ◌∙◌, Bool-cases, inl, inr, String, eq_iff, str_eq, Bool,
  true, false, List, [], ◌∷◌, map, take, length, length-take-le, ◌==◌, arith, if◌then◌else◌,
}
use ecommerce_after_sales_sy.Python.Text.{mem}
use ecommerce_after_sales_sy.Python.Value.{Value}
use ecommerce_after_sales_sy.Python.Result.{ok, >>=-eq-ok, ok-injective, if_ok}
use ecommerce_after_sales_sy.Python.Runtime.{Runtime}
use ecommerce_after_sales_sy.Retrieval.Rrf.{
  FusedItem, fresh_item, chunk_id, update_item, count_rank, merge_hit, merge_ranking,
  merge_rankings, comes_before, insert_item, sort_items, number_items, rrf_fuse_rankings,
}

-- No text comes twice.
pub NoRepeat : List String → Type 0
NoRepeat [] = Unit
NoRepeat (x ∷ xs) = (mem x xs ≡ false) × NoRepeat xs

-- The numbers from one on.
pub numbers : ℕ → ℕ → List ℕ
numbers from zero = []
numbers from (suc n) = from ∷ numbers (suc from) n

str_eq-sym-false : (x y : String) → str_eq x y ≡ false → str_eq y x ≡ false
str_eq-sym-false x y h = elim (Bool-cases (str_eq y x)) [
  | inl same ↦
      let back : str_eq x y ≡ true = (eq_iff x y).1 (sym ((eq_iff y x).0 same)) in
      absurd (ground arith)
  | inr other ↦ other
]

module _ {F : Type 0} ⦃r : Runtime F⦄ where
  abbrev pub keys_of : List (FusedItem F) → List String
  keys_of xs = map (λ x. x.key) xs

  -- A key that is not among the items is still not, unless it is the one that is added.
  mem-update_item :
      (f : FusedItem F → FusedItem F) (same : (y : FusedItem F) → (f y).key ≡ y.key)
      (item : FusedItem F) (k : String) (xs : List (FusedItem F))
      → str_eq k item.key ≡ false
      → mem k (keys_of xs) ≡ false
      → mem k (keys_of (update_item f item xs)) ≡ false
  unfolding mem update_item
  mem-update_item f same item k [] new h = rw (same item, new) refl
  mem-update_item f same item k (x ∷ xs) new h = elim (Bool-cases (str_eq x.key item.key)) [
    | inl found ↦ rw (found, same x) h
    | inr other ↦
        let apart : str_eq k x.key ≡ false = ground arith in
        rw (other, apart) (mem-update_item f same item k xs new (ground arith))
  ]

  update_item-NoRepeat :
      (f : FusedItem F → FusedItem F) (same : (y : FusedItem F) → (f y).key ≡ y.key)
      (item : FusedItem F) (xs : List (FusedItem F))
      → NoRepeat (keys_of xs)
      → NoRepeat (keys_of (update_item f item xs))
  unfolding update_item NoRepeat mem
  update_item-NoRepeat f same item [] h = (refl, tt)
  update_item-NoRepeat f same item (x ∷ xs) (new, h) = elim (Bool-cases (str_eq x.key item.key)) [
    | inl found ↦ rw (found, same x) (new, h)
    | inr other ↦
        rw other
          (mem-update_item f same item x.key xs other new, update_item-NoRepeat f same item xs h)
  ]

  mem-insert_item :
      (k : String) (x : FusedItem F) (ys : List (FusedItem F))
      → str_eq k x.key ≡ false
      → mem k (keys_of ys) ≡ false
      → mem k (keys_of (insert_item x ys)) ≡ false
  unfolding mem insert_item
  mem-insert_item k x [] new h = rw new refl
  mem-insert_item k x (y ∷ ys) new h = elim (Bool-cases (comes_before x y)) [
    | inl first ↦ rw (first, new) h
    | inr later ↦
        let apart : str_eq k y.key ≡ false = ground arith in
        rw (later, apart) (mem-insert_item k x ys new (ground arith))
  ]

  insert_item-NoRepeat :
      (x : FusedItem F) (ys : List (FusedItem F))
      → mem x.key (keys_of ys) ≡ false
      → NoRepeat (keys_of ys)
      → NoRepeat (keys_of (insert_item x ys))
  unfolding insert_item NoRepeat mem
  insert_item-NoRepeat x [] new h = (refl, tt)
  insert_item-NoRepeat x (y ∷ ys) new (apart, h) = elim (Bool-cases (comes_before x y)) [
    | inl first ↦ rw first (new, (apart, h))
    | inr later ↦
        let other : str_eq x.key y.key ≡ false = ground arith in
        rw later (
          mem-insert_item y.key x ys (str_eq-sym-false x.key y.key other) apart,
          insert_item-NoRepeat x ys (ground arith) h,
        )
  ]

  mem-sort_items :
      (k : String) (xs : List (FusedItem F))
      → mem k (keys_of xs) ≡ false
      → mem k (keys_of (sort_items xs)) ≡ false
  unfolding mem sort_items
  mem-sort_items k [] h = refl
  mem-sort_items k (x ∷ xs) h =
      mem-insert_item k x (sort_items xs) (ground arith) (mem-sort_items k xs (ground arith))

  sort_items-NoRepeat :
      (xs : List (FusedItem F)) → NoRepeat (keys_of xs) → NoRepeat (keys_of (sort_items xs))
  unfolding sort_items NoRepeat
  sort_items-NoRepeat [] h = tt
  sort_items-NoRepeat (x ∷ xs) (new, h) =
      insert_item-NoRepeat x (sort_items xs) (mem-sort_items x.key xs new)
        (sort_items-NoRepeat xs h)

  mem-take :
      (k : String) (n : ℕ) (xs : List (FusedItem F))
      → mem k (keys_of xs) ≡ false
      → mem k (keys_of (take n xs)) ≡ false
  unfolding mem
  mem-take k zero xs h = refl
  mem-take k (suc n) [] h = refl
  mem-take k (suc n) (x ∷ xs) h =
      let apart : str_eq k x.key ≡ false = ground arith in rw apart (mem-take k n xs (ground arith))

  take-NoRepeat :
      (n : ℕ) (xs : List (FusedItem F)) → NoRepeat (keys_of xs) → NoRepeat (keys_of (take n xs))
  unfolding NoRepeat
  take-NoRepeat zero xs h = tt
  take-NoRepeat (suc n) [] h = tt
  take-NoRepeat (suc n) (x ∷ xs) (new, h) = (mem-take x.key n xs new, take-NoRepeat n xs h)

  number_items-keys : (n : ℕ) (xs : List (FusedItem F)) → keys_of (number_items n xs) ≡ keys_of xs
  unfolding number_items
  number_items-keys n [] = refl
  number_items-keys n (x ∷ xs) = ap (λ t. x.key ∷ t) (number_items-keys (suc n) xs)

  number_items-ranks :
      (n : ℕ) (xs : List (FusedItem F))
      → map (λ x. x.rank) (number_items n xs) ≡ numbers n (length xs)
  unfolding number_items numbers
  number_items-ranks n [] = refl
  number_items-ranks n (x ∷ xs) = ap (λ t. n ∷ t) (number_items-ranks (suc n) xs)

  length-number_items : (n : ℕ) (xs : List (FusedItem F)) → length (number_items n xs) ≡ length xs
  unfolding number_items
  length-number_items n [] = refl
  length-number_items n (x ∷ xs) = ap suc (length-number_items (suc n) xs)

  module _ (add : F → F → F) (reciprocal : ℕ → F) (k : ℕ) where
    merge_ranking-NoRepeat :
        (query : ℕ) (hits : List (Value F)) (seen : List String) (rank : ℕ)
        (merged next : List (FusedItem F))
        → NoRepeat (keys_of merged)
        → merge_ranking add reciprocal k query seen rank hits merged ≡ ok next
        → NoRepeat (keys_of next)
    unfolding merge_ranking
    merge_ranking-NoRepeat query [] seen rank merged next h e =
        subst (λ x. NoRepeat (keys_of x)) (ok-injective e) h
    merge_ranking-NoRepeat query (hit ∷ hits) seen rank merged next h e =
        let (key, found, e') = >>=-eq-ok (chunk_id hit) _ e in
        merge_ranking-NoRepeat query hits (if mem key seen then seen else key ∷ seen)
          (if mem key seen then rank else suc rank)
          (if mem key seen
            then merged
            else merge_hit add reciprocal k query (suc rank) key hit merged)
          next (updated (mem key seen) key) e'
      where
        updated :
            (again : Bool) (key : String)
            → NoRepeat (
                keys_of (
                  if again
                  then merged
                  else merge_hit add reciprocal k query (suc rank) key hit merged))
        updated true key = h
        updated false key =
            update_item-NoRepeat (count_rank add reciprocal k query (suc rank)) (λ y. refl)
              (fresh_item key hit) merged h

    merge_rankings-NoRepeat :
        (query : ℕ) (rankings : List (List (Value F))) (merged next : List (FusedItem F))
        → NoRepeat (keys_of merged)
        → merge_rankings add reciprocal k query rankings merged ≡ ok next
        → NoRepeat (keys_of next)
    unfolding merge_rankings
    merge_rankings-NoRepeat query [] merged next h e =
        subst (λ x. NoRepeat (keys_of x)) (ok-injective e) h
    merge_rankings-NoRepeat query (hits ∷ rankings) merged next h e =
        let (one, first, e') =
          >>=-eq-ok (merge_ranking add reciprocal k query [] 0 hits merged) _ e in
        merge_rankings-NoRepeat (suc query) rankings one next
          (merge_ranking-NoRepeat query hits [] 0 merged one h first) e'

    -- A fusion that returns has at most as many items as the limit. No chunk comes twice, and the ranks
    -- are one, two and so on.
    pub fusion_ranks_once :
        (limit : ℕ) (rankings : List (List (Value F))) (fused : List (FusedItem F))
        → rrf_fuse_rankings add reciprocal k limit rankings ≡ ok fused
        → (length fused ≤ limit)
          × NoRepeat (keys_of fused)
          × (map (λ x. x.rank) fused ≡ numbers 1 (length fused))
    unfolding rrf_fuse_rankings NoRepeat numbers
    fusion_ranks_once limit rankings fused h =
        if_ok (limit == 0) _ _
          (λ none_wanted e.
            subst
              (λ x.
                (length x ≤ limit)
                × NoRepeat (keys_of x)
                × (map (λ y. y.rank) x ≡ numbers 1 (length x)))
              (ok-injective e) (omega arith, tt, refl))
          (λ some_wanted e.
            let (merged, returned, e') =
              >>=-eq-ok (merge_rankings add reciprocal k 1 rankings []) _ e in
            let first = take limit (sort_items merged) in
            subst
              (λ x.
                (length x ≤ limit)
                × NoRepeat (keys_of x)
                × (map (λ y. y.rank) x ≡ numbers 1 (length x)))
              (ok-injective e')
              (
                omega
                    (arith, length-number_items 1 first, length-take-le limit (sort_items merged)),
                subst NoRepeat (sym (number_items-keys 1 first)) (
                    take-NoRepeat limit (sort_items merged) (
                      sort_items-NoRepeat merged
                        (merge_rankings-NoRepeat 1 rankings [] merged tt returned))),
                number_items-ranks 1 first ∙ ap (numbers 1) (sym (length-number_items 1 first)),
              ))
          h
