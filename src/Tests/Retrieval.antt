-- ===== src/Tests/Retrieval.antt =====
-- The plans of one context, and the fusion of two rankings.
use ecommerce_after_sales_sy.Prelude.{
  ℕ, ◌+◌, ◌/◌, ◌≤◌, ◌≡◌, refl, none, some, List, [], ◌∷◌, map, length, All,
}
use ecommerce_after_sales_sy.Python.Text.{mem}
use ecommerce_after_sales_sy.Python.Value.{Value, str, obj, end, field}
use ecommerce_after_sales_sy.Python.Result.{ok}
use ecommerce_after_sales_sy.Retrieval.Filters.{FilterContext, build_filter_plans}
use ecommerce_after_sales_sy.Retrieval.Plans.{Safe, build_filter_plans-Safe}
use ecommerce_after_sales_sy.Retrieval.Rrf.{
  FusedItem, rrf_fuse_rankings, merge_rankings, merge_ranking, update_item, sort_items, insert_item,
  number_items,
}
use ecommerce_after_sales_sy.Retrieval.Fused.{NoRepeat, numbers, keys_of, fusion_ranks_once}
use ecommerce_after_sales_sy.Tests.Demo.{demo}

abbrev context : FilterContext ℕ
context = record {
  merchant_code = "m1";
  source_type = some "refund_policy";
  policy_version = none;
  as_of_time = 5;
  product_category = some "phone";
  scene = some "return";
  intent = some "refund";
}

build_filter_plans-Safe_example : All (Safe context) (build_filter_plans context)
build_filter_plans-Safe_example = build_filter_plans-Safe context

abbrev hit : Value ℕ
hit = obj (field "chunk_id" (str "c1") end)

abbrev other : Value ℕ
other = obj (field "chunk_id" (str "c2") end)

abbrev plus : ℕ → ℕ → ℕ
plus a b = a + b

abbrev reciprocal : ℕ → ℕ
reciprocal n = 10000 / n

abbrev fused : List (FusedItem ℕ)
fused =
    record {
      key = "c2";
      hit = other;
      rrf_score = 324;
      query_channels = 1 ∷ 2 ∷ [];
      query_ranks = (1, 2) ∷ (2, 1) ∷ [];
      rank = 1;
    }
    ∷ record {
      key = "c1";
      hit = hit;
      rrf_score = 163;
      query_channels = 1 ∷ [];
      query_ranks = (1, 1) ∷ [];
      rank = 2;
    }
    ∷ []

fuses :
    rrf_fuse_rankings plus reciprocal 60 5 ((hit ∷ hit ∷ other ∷ []) ∷ (other ∷ []) ∷ []) ≡ ok fused
unfolding rrf_fuse_rankings merge_rankings merge_ranking update_item sort_items insert_item
    number_items mem
fuses = refl

fusion_ranks_once_example :
    (length fused ≤ 5)
    × NoRepeat (keys_of fused)
    × (map (λ x. x.rank) fused ≡ numbers 1 (length fused))
fusion_ranks_once_example =
    fusion_ranks_once plus reciprocal 60 5 ((hit ∷ hit ∷ other ∷ []) ∷ (other ∷ []) ∷ []) fused
      fuses
