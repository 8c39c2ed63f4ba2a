-- ===== src/FormalReview/Requirement.antt =====
-- formal_review/evaluators.py `is_core_evidence_requirement`, of a text.
use ecommerce_after_sales_sy.Prelude.{
  String, Bool, false, not, ◌&&◌, ◌||◌, List, [], ◌∷◌, any, if◌then◌else◌,
}
use ecommerce_after_sales_sy.Python.Text.{is_text, strip, contains}

-- `any(token in text for token in tokens)`
unfoldable pub mentions : List String → String → Bool
mentions tokens s = any (λ t. contains t s) tokens

unfoldable pub is_core_requirement : String → Bool
unfolding mentions strip contains
is_core_requirement v =
    let s = strip v in
    if not (is_text s) || mentions ("外包装" ∷ "物流" ∷ "面单" ∷ "运单" ∷ "快递" ∷ []) s
    then false
    else mentions ("商品" ∷ "问题" ∷ "破损" ∷ "损坏" ∷ []) s && mentions ("图片" ∷ "照片" ∷ []) s
