-- ===== src/FormalReview/Graph/Java.antt =====
-- graph.py: what the two nodes that write to Java share.
use ecommerce_after_sales_sy.Prelude.{
  String, Bool, ◌&&◌, Option, none, some, List, [], ◌∷◌, nonempty, if◌then◌else◌,
}
use ecommerce_after_sales_sy.Python.Value.{Value, obj, end, is_dict}
use ecommerce_after_sales_sy.FormalReview.Contracts.{TrustedCaseContext, ToolResult}
use ecommerce_after_sales_sy.FormalReview.Graph.State.{Settings}

abbrev pub stale : String
stale = "STALE_EVIDENCE"

-- The value of a field of the context, or of the payload where there is no context.
abbrev pub from_context :
    {F : Type 0}
    → (TrustedCaseContext F → Value F)
    → Option (TrustedCaseContext F)
    → Value F
    → Value F
from_context f none d = d
from_context f (some c) d = f c

abbrev pub with_default : {A : Type 0} {B : Type 0} → Option A → B → (A → B) → B
with_default none d f = d
with_default (some a) d f = f a

abbrev pub outcome : {A : Type 0} → Bool → Bool → A → A → A → A
outcome applied stale_evidence a s e = if applied then a else if stale_evidence then s else e

-- `list(needed or [])`, or the evidence's own list where that is empty
abbrev pub wanted : {A : Type 0} → List A → List A → List A
wanted xs ys = if nonempty xs then xs else ys

-- The dictionary that a successful call answered, or the empty one.
abbrev pub answered : {F : Type 0} → ToolResult F → Value F
answered result = if result.ok && is_dict result.data_value then result.data_value else obj end

-- `_formal_skill_versions`
unfoldable pub formal_skill_versions : {F : Type 0} → Settings F → List (String × String)
formal_skill_versions cfg = (cfg.formal_review_skill.name, cfg.formal_review_skill.version) ∷ []
