-- ===== src/Retrieval/Filters.antt =====
-- retrieval/knowledge_filters.py. `T` is the type of instants.
use ecommerce_after_sales_sy.Prelude.{
  String, Bool, true, false, not, ◌&&◌, Option, none, some, List, [], ◌∷◌, ◌++◌, is_some,
  if◌then◌else◌,
}
use ecommerce_after_sales_sy.Python.Text.{mem}

pub record FilterContext (T : Type 0) : Type 0 where
  pub merchant_code : String
  pub source_type : Option String
  pub policy_version : Option String
  pub as_of_time : T
  pub product_category : Option String
  pub scene : Option String
  pub intent : Option String

pub record FilterPlan (T : Type 0) : Type 0 where
  pub level : String
  pub merchant_code : String
  pub source_type : Option String
  pub policy_version : Option String
  pub as_of_time : T
  pub product_category : Option String
  pub scene : Option String
  pub intent : Option String
  pub trusted_policy_eligible : Bool

-- `source_type in POLICY_SOURCE_TYPES`
unfoldable pub is_policy_source : Option String → Bool
unfolding mem
is_policy_source none = false
is_policy_source (some s) = mem s ("after_sales_policy" ∷ "refund_policy" ∷ "exchange_rule" ∷ [])

module _ {T : Type 0} where
  abbrev pub strict : FilterContext T → FilterPlan T
  strict ctx = record {
    level = "strict";
    merchant_code = ctx.merchant_code;
    source_type = ctx.source_type;
    policy_version = ctx.policy_version;
    as_of_time = ctx.as_of_time;
    product_category = ctx.product_category;
    scene = ctx.scene;
    intent = ctx.intent;
    trusted_policy_eligible = true;
  }

  -- `replace(strict, level=..., ..., trusted_policy_eligible=False)`
  abbrev pub relaxed :
      FilterContext T → String → Option String → Option String → Option String → FilterPlan T
  relaxed ctx level product_category scene intent = record {
    level = level;
    merchant_code = ctx.merchant_code;
    source_type = ctx.source_type;
    policy_version = ctx.policy_version;
    as_of_time = ctx.as_of_time;
    product_category = product_category;
    scene = scene;
    intent = intent;
    trusted_policy_eligible = false;
  }

  abbrev pub when : Bool → FilterPlan T → List (FilterPlan T)
  when test plan = if test then plan ∷ [] else []

  unfoldable pub build_filter_plans : FilterContext T → List (FilterPlan T)
  unfolding is_policy_source
  build_filter_plans ctx =
      strict ctx
      ∷ (when (is_some ctx.product_category)
            (relaxed ctx "category_relaxed" none ctx.scene ctx.intent)
          ++ when (is_some ctx.scene)
              (relaxed ctx "scene_relaxed" ctx.product_category none ctx.intent)
          ++ when (is_some ctx.product_category && is_some ctx.scene)
              (relaxed ctx "category_and_scene_relaxed" none none ctx.intent)
          ++ when (is_some ctx.intent && not (is_policy_source ctx.source_type))
              (relaxed ctx "intent_relaxed" ctx.product_category ctx.scene none))

-- A parameter of the statement.
pub data SqlParameter (T : Type 0) : Type 0 where
  text : Option String → SqlParameter T
  instant : T → SqlParameter T

-- The conditions of the statement, which are joined by AND.
abbrev pub conditions : List String
conditions =
    "kd.status = 1" ∷ "COALESCE(kd.metadata ->> 'deleted', 'false') <> 'true'"
    ∷ "kd.published_revision IS NOT NULL" ∷ "kc.revision = kd.published_revision"
    ∷ "kd.merchant_code IN (%s, 'GLOBAL')" ∷ "(%s::text IS NULL OR kd.source_type = %s)"
    ∷ "(%s::text IS NULL OR kd.policy_version = %s)"
    ∷ "(kd.valid_from IS NULL OR kd.valid_from <= %s)" ∷ "(kd.valid_to IS NULL OR %s < kd.valid_to)"
    ∷ "(%s::text IS NULL OR COALESCE(kc.product_categories, ARRAY[]::text[]) = ARRAY[]::text[] OR %s = ANY(kc.product_categories))"
    ∷ "(%s::text IS NULL OR COALESCE(kc.scenes, ARRAY[]::text[]) = ARRAY[]::text[] OR %s = ANY(kc.scenes))"
    ∷ "(%s::text IS NULL OR COALESCE(kc.intents, ARRAY[]::text[]) = ARRAY[]::text[] OR %s = ANY(kc.intents))"
    ∷ []

-- `build_hard_filter_sql`
unfoldable pub build_hard_filter_sql :
    {T : Type 0} → FilterPlan T → List String × List (SqlParameter T)
build_hard_filter_sql plan = (
  conditions,
  text (some plan.merchant_code)
      ∷ text plan.source_type
      ∷ text plan.source_type
      ∷ text plan.policy_version
      ∷ text plan.policy_version
      ∷ instant plan.as_of_time
      ∷ instant plan.as_of_time
      ∷ text plan.product_category
      ∷ text plan.product_category
      ∷ text plan.scene
      ∷ text plan.scene
      ∷ text plan.intent
      ∷ text plan.intent
      ∷ [],
)
