-- ===== src/Retrieval/Plans.antt =====
-- What a plan may relax, and what it never relaxes.
use ecommerce_after_sales_sy.Prelude.{
  ◌≡◌, refl, ◌⊎◌, inl, inr, String, Bool, true, false, not, ◌&&◌, Option, none, All, All-append,
  arith, is_some,
}
use ecommerce_after_sales_sy.Retrieval.Filters.{
  FilterContext, FilterPlan, is_policy_source, strict, when, build_filter_plans,
}

module _ {T : Type 0} (ctx : FilterContext T) where
  -- A filter that a plan keeps, or gives up for a known value.
  abbrev pub KeptOrLeft : Option String → Option String → Type 0
  KeptOrLeft given found = (found ≡ given) ⊎ (found ≡ none)

  -- The merchant, the source, the version and the time are never relaxed; the intent is not relaxed
  -- for a source of policies; only the strict plan is eligible, which relaxes nothing.
  abbrev pub Safe : FilterPlan T → Type 0
  Safe p =
      (p.merchant_code ≡ ctx.merchant_code)
      × (p.source_type ≡ ctx.source_type)
      × (p.policy_version ≡ ctx.policy_version)
      × (p.as_of_time ≡ ctx.as_of_time)
      × KeptOrLeft ctx.product_category p.product_category
      × KeptOrLeft ctx.scene p.scene
      × KeptOrLeft ctx.intent p.intent
      × ((is_policy_source ctx.source_type ≡ false) ⊎ (p.intent ≡ ctx.intent))
      × ((p.trusted_policy_eligible ≡ false) ⊎ (p ≡ strict ctx))

  when-Safe : (test : Bool) (p : FilterPlan T) → (test ≡ true → Safe p) → All Safe (when test p)
  when-Safe true p h = (h refl, tt)
  when-Safe false p h = tt

  -- Every plan keeps the merchant, the source type, the policy version and the time of the context; it
  -- keeps the intent where the source is one of policies. It keeps each of the other filters or has
  -- none of them, and if it is eligible for trusted policies, it is the strict one.
  pub build_filter_plans-Safe : All Safe (build_filter_plans ctx)
  unfolding build_filter_plans
  build_filter_plans-Safe = (
    (refl, refl, refl, refl, inl refl, inl refl, inl refl, inr refl, inr refl),
    All-append Safe _ _
        (All-append Safe _ _
          (All-append Safe _ _
            (when-Safe (is_some ctx.product_category) _
              (λ h. (refl, refl, refl, refl, inr refl, inl refl, inl refl, inr refl, inl refl)))
            (when-Safe (is_some ctx.scene) _
              (λ h. (refl, refl, refl, refl, inl refl, inr refl, inl refl, inr refl, inl refl))))
          (when-Safe (is_some ctx.product_category && is_some ctx.scene) _
            (λ h. (refl, refl, refl, refl, inr refl, inr refl, inl refl, inr refl, inl refl))))
        (when-Safe (is_some ctx.intent && not (is_policy_source ctx.source_type)) _ (λ h.
          (refl, refl, refl, refl, inl refl, inl refl, inr refl, inl (ground arith), inl refl))),
  )
