-- ===== src/Consultation/Reliable.antt =====
-- The trusted hits of a retrieval: what the code has tested of each.
use ecommerce_after_sales_sy.Prelude.{
  ◌≡◌, sym, ap, Bool, true, false, List, [], ◌∷◌, All, nonempty, arith, if◌then◌else◌,
}
use ecommerce_after_sales_sy.Python.Value.{Value, get}
use ecommerce_after_sales_sy.Python.Result.{ok, >>=-eq-ok, ok-injective, if_ok}
use ecommerce_after_sales_sy.Python.Runtime.{Runtime}
use ecommerce_after_sales_sy.Python.Convert.{iterate_or_empty}
use ecommerce_after_sales_sy.Consultation.Hits.{
  citations, is_eligible_result, is_strict_policy, is_trusted, keep_trusted, trusted_hits,
}

module _ {F : Type 0} ⦃r : Runtime F⦄ where
  -- A hit of a policy that was found strictly, with a citation that can be traced.
  abbrev pub Trusted : Value F → Type 0
  Trusted hit =
      (is_strict_policy hit ≡ true)
      × (found : List (Value F)) × (citations (hit ∷ []) ≡ ok found)
      × (nonempty found ≡ true)

  is_trusted-Trusted : (hit : Value F) → is_trusted hit ≡ ok true → Trusted hit
  is_trusted-Trusted hit h =
      if_ok (is_strict_policy hit) _ _
        (λ strict e.
          let (found, cited, e') = >>=-eq-ok (citations (hit ∷ [])) _ e in
          (strict, found, cited, ok-injective e'))
        (λ loose e. let same = ok-injective e in absurd (ground arith)) h

  keep_trusted-All : (hits kept : List (Value F)) → keep_trusted hits ≡ ok kept → All Trusted kept
  unfolding keep_trusted
  keep_trusted-All [] kept h = rw (sym (ok-injective h)) tt
  keep_trusted-All (hit ∷ hits) kept h =
      let (trusted, tested, h') = >>=-eq-ok (is_trusted hit) _ h in
      let (rest, returned, e) = >>=-eq-ok (keep_trusted hits) _ h' in
      rw (sym (ok-injective e)) (chosen trusted rest tested (keep_trusted-All hits rest returned))
    where
      chosen :
          (trusted : Bool) (rest : List (Value F))
          → is_trusted hit ≡ ok trusted
          → All Trusted rest
          → All Trusted (if trusted then hit ∷ rest else rest)
      chosen true rest e all = (is_trusted-Trusted hit e, all)
      chosen false rest e all = all

  -- The hits that the answer rests on: at least one, and each of them is trusted.
  abbrev pub Reliable : Value F → List (Value F) → Type 0
  Reliable knowledge hits =
      (is_eligible_result knowledge ≡ true) × (nonempty hits ≡ true) × All Trusted hits

  pub trusted_hits-Reliable :
      (knowledge : Value F) (hits : List (Value F))
      → trusted_hits knowledge ≡ ok hits
      → nonempty hits ≡ true
      → Reliable knowledge hits
  unfolding trusted_hits
  trusted_hits-Reliable knowledge hits h some_hits =
      if_ok (is_eligible_result knowledge) _ _
        (λ eligible e.
          let (found, listed, e') = >>=-eq-ok (iterate_or_empty (get "hits" knowledge)) _ e in
          (eligible, some_hits, keep_trusted-All found hits e'))
        (λ other e.
          let same : nonempty hits ≡ false = ap nonempty (sym (ok-injective e)) in
          absurd (ground arith))
        h
