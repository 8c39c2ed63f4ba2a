-- ===== src/FormalReview/Evaluate/Trust.antt =====
-- What a trusted policy assessment rests on.
use mathlib.Core.List.{Memᴰ}
use ecommerce_after_sales_sy.Prelude.{
  String, ◌≡◌, refl, sym, ap, ◌∙◌, Bool, true, false, not, ◌&&◌, ◌||◌, Option, none, some, List, [],
  ◌∷◌, keep, any, nonempty, arith, eq_iff, Bool-cases, inl, inr, and_split,
}
use ecommerce_after_sales_sy.Python.Value.{Value, get, is_dict, is_true, is_str}
use ecommerce_after_sales_sy.Python.Text.{is_text, mem}
use ecommerce_after_sales_sy.Python.Result.{ok, >>=-eq-ok, ok-injective, raised}
use ecommerce_after_sales_sy.Python.Runtime.{Runtime}
use ecommerce_after_sales_sy.Python.Convert.{text_or_empty, iterate_or_empty}
use ecommerce_after_sales_sy.FormalReview.Contracts.{PolicyTask, PolicyAssessment, ToolResult}
use ecommerce_after_sales_sy.FormalReview.Context.{dicts}
use ecommerce_after_sales_sy.FormalReview.Evaluate.Citation.{traceable_citations}
use ecommerce_after_sales_sy.FormalReview.Evaluate.Hit.{
  names, hit_text, hit_overflows, is_trusted_hit,
}
use ecommerce_after_sales_sy.FormalReview.Evaluate.Policy.{
  trusted_modes, trusted_of, is_eligible, result_overflows, assess_hits, failed_policy, assess,
  required_of,
}

-- The task names a text, and the hit has it.
abbrev pub Matches : Option String → String → Type 0
Matches none found = ⊥
Matches (some code) found = (is_text code ≡ true) × (found ≡ code)

-- A hit that is a policy of the task's merchant and version, trusted, strictly retrieved and cited.
pub record IsTrusted {F : Type 0} ⦃r : Runtime F⦄ (task : PolicyTask) (hit : Value F) : Type 0 where
  pub is_policy : hit_text "source_type" hit ≡ "after_sales_policy"
  pub of_merchant : Matches task.merchant_code (hit_text "merchant_code" hit)
  pub of_version : Matches task.policy_version (hit_text "policy_version" hit)
  pub eligible : is_true (get "trusted_policy_eligible" hit) ≡ true
  pub strict : is_str (get "relaxation_level" hit) "strict" ≡ true
  pub cited : nonempty (traceable_citations hit) ≡ true

keep-nonempty :
    {A : Type 0} (p : A → Bool) (xs : List A)
    → nonempty (keep p xs) ≡ true
    → (x : A) × Memᴰ x xs × (p x ≡ true)
keep-nonempty p [] h = cc
keep-nonempty p (x ∷ xs) h = elim (Bool-cases (p x)) [
  | inl t ↦ (x, Memᴰ.head refl, t)
  | inr f ↦ later (keep-nonempty p xs (rw f at h))
]
  where
    later : (y : _) × Memᴰ y xs × (p y ≡ true) → (y : _) × Memᴰ y (x ∷ xs) × (p y ≡ true)
    later (y, m, t) = (y, Memᴰ.tail m, t)

names-Matches : (o : Option String) (t : String) → names o t ≡ true → Matches o t
names-Matches none t h = cc
names-Matches (some code) t h = ground (arith, eq_iff t code)

and_eight :
    (a b c d e f g h : Bool)
    → (a && b && c && d && e && f && g && h) ≡ true
    → (a ≡ true) × (b ≡ true) × (c ≡ true) × (d ≡ true) × (e ≡ true) × (f ≡ true)
and_eight a b c d e f g h p = ground arith

succeeded : (b d : Bool) → (not b || not d) ≡ false → b ≡ true
succeeded b d h = ground arith

module _ {F : Type 0} ⦃r : Runtime F⦄ (task : PolicyTask) where
  is_trusted_hit-IsTrusted :
      (knowledge : Value F) (mode : String) (hit : Value F)
      → is_trusted_hit task knowledge mode hit ≡ true
      → IsTrusted task hit
  unfolding is_trusted_hit
  is_trusted_hit-IsTrusted knowledge mode hit h =
      let (kind, merchant, version, eligible, strict, cited) = and_eight _ _ _ _ _ _ _ _ h in
      record {
        is_policy = (eq_iff _ _).0 kind;
        of_merchant = names-Matches task.merchant_code _ merchant;
        of_version = names-Matches task.policy_version _ version;
        eligible = eligible;
        strict = strict;
        cited = cited;
      }

  -- What the assessment returned says of the hits, and of the whole result.
  abbrev Rests : Value F → List (Value F) → PolicyAssessment F → Type 0
  Rests knowledge hits a =
      (a.trusted_policy_eligible ≡ is_eligible knowledge (trusted_of task knowledge hits))
      × (a.policy_version_matched ≡ nonempty (trusted_of task knowledge hits))
      × (a.success ≡ true)

  assess_hits-Rests :
      (knowledge : Value F) (hits : List (Value F)) {a : PolicyAssessment F}
      → assess_hits task knowledge hits ≡ ok a
      → Rests knowledge hits a
  unfolding assess_hits
  assess_hits-Rests knowledge hits h =
      let (small, k) =
        raised (any (hit_overflows task knowledge (text_or_empty (get "mode" knowledge))) hits) _
          h in
      let (required, _, e') = >>=-eq-ok (required_of [] (trusted_of task knowledge hits)) _ k in
      let (fits, e) = raised (result_overflows knowledge (trusted_of task knowledge hits)) _ e' in
      let q : _ ≡ _ = ok-injective e in
      (
        ap (λ t. t.trusted_policy_eligible) (sym q),
        ap (λ t. t.policy_version_matched) (sym q),
        ap (λ t. t.success) (sym q),
      )

  -- A trusted hit among those that the tool returned.
  abbrev pub FromHit : Value F → Type 0
  FromHit knowledge =
      (hits : List (Value F)) × (iterate_or_empty (get "hits" knowledge) ≡ ok hits)
      × (hit : Value F) × Memᴰ hit (dicts hits)
      × IsTrusted task hit

  eligible_parts :
      (knowledge : Value F) (trusted : List (Value F))
      → is_eligible knowledge trusted ≡ true
      → (nonempty trusted ≡ true)
        × (is_true (get "trusted_policy_eligible" knowledge) ≡ true)
        × (mem (text_or_empty (get "mode" knowledge)) trusted_modes ≡ true)
  unfolding is_eligible
  eligible_parts knowledge trusted h =
      let (rest, mode) = and_split _ _ h in
      let (rest', level) = and_split _ _ rest in
      let (some_hit, overall) = and_split _ _ rest' in (some_hit, overall, mode)

  from_IsTrusted :
      (knowledge : Value F) (hits : List (Value F))
      → nonempty (trusted_of task knowledge hits) ≡ true
      → (hit : Value F) × Memᴰ hit hits × IsTrusted task hit
  unfolding trusted_of
  from_IsTrusted knowledge hits h =
      let (hit, member, test) = keep-nonempty _ hits h in
      (
        hit,
        member,
        is_trusted_hit-IsTrusted knowledge (text_or_empty (get "mode" knowledge)) hit test,
      )

  untrusted :
      (result : ToolResult F) (a : PolicyAssessment F)
      → failed_policy task result ≡ a
      → a.trusted_policy_eligible ≡ true
      → ⊥
  unfolding failed_policy
  untrusted result a e h = let q = ap (λ t. t.trusted_policy_eligible) e ∙ h in cc

  -- A policy assessment that is trusted was made of a successful result whose flag and mode are
  -- trusted, among whose hits is one that is a policy of the task's merchant and version, marked
  -- as trusted, retrieved strictly and cited traceably; and the version is reported as matched.
  pub trusted_rests_on_hit :
      (result : ToolResult F) {a : PolicyAssessment F}
      → assess task result ≡ ok a
      → a.trusted_policy_eligible ≡ true
      → (result.ok ≡ true)
        × (a.success ≡ true)
        × (a.policy_version_matched ≡ true)
        × (is_true (get "trusted_policy_eligible" result.data_value) ≡ true)
        × (mem (text_or_empty (get "mode" result.data_value)) trusted_modes ≡ true)
        × FromHit result.data_value
  unfolding assess
  trusted_rests_on_hit result {a} h trusted =
      elim (Bool-cases (not result.ok || not (is_dict result.data_value))) [
        | inl bad ↦
            let e : failed_policy task result ≡ a = ok-injective (rw bad at h) in
            absurd (untrusted result a e trusted)
        | inr good ↦
            let (hits, listed, k) =
              >>=-eq-ok (iterate_or_empty (get "hits" result.data_value)) _ (rw good at h) in
            let (flag, matched, success) = assess_hits-Rests result.data_value (dicts hits) k in
            let (found, overall, mode) = eligible_parts result.data_value _ (sym flag ∙ trusted) in
            let (hit, member, ok_hit) = from_IsTrusted result.data_value (dicts hits) found in
            (
              succeeded result.ok (is_dict result.data_value) good,
              success,
              matched ∙ found,
              overall,
              mode,
              (hits, listed, hit, member, ok_hit),
            )
      ]
