-- ===== src/FormalReview/Graph/Outcome.antt =====
-- What `_submit_verdict` makes of Java's answer: the reply, the call for a human, and the next node.
use ecommerce_after_sales_sy.Prelude.{
  String, ◌≡◌, refl, ◌↔◌, ◌⊎◌, Bool, true, false, not, ◌&&◌, Bool-cases, inl, inr, ◌∷◌, str_eq,
  eq_iff, arith, if◌then◌else◌,
}
use ecommerce_after_sales_sy.Python.Value.{is_true, get}
use ecommerce_after_sales_sy.Python.Runtime.{Runtime}
use ecommerce_after_sales_sy.Python.Convert.{upper, text_or_empty}
use ecommerce_after_sales_sy.FormalReview.Contracts.{ToolResult}
use ecommerce_after_sales_sy.FormalReview.Graph.State.{
  Verdict, submit_ai_review, FormalReviewState, Collaborators, Settings, Machine,
}
use ecommerce_after_sales_sy.FormalReview.Graph.Java.{stale, answered}
use ecommerce_after_sales_sy.FormalReview.Graph.Submit.{
  verdict_arguments, actual_verdict, receive_verdict, submit_verdict,
}
use ecommerce_after_sales_sy.FormalReview.Graph.Run.{
  Position, at_newer, at_end, route_after_submission,
}

abbrev pub processing : String
processing = "您的售后申请已完成智能初审，当前已进入处理中。"

-- The facts of a verdict that was applied or not, with the reply and the outcome that follow.
abbrev reply : Bool → Bool → String
reply a p =
    if a && p then processing else if a then "您的售后申请需要人工进一步复核。" else "智能初审结果暂时无法确认，将由人工继续核对。"

reply_iff : (a p : Bool) → (reply a p ≡ processing) ↔ ((a && p) ≡ true)
reply_iff true true = (λ e. refl, λ e. refl)
reply_iff true false = (λ e. ground (arith, eq_iff "您的售后申请需要人工进一步复核。" processing), λ e. absurd cc)
reply_iff false true =
    (λ e. ground (arith, eq_iff "智能初审结果暂时无法确认，将由人工继续核对。" processing), λ e. absurd cc)
reply_iff false false =
    (λ e. ground (arith, eq_iff "智能初审结果暂时无法确认，将由人工继续核对。" processing), λ e. absurd cc)

unapproved : (a p x : Bool) → (not a && x) ≡ true → (a && p) ≡ false
unapproved a p x h = ground arith

human_iff : (b : Bool) → (not b ≡ false) ↔ ((b ≡ true) ⊎ (false ≡ true))
human_iff b = ground arith

-- What follows where the evidence is stale.
nothing_said :
    (("" ≡ processing) ↔ (false ≡ true))
    × ((false ≡ false) ↔ ((false ≡ true) ⊎ (true ≡ true)))
    × ((at_newer ≡ at_newer) ↔ (true ≡ true))
    × ((at_newer ≡ at_end) ↔ (true ≡ false))
nothing_said = (
  (λ e. ground (arith, eq_iff "" processing), λ e. absurd cc),
  (λ e. inr refl, λ e. refl),
  (λ e. refl, λ e. refl),
  (λ e. absurd cc, λ e. absurd cc),
)

abbrev after : Bool → Position
after a = if str_eq (if a then "APPLIED" else "NOT_APPLIED") stale then at_newer else at_end

ends : (a : Bool) → ((after a ≡ at_newer) ↔ (false ≡ true)) × ((after a ≡ at_end) ↔ (false ≡ false))
ends true = ((λ e. absurd cc, λ e. absurd cc), (λ e. refl, λ e. refl))
ends false = ((λ e. absurd cc, λ e. absurd cc), (λ e. refl, λ e. refl))

module _ {F : Type 0} ⦃r : Runtime F⦄ where
  abbrev pub is_applied : ToolResult F → Bool
  is_applied result = is_true (get "review_applied" (answered result))

  -- Java recorded the verdict, and it is an approval.
  abbrev pub is_approved : ToolResult F → Verdict → Bool
  is_approved result verdict =
      is_applied result && str_eq (actual_verdict (answered result) verdict) "APPROVE"

  -- Java refused the verdict, since the evidence is newer.
  abbrev pub is_stale : ToolResult F → Bool
  is_stale result =
      not (is_applied result)
      && str_eq (upper r.other_upper (text_or_empty (get "review_reject_reason" (answered result))))
          stale

  module _ (env : Collaborators F) (cfg : Settings F) where
    -- What follows from the answer.
    abbrev pub Follows : ToolResult F → Verdict → FormalReviewState F → Type 0
    Follows result verdict t =
        ((t.final_reply ≡ processing) ↔ (is_approved result verdict ≡ true))
        × ((t.need_human ≡ false)
            ↔ ((is_approved result verdict ≡ true) ⊎ (is_stale result ≡ true)))
        × ((route_after_submission t ≡ at_newer) ↔ (is_stale result ≡ true))
        × ((route_after_submission t ≡ at_end) ↔ (is_stale result ≡ false))

    receive_verdict-Follows :
        (s : FormalReviewState F) (verdict : Verdict) (result : ToolResult F)
        → Follows result verdict (receive_verdict env cfg s verdict result)
    unfolding receive_verdict route_after_submission
    receive_verdict-Follows s verdict result = elim (Bool-cases (is_stale result)) [
      | inl h ↦
          rw
            (
              h,
              unapproved (is_applied result)
                  (str_eq (actual_verdict (answered result) verdict) "APPROVE") _ h,
            )
            nothing_said
      | inr h ↦ rw h (
        reply_iff (is_applied result) (str_eq (actual_verdict (answered result) verdict) "APPROVE"),
        human_iff (is_approved result verdict),
        (ends (is_applied result)).0,
        (ends (is_applied result)).1,
      )
    ]

    -- After a verdict was submitted, by exactly one call, the reply says that the request is being
    -- processed exactly when Java applied the review and its verdict is an approval; no human is
    -- called exactly then or where the evidence is stale; and the graph waits for newer evidence
    -- exactly where it is stale, and ends otherwise.
    pub submission-Follows :
        (m : Machine F) (verdict : Verdict)
        → ((submit_verdict env cfg m verdict).calls
            ≡ submit_ai_review (verdict_arguments env cfg m.state verdict) ∷ m.calls)
          × Follows
              (env.call m.calls (submit_ai_review (verdict_arguments env cfg m.state verdict)))
              verdict
              (submit_verdict env cfg m verdict).state
    unfolding submit_verdict
    submission-Follows m verdict = (
      refl,
      receive_verdict-Follows m.state verdict
          (env.call m.calls (submit_ai_review (verdict_arguments env cfg m.state verdict))),
    )
