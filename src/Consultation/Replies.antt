-- ===== src/Consultation/Replies.antt =====
-- The replies of `_handle_core`: what is answered without a human, and when the mode is HUMAN.
use ecommerce_after_sales_sy.Prelude.{
  ◌≡◌, refl, sym, ap, ◌∙◌, inl, inr, String, Bool, true, false, str_eq, ◌∷◌, arith, if◌then◌else◌,
}
use ecommerce_after_sales_sy.Python.Text.{strip, is_text}
use ecommerce_after_sales_sy.Python.Value.{Value, get}
use ecommerce_after_sales_sy.Python.Result.{ok}
use ecommerce_after_sales_sy.Python.Runtime.{Runtime}
use ecommerce_after_sales_sy.Python.Convert.{text_or_empty}
use ecommerce_after_sales_sy.FormalReview.Workflow.Ports.{ToolCall}
use ecommerce_after_sales_sy.Consultation.Flow.{Calls, After-eq}
use ecommerce_after_sales_sy.Consultation.Ports.{ConsultationWorkflow, Reply, result}
use ecommerce_after_sales_sy.Consultation.Handoff.{confirmed}
use ecommerce_after_sales_sy.Consultation.Answer.{handle_core}
use ecommerce_after_sales_sy.Consultation.Served.{Answered, Served, Whatever, handle_core-Served}

not_human : ◌≡◌ {A = String} "AI" "HUMAN" → ⊥
not_human e = let same : false ≡ true = ap (λ s. str_eq s "HUMAN") e in ground arith

said : (b : Bool) → ◌≡◌ {A = String} (if b then "HUMAN" else "AI") "HUMAN" → b ≡ true
said true e = refl
said false e = absurd (not_human e)

module _ {F : Type 0} ⦃r : Runtime F⦄ (flow : ConsultationWorkflow F) where
  -- Where a message that is not blank is served without a handoff, the reply rests on knowledge that
  -- the registry returned to a call: it was eligible, and at least one of its hits was trusted. The
  -- reply is the one that the last call put into the conversation, successfully.
  pub answers_rest_on_trusted_hits :
      (payload : Value F) (before after : Calls F) (reply : Reply F)
      → handle_core flow payload before ≡ (ok reply, after)
      → is_text (strip (text_or_empty (get "message" payload))) ≡ true
      → reply.need_human ≡ false
      → Answered flow reply after
  answers_rest_on_trusted_hits payload before after reply h filled alone =
      elim (After-eq (Whatever flow) _ (Served flow payload)
        (handle_core-Served flow payload before) h) [
          | inl (blank, e) ↦ absurd (ground arith)
          | inr (inl (c, earlier_calls, e, name, human, mode)) ↦ absurd (ground arith)
          | inr (inr answered_it) ↦ answered_it
        ]

  -- A reply says that the session is in the mode HUMAN only where the last call hands it over and Java
  -- has confirmed the mode; a human is needed then.
  pub human_mode_is_confirmed :
      (payload : Value F) (before after : Calls F) (reply : Reply F)
      → handle_core flow payload before ≡ (ok reply, after)
      → reply.session_mode ≡ "HUMAN"
      → (c : ToolCall F) × (earlier_calls : Calls F) × (after ≡ c ∷ earlier_calls)
        × (c.name ≡ "handoff_to_human")
        × (reply.need_human ≡ true)
        × (confirmed flow (flow.tools earlier_calls c) ≡ true)
  unfolding result
  human_mode_is_confirmed payload before after reply h mode =
      elim (After-eq (Whatever flow) _ (Served flow payload)
        (handle_core-Served flow payload before) h) [
          | inl (blank, e) ↦ absurd (not_human (sym (ap (λ x. x.session_mode) e) ∙ mode))
          | inr (inl (c, earlier_calls, e, name, human, m)) ↦ (
            c,
            earlier_calls,
            e,
            name,
            human,
            said (confirmed flow (flow.tools earlier_calls c)) (sym m ∙ mode),
          )
          | inr
                (inr (
                  knowledge, hits, c, earlier_calls, e, known, listed, reliable, name, content,
                  kept, human, m,
                )) ↦
              absurd (not_human (sym m ∙ mode))
        ]
