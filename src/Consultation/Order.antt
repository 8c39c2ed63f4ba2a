-- ===== src/Consultation/Order.antt =====
-- Which calls the consultation makes, and in which order, whether it returns or raises.
use ecommerce_after_sales_sy.Prelude.{
  ◌≡◌, refl, ap, String, Bool, true, false, not, List, [], ◌∷◌, ◌++◌, map, nonempty, if◌then◌else◌,
}
use ecommerce_after_sales_sy.Python.Text.{strip, is_text}
use ecommerce_after_sales_sy.Python.Value.{Value, obj, end, get}
use ecommerce_after_sales_sy.Python.Result.{Result, ok, raise}
use ecommerce_after_sales_sy.Python.Runtime.{Runtime}
use ecommerce_after_sales_sy.Python.Convert.{text_or_empty}
use ecommerce_after_sales_sy.FormalReview.Contracts.{ToolResult}
use ecommerce_after_sales_sy.FormalReview.Workflow.Ports.{ToolCall}
use ecommerce_after_sales_sy.Consultation.Flow.{
  Calls, After, Post, Post-bind, Post-if, Post-lift, Post-weaken,
}
use ecommerce_after_sales_sy.Consultation.Hits.{citations, trusted_hits}
use ecommerce_after_sales_sy.Consultation.Ports.{
  ConsultationWorkflow, ChatTraceEntry, trace_entry, Reply, dict_or_empty,
}
use ecommerce_after_sales_sy.Consultation.Handoff.{required_skill, handoff_call, handoff}
use ecommerce_after_sales_sy.Consultation.Rewrite.{
  Found, retrieve_call, multi_call, rewritten_queries, rewritten_knowledge, retrieve_rewritten,
  rewrite_and_retrieve,
}
use ecommerce_after_sales_sy.Consultation.Answer.{
  explicit_human_request, generate_answer, append_call, answer, behind, may_rewrite, find_knowledge,
  consult, handle_core,
}

-- The retrievals, the last one first.
abbrev pub searches : Bool → List String
searches false = "retrieve_knowledge" ∷ []
searches true = "retrieve_knowledge_multi" ∷ "retrieve_knowledge" ∷ []

-- The calls of one message, the last one first.
pub data Sequence : List String → Type 0 where
  silent : Sequence []
  requested : Sequence ("handoff_to_human" ∷ [])
  searching : (again : Bool) → Sequence (searches again)
  refused : (again : Bool) → Sequence ("handoff_to_human" ∷ searches again)
  answering : (again : Bool) → Sequence ("append_chat_message" ∷ searches again)
  lost : (again : Bool) → Sequence ("handoff_to_human" ∷ "append_chat_message" ∷ searches again)

module _ {F : Type 0} ⦃r : Runtime F⦄ (flow : ConsultationWorkflow F) (before : Calls F) where
  -- The calls since `before` have these names.
  abbrev pub Made : List String → Calls F → Type 0
  Made names after = (made : Calls F) × (after ≡ made ++ before) × (map (λ c. c.name) made ≡ names)

  abbrev pub Ordered : Calls F → Type 0
  Ordered after = (names : List String) × Made names after × Sequence names

  abbrev Always : {A : Type 0} → A → Calls F → Type 0
  Always a after = Ordered after

  Made-next :
      (names : List String) (c : ToolCall F) (calls : Calls F)
      → Made names calls
      → Made (c.name ∷ names) (c ∷ calls)
  Made-next names c calls (made, e, f) = (c ∷ made, ap (λ x. c ∷ x) e, ap (λ x. c.name ∷ x) f)

  handoff-Ordered :
      (payload : Value F) (trace : List (ChatTraceEntry F)) (reason : String) (calls : Calls F)
      (names : List String)
      → Made names calls
      → Sequence names
      → Sequence ("handoff_to_human" ∷ names)
      → Post (handoff flow payload trace reason) calls Always Always
  unfolding handoff handoff_call
  handoff-Ordered payload trace reason calls names made here next =
      Post-lift Always (required_skill flow "human_handoff") _ calls Always
        (λ e h. (names, made, here))
        (λ skill h. (
          "handoff_to_human" ∷ names,
          Made-next names (handoff_call flow payload reason) calls made,
          next,
        ))

  answer-Ordered :
      (payload : Value F) (message : String) (found : Found F) (calls : Calls F) (again : Bool)
      → Made (searches again) calls
      → Post (answer flow payload message found) calls Always Always
  unfolding answer append_call
  answer-Ordered payload message found calls again made =
      let stop : Ordered calls = (searches again, made, searching again) in
      Post-lift Always (citations found.trusted) _ calls Always (λ e h. stop)
        (λ cited h1.
          Post-lift Always (required_skill flow "policy_explanation") _ calls Always (λ e h. stop)
            (λ skill h2.
              Post-lift Always (generate_answer flow payload found.knowledge found.trusted skill) _
                calls Always (λ e h. stop)
                (λ reply h3.
                  let c = append_call flow payload message found cited reply in
                  let appended = Made-next (searches again) c calls made in
                  Post-if Always (not (flow.tools calls c).ok) _ _ (c ∷ calls) Always
                    (λ failed.
                      handoff-Ordered payload _ "answer_persistence_failed" (c ∷ calls)
                        ("append_chat_message" ∷ searches again) appended (answering again)
                        (lost again))
                    (λ kept. ("append_chat_message" ∷ searches again, appended, answering again)))))

  abbrev Searched : {A : Type 0} → A → Calls F → Type 0
  Searched a after = (again : Bool) × Made (searches again) after

  retrieve_rewritten-Searched :
      (payload : Value F) (message : String) (knowledge : Value F) (queries : List String)
      (calls : Calls F)
      → Made (searches false) calls
      → Post (retrieve_rewritten flow payload message knowledge queries) calls Searched Searched
  unfolding retrieve_rewritten multi_call
  retrieve_rewritten-Searched payload message knowledge queries calls made =
      let c = multi_call flow payload message queries in
      let next : Searched c (c ∷ calls) = (true, Made-next (searches false) c calls made) in
      Post-lift Searched (trusted_hits (rewritten_knowledge flow knowledge (flow.tools calls c))) _
        (c ∷ calls) Searched (λ e h. next) (λ hits h. next)

  find_knowledge-Searched :
      (payload : Value F) (message : String) (a : ToolResult F) (calls : Calls F)
      → Made (searches false) calls
      → Post (find_knowledge flow payload message a) calls Searched Searched
  unfolding find_knowledge rewrite_and_retrieve
  find_knowledge-Searched payload message a calls made =
      let knowledge : Value F = if a.ok then dict_or_empty a.data_value else obj end in
      Post-lift Searched (trusted_hits knowledge) _ calls Searched (λ e h. (false, made))
        (λ hits h.
          Post-if Searched (may_rewrite flow a knowledge hits) _ _ calls Searched
            (λ again.
              Post-lift Searched (rewritten_queries flow payload message knowledge) _ calls Searched
                (λ e h'. (false, made))
                (λ queries h'.
                  Post-if Searched (nonempty queries) _ _ calls Searched
                    (λ some_queries.
                      retrieve_rewritten-Searched payload message knowledge queries calls made)
                    (λ none_left. (false, made))))
            (λ enough. (false, made)))

  consult-Ordered :
      (payload : Value F) (message : String)
      → Post (consult flow payload message) before Always Always
  unfolding consult retrieve_call
  consult-Ordered payload message =
      let c = retrieve_call flow payload message in
      let a = flow.tools before c in
      let made : Made (searches false) (c ∷ before) = (c ∷ [], refl, refl) in
      Post-bind Always (find_knowledge flow payload message a) _ (c ∷ before) Searched Always
        (Post-weaken (find_knowledge flow payload message a) (c ∷ before) Searched Searched Searched
          Always (λ found after s. s) (λ e after (again, s). (searches again, s, searching again))
          (find_knowledge-Searched payload message a (c ∷ before) made))
        (λ found after (again, s).
          let all = behind flow (trace_entry a c.arguments) found in
          Post-if Always (nonempty found.trusted) _ _ after Always
            (λ some_hits. answer-Ordered payload message all after again s)
            (λ untrusted.
              handoff-Ordered payload all.entries _ after (searches again) s (searching again)
                (refused again)))

  handle_core-Post : (payload : Value F) → Post (handle_core flow payload) before Always Always
  unfolding handle_core
  handle_core-Post payload =
      let message = strip (text_or_empty (get "message" payload)) in
      let start : Made [] before = ([], refl, refl) in
      Post-if Always (not (is_text message)) _ _ before Always (λ blank. ([], start, silent))
        (λ filled.
          Post-if Always (explicit_human_request message) _ _ before Always
            (λ wanted.
              handoff-Ordered payload [] "explicit_human_request" before [] start silent requested)
            (λ other. consult-Ordered payload message))

  -- Whether the consultation returns or raises, the calls of a message are none, one handoff, or one
  -- retrieval, at most one more with rewritten queries, then at most one message that is put into the
  -- conversation, and at most one handoff at the end.
  pub handle_core-Ordered : (payload : Value F) → Ordered (handle_core flow payload before).1
  handle_core-Ordered payload = either (handle_core flow payload before) (handle_core-Post payload)
    where
      either : (o : Result (Reply F) × Calls F) → After o Always Always → Ordered o.1
      either (ok reply, after) h = h
      either (raise e, after) h = h
