-- ===== src/Consultation/Served.antt =====
-- What a reply of the consultation rests on.
use ecommerce_after_sales_sy.Prelude.{
  ◌≡◌, refl, sym, ap, ◌∙◌, ◌⊎◌, inl, inr, and_split, String, Bool, true, false, not, ◌&&◌, List, [],
  ◌∷◌, nonempty, arith, if◌then◌else◌,
}
use ecommerce_after_sales_sy.Python.Text.{strip, is_text}
use ecommerce_after_sales_sy.Python.Value.{Value, str, obj, end, get, is_dict}
use ecommerce_after_sales_sy.Python.Result.{Exn, ok, ok-injective}
use ecommerce_after_sales_sy.Python.Runtime.{Runtime}
use ecommerce_after_sales_sy.Python.Convert.{text_or_empty}
use ecommerce_after_sales_sy.FormalReview.Workflow.Ports.{ToolCall}
use ecommerce_after_sales_sy.Consultation.Flow.{Calls, Post, Post-bind, Post-if, Post-lift}
use ecommerce_after_sales_sy.Consultation.Hits.{citations, is_eligible_result, trusted_hits}
use ecommerce_after_sales_sy.Consultation.Reliable.{Reliable, trusted_hits-Reliable}
use ecommerce_after_sales_sy.Consultation.Ports.{
  ConsultationWorkflow, ChatTraceEntry, trace_entry, Reply, dict_or_empty, result,
}
use ecommerce_after_sales_sy.Consultation.Handoff.{
  required_skill, confirmed, handoff_call, handed_off, handoff,
}
use ecommerce_after_sales_sy.Consultation.Rewrite.{
  Found, retrieve_call, multi_call, rewritten_queries, rewritten_knowledge, retrieve_rewritten,
  rewrite_and_retrieve,
}
use ecommerce_after_sales_sy.Consultation.Answer.{
  explicit_human_request, generate_answer, append_call, answered, answer, behind, may_rewrite,
  find_knowledge, consult, asks_for_message, handle_core,
}

module _ {F : Type 0} ⦃r : Runtime F⦄ (flow : ConsultationWorkflow F) where
  -- The knowledge is what the registry returned to one of the calls, which was successful.
  pub data Learned : Calls F → Value F → Type 0 where
    learned :
        (c : ToolCall F) (before : Calls F)
        → (flow.tools before c).ok ≡ true
        → Learned (c ∷ before) (flow.tools before c).data_value
    earlier :
        (c : ToolCall F) (before : Calls F) (k : Value F)
        → Learned before k
        → Learned (c ∷ before) k

  -- The last call hands the session over, and the reply says whether Java has confirmed it.
  abbrev pub HandedOff : Reply F → Calls F → Type 0
  HandedOff reply after =
      (c : ToolCall F) × (before : Calls F) × (after ≡ c ∷ before)
      × (c.name ≡ "handoff_to_human")
      × (reply.need_human ≡ true)
      × (reply.session_mode ≡ (if confirmed flow (flow.tools before c) then "HUMAN" else "AI"))

  -- The last call puts the reply into the conversation, and the reply rests on trusted hits.
  abbrev pub Answered : Reply F → Calls F → Type 0
  Answered reply after =
      (knowledge : Value F) × (hits : List (Value F)) × (c : ToolCall F) × (before : Calls F)
      × (after ≡ c ∷ before)
      × Learned before knowledge
      × (trusted_hits knowledge ≡ ok hits)
      × Reliable knowledge hits
      × (c.name ≡ "append_chat_message")
      × (get "content" c.arguments ≡ str reply.assistant_reply)
      × ((flow.tools before c).ok ≡ true)
      × (reply.need_human ≡ false)
      × (reply.session_mode ≡ "AI")

  abbrev pub Asked : Value F → Reply F → Type 0
  Asked payload reply =
      (is_text (strip (text_or_empty (get "message" payload))) ≡ false)
      × (reply ≡ asks_for_message flow payload)

  abbrev pub Served : Value F → Reply F → Calls F → Type 0
  Served payload reply after = Asked payload reply ⊎ (HandedOff reply after ⊎ Answered reply after)

  abbrev pub Whatever : Exn → Calls F → Type 0
  Whatever e calls = Unit

  handoff-Served :
      (payload : Value F) (trace : List (ChatTraceEntry F)) (reason : String) (calls : Calls F)
      → Post (handoff flow payload trace reason) calls (Served payload) Whatever
  unfolding handoff handed_off handoff_call result
  handoff-Served payload trace reason calls =
      Post-lift Whatever (required_skill flow "human_handoff") _ calls (Served payload) (λ e h. tt)
        (λ skill h. inr (inl (handoff_call flow payload reason, calls, refl, refl, refl, refl)))

  -- What is found is trusted only as far as the registry returned it.
  abbrev Sound : Found F → Calls F → Type 0
  Sound found calls =
      nonempty found.trusted ≡ true
      → Learned calls found.knowledge × (trusted_hits found.knowledge ≡ ok found.trusted)

  answer-Served :
      (payload : Value F) (message : String) (found : Found F) (calls : Calls F)
      → Sound found calls
      → nonempty found.trusted ≡ true
      → Post (answer flow payload message found) calls (Served payload) Whatever
  unfolding answer answered append_call result
  answer-Served payload message found calls sound some_hits =
      let (known, trusted) = sound some_hits in
      Post-lift Whatever (citations found.trusted) _ calls (Served payload) (λ e h. tt)
        (λ cited h1.
          Post-lift Whatever (required_skill flow "policy_explanation") _ calls (Served payload)
            (λ e h. tt)
            (λ skill h2.
              Post-lift Whatever (generate_answer flow payload found.knowledge found.trusted skill)
                _ calls (Served payload) (λ e h. tt)
                (λ reply h3.
                  Post-if Whatever
                    (not (flow.tools calls (append_call flow payload message found cited reply)).ok)
                    _ _ _ (Served payload)
                    (λ failed. handoff-Served payload _ "answer_persistence_failed" _)
                    (λ kept. inr (
                      inr (
                        found.knowledge,
                        found.trusted,
                        _,
                        calls,
                        refl,
                        known,
                        trusted,
                        trusted_hits-Reliable found.knowledge found.trusted trusted some_hits,
                        refl,
                        refl,
                        ground arith,
                        refl,
                        refl,
                      ))))))

  retrieve_rewritten-Sound :
      (payload : Value F) (message : String) (knowledge : Value F) (queries : List String)
      (calls : Calls F)
      → trusted_hits knowledge ≡ ok []
      → Post (retrieve_rewritten flow payload message knowledge queries) calls Sound Whatever
  unfolding retrieve_rewritten
  retrieve_rewritten-Sound payload message knowledge queries calls untrusted =
      let c = multi_call flow payload message queries in
      let a = flow.tools calls c in
      Post-lift Whatever (trusted_hits (rewritten_knowledge flow knowledge a)) _ (c ∷ calls) Sound
        (λ e h. tt)
        (λ hits h some_hits. (known (a.ok && is_dict a.data_value) refl hits h some_hits, h))
    where
      known :
          (usable : Bool)
          → ((flow.tools calls (multi_call flow payload message queries)).ok
              && is_dict (flow.tools calls (multi_call flow payload message queries)).data_value)
            ≡ usable
          → (hits : List (Value F))
          → trusted_hits (
              if usable
              then (flow.tools calls (multi_call flow payload message queries)).data_value
              else knowledge)
            ≡ ok hits
          → nonempty hits ≡ true
          → Learned (multi_call flow payload message queries ∷ calls) (
              if usable
              then (flow.tools calls (multi_call flow payload message queries)).data_value
              else knowledge)
      known true e hits h some_hits =
          learned (multi_call flow payload message queries) calls (and_split _ _ e).0
      known false e hits h some_hits =
          let same : nonempty hits ≡ false = ap nonempty (ok-injective (sym h ∙ untrusted)) in
          absurd (ground arith)

  none_of :
      (hits : List (Value F)) (a b : Bool) → (not (nonempty hits) && a && b) ≡ true → hits ≡ []
  none_of [] a b h = refl
  none_of (x ∷ xs) a b h = ground arith

  trusted_hits-empty : trusted_hits {F = F} (obj end) ≡ ok []
  unfolding trusted_hits is_eligible_result
  trusted_hits-empty = refl

  no_hits :
      (hits : List (Value F)) → trusted_hits {F = F} (obj end) ≡ ok hits → nonempty hits ≡ true → ⊥
  no_hits hits h some_hits =
      let same : nonempty hits ≡ false = ap nonempty (ok-injective (sym h ∙ trusted_hits-empty)) in
      ground arith

  first_known :
      (c : ToolCall F) (calls : Calls F) (usable dict : Bool)
      → (flow.tools calls c).ok ≡ usable
      → is_dict (flow.tools calls c).data_value ≡ dict
      → (hits : List (Value F))
      → trusted_hits
          (if usable then (if dict then (flow.tools calls c).data_value else obj end) else obj end)
        ≡ ok hits
      → nonempty hits ≡ true
      → Learned
          (c ∷ calls)
          (if usable then (if dict then (flow.tools calls c).data_value else obj end) else obj end)
  first_known c calls true true e d hits h some_hits = learned c calls e
  first_known c calls true false e d hits h some_hits = absurd (no_hits hits h some_hits)
  first_known c calls false dict e d hits h some_hits = absurd (no_hits hits h some_hits)

  find_knowledge-Sound :
      (payload : Value F) (message : String) (c : ToolCall F) (calls : Calls F)
      → Post (find_knowledge flow payload message (flow.tools calls c)) (c ∷ calls) Sound Whatever
  unfolding find_knowledge rewrite_and_retrieve
  find_knowledge-Sound payload message c calls =
      let a = flow.tools calls c in
      let knowledge : Value F = if a.ok then dict_or_empty a.data_value else obj end in
      Post-lift Whatever (trusted_hits knowledge) _ (c ∷ calls) Sound (λ e h. tt)
        (λ hits h.
          Post-if Whatever (may_rewrite flow a knowledge hits) _ _ (c ∷ calls) Sound
            (λ again.
              Post-lift Whatever (rewritten_queries flow payload message knowledge) _ (c ∷ calls)
                Sound (λ e h'. tt)
                (λ queries h'.
                  Post-if Whatever (nonempty queries) _ _ (c ∷ calls) Sound
                    (λ some_queries.
                      retrieve_rewritten-Sound payload message knowledge queries (c ∷ calls)
                        (h ∙ ap ok (none_of hits a.ok _ again)))
                    (λ none_left some_hits. absurd (ground arith))))
            (λ enough some_hits.
              (first_known c calls a.ok (is_dict a.data_value) refl refl hits h some_hits, h)))

  consult-Served :
      (payload : Value F) (message : String) (calls : Calls F)
      → Post (consult flow payload message) calls (Served payload) Whatever
  unfolding consult
  consult-Served payload message calls =
      let c = retrieve_call flow payload message in
      Post-bind Whatever (find_knowledge flow payload message (flow.tools calls c)) _ (c ∷ calls)
        Sound (Served payload) (find_knowledge-Sound payload message c calls)
        (λ found after sound.
          let all = behind flow (trace_entry (flow.tools calls c) c.arguments) found in
          Post-if Whatever (nonempty found.trusted) _ _ after (Served payload)
            (λ some_hits. answer-Served payload message all after sound some_hits)
            (λ untrusted. handoff-Served payload all.entries _ after))

  pub handle_core-Served :
      (payload : Value F) (calls : Calls F)
      → Post (handle_core flow payload) calls (Served payload) Whatever
  unfolding handle_core
  handle_core-Served payload calls =
      let message = strip (text_or_empty (get "message" payload)) in
      Post-if Whatever (not (is_text message)) _ _ calls (Served payload)
        (λ blank. inl (ground arith, refl))
        (λ filled.
          Post-if Whatever (explicit_human_request message) _ _ calls (Served payload)
            (λ wanted. handoff-Served payload [] "explicit_human_request" calls)
            (λ other. consult-Served payload message calls))
