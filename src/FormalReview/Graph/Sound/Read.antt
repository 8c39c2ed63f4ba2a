-- ===== src/FormalReview/Graph/Sound/Read.antt =====
-- The nodes that read: `load_trusted_context`, `validate_review_inputs`, `sop_plan` and the two
-- specialists.
use ecommerce_after_sales_sy.Prelude.{
  is_some, String, ◌≡◌, refl, true, not, ◌||◌, ◌&&◌, All, Option, none, some, nonempty, arith, inl,
  inr, str_eq, Bool-cases,
}
use ecommerce_after_sales_sy.Python.Value.{Value, get, is_dict, int, pos}
use ecommerce_after_sales_sy.Python.Text.{is_text}
use ecommerce_after_sales_sy.Python.Result.{
  Exn, value_error, type_error, overflow_error, Result, ok, ◌>>=◌,
}
use ecommerce_after_sales_sy.Python.Ensures.{
  Ensures, Raises, Ensures-bind, Ensures-if, iterate_or_empty-Raises, to_int-Raises,
}
use ecommerce_after_sales_sy.Python.Runtime.{Runtime}
use ecommerce_after_sales_sy.Python.Convert.{or_else, iterate_or_empty, to_int}
use ecommerce_after_sales_sy.FormalReview.Contracts.{TrustedCaseContext, ToolResult}
use ecommerce_after_sales_sy.FormalReview.Context.{from_ticket, raw_attachments, dicts}
use ecommerce_after_sales_sy.FormalReview.Graph.State.{
  Call, get_after_sales_ticket, TicketArguments, FormalReviewState, Collaborators, Settings,
  Machine, has_text, or_text,
}
use ecommerce_after_sales_sy.FormalReview.Graph.Load.{
  accept_context, missing_inputs, ticket_call, ticket_traced, receive_ticket, load_trusted_context,
  validate_review_inputs, sop_plan,
}
use ecommerce_after_sales_sy.FormalReview.Graph.Run.{
  at_inputs, route_after_context, route_after_input_validation,
}
use ecommerce_after_sales_sy.FormalReview.Graph.Approved.{Ready, HasContext, HasPlan}

module _ {F : Type 0} ⦃r : Runtime F⦄ (env : Collaborators F) (cfg : Settings F) (E : Exn → Type 0)
    (value : (t : String) → E (value_error t)) (type : E type_error)
    (overflow : E overflow_error) where
  raw_attachments-Raises :
      (base : String) (payload ticket : Value F) → Raises E (raw_attachments base payload ticket)
  unfolding raw_attachments
  raw_attachments-Raises base payload ticket =
      Ensures-bind E (iterate_or_empty (get "attachments" payload)) _ (λ _. Unit) (λ _. Unit)
        (iterate_or_empty-Raises E value type (get "attachments" payload))
        λ given _.
          Ensures-if E (nonempty (dicts given)) _ _ (λ _. Unit) (λ _. tt)
            λ _.
              Ensures-bind E (iterate_or_empty (get "evidence_urls" ticket)) _ (λ _. Unit)
                (λ _. Unit) (iterate_or_empty-Raises E value type (get "evidence_urls" ticket))
                (λ _ _. tt)

  from_ticket-Raises :
      (base : String) (payload ticket : Value F) → Raises E (from_ticket base payload ticket)
  unfolding from_ticket
  from_ticket-Raises base payload ticket =
      Ensures-bind E (raw_attachments base payload ticket) _ (λ _. Unit) (λ _. Unit)
        (raw_attachments-Raises base payload ticket)
        λ _ _.
          Ensures-bind E (to_int (or_else (get "evidence_revision" ticket) (int (pos 0)))) _
            (λ _. Unit) (λ _. Unit)
            (to_int-Raises E value type overflow
              (or_else (get "evidence_revision" ticket) (int (pos 0))))
            (λ _ _. tt)

  -- Where the graph goes on, the ticket waits for a review.
  abbrev pub ReadsContext : FormalReviewState F → Type 0
  ReadsContext s = route_after_context s ≡ at_inputs → HasContext s

  accept_context-ReadsContext :
      (s : FormalReviewState F) (ticket : Value F) (c : TrustedCaseContext F)
      → ReadsContext (accept_context env cfg s ticket c)
  unfolding accept_context route_after_context
  accept_context-ReadsContext s ticket c =
      elim (Bool-cases
        (str_eq c.ticket_status "PENDING" || str_eq c.ticket_status "PENDING_REVIEW")) [
          | inl h ↦ rw h (λ _. (c, refl, h))
          | inr h ↦ rw h (λ p. ground arith)
        ]

  accepts :
      (t : FormalReviewState F) (v : Value F) (m : Result (TrustedCaseContext F))
      → Raises E m
      → Ensures E (m >>= λ c. ok (accept_context env cfg t v c)) ReadsContext
  accepts t v m h =
      Ensures-bind E m _ (λ _. Unit) ReadsContext h (λ c _. accept_context-ReadsContext t v c)

  -- A state with a failure reason is not read on.
  failed-ReadsContext :
      (s : FormalReviewState F) → has_text s.failure_reason ≡ true → ReadsContext s
  unfolding route_after_context
  failed-ReadsContext s h = ground arith

  lookup_reason : (o : Option String) → has_text (some (or_text o "ticket_lookup_failed")) ≡ true
  lookup_reason none = refl
  lookup_reason (some t) = elim (Bool-cases (is_text t)) [ inl h ↦ rw (h, h) | inr h ↦ rw h ]

  receive_ticket-ReadsContext :
      (s : FormalReviewState F) (result : ToolResult F)
      → Ensures E (receive_ticket env cfg s result) ReadsContext
  unfolding receive_ticket
  receive_ticket-ReadsContext s result =
      Ensures-if E (not result.ok || not (is_dict result.data_value)) _ _ ReadsContext
        (λ _. failed-ReadsContext _ (lookup_reason result.error_category))
        λ _.
          accepts (ticket_traced env cfg s result) result.data_value _
            (from_ticket-Raises cfg.tool_base_url s.payload result.data_value)

  routed : (s : FormalReviewState F) → ReadsContext s → Ready cfg (route_after_context s) s
  unfolding route_after_context
  routed s k = elim (Bool-cases (is_some s.trusted_context && not (has_text s.failure_reason))) [
    | inl p ↦ rw p (k (rw p))
    | inr p ↦ rw p tt
  ]

  abbrev pub Loaded : (Call F → Type 0) → Machine F → Type 0
  Loaded P n = Ready cfg (route_after_context n.state) n.state × All P n.calls

  pub load_trusted_context-Loaded :
      (m : Machine F) (P : Call F → Type 0)
      → ((a : TicketArguments F) → P (get_after_sales_ticket a))
      → All P m.calls
      → Ensures E (load_trusted_context env cfg m) (Loaded P)
  unfolding load_trusted_context
  load_trusted_context-Loaded m P ticket h =
      Ensures-bind E
        (receive_ticket env cfg m.state (env.call m.calls (ticket_call env cfg m.state))) _
        ReadsContext (Loaded P)
        (receive_ticket-ReadsContext m.state (env.call m.calls (ticket_call env cfg m.state)))
        λ s k. (routed s k, (ticket _, h))

module _ {F : Type 0} ⦃r : Runtime F⦄ (cfg : Settings F) (E : Exn → Type 0) where
  abbrev pub Validated : FormalReviewState F → Type 0
  Validated s = Ready cfg (route_after_input_validation s) s

  pub validate_review_inputs-Validated :
      (s : FormalReviewState F) → HasContext s → Ensures E (validate_review_inputs s) Validated
  unfolding validate_review_inputs route_after_input_validation
  validate_review_inputs-Validated s (c, e, p) =
      rw e (elim (Bool-cases (nonempty (missing_inputs s.ticket_data c))) [
        | inl h ↦ rw (h, h) tt
        | inr h ↦ rw (h) (c, refl, p)
      ])

  pub sop_plan-HasPlan :
      (s : FormalReviewState F)
      → HasContext s
      → Ensures E (sop_plan s) (λ t. HasContext t × HasPlan t)
  unfolding sop_plan
  sop_plan-HasPlan s (c, e, p) = rw e ((c, refl, p), (_, refl))
