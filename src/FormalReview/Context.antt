-- ===== src/FormalReview/Context.antt =====
-- formal_review/contracts.py: `_clean_string`, `_normalize_evidence_source` and
-- `TrustedCaseContext.from_ticket`, which reads the ticket that the Java service returned.
use Prim.Native.String.{◌++◌ as append}
use ecommerce_after_sales_sy.Prelude.{
  ℕ, ◌+◌, Char, code, String, ◌&&◌, Option, none, some, List, [], ◌∷◌, keep, nonempty, ◌==◌,
  if◌then◌else◌,
}
use ecommerce_after_sales_sy.Python.Text.{
  is_text, is_empty, strip, has_prefix, slice_to, join, dedup,
}
use ecommerce_after_sales_sy.Python.Value.{
  ℤ, pos, negsuc, Value, int, str, arr, obj, nil, end, field, get, is_dict,
}
use ecommerce_after_sales_sy.Python.Result.{Result, ok, ◌>>=◌}
use ecommerce_after_sales_sy.Python.Runtime.{Runtime}
use ecommerce_after_sales_sy.Python.Convert.{
  or_else, text, text_or_empty, nonblank, to_int, iterate_or_empty, upper, lower,
}
use ecommerce_after_sales_sy.FormalReview.Contracts.{TrustedCaseContext}

drop_slash : Char → String → String
drop_slash c r = if code c == b'/' && is_empty r then String.[] else String.◌∷◌ c r

-- `s.rstrip("/")`
rstrip_slash : String → String
unfolding drop_slash
rstrip_slash String.[] = String.[]
rstrip_slash (String.◌∷◌ c s) = drop_slash c (rstrip_slash s)

-- `s.split(t, 1)[0]`
before : String → String → String
before t String.[] = String.[]
before t (String.◌∷◌ c s) =
    let rest = before t s in if has_prefix (String.◌∷◌ c s) t then String.[] else String.◌∷◌ c rest

-- The texts of a tuple with None and "" left out.
unfoldable pub present : List (Option String) → List String
present [] = []
present (none ∷ r) = present r
present (some s ∷ r) = let rest = present r in if is_text s then s ∷ rest else rest

-- `max(0, n)`
abbrev nonneg : ℤ → ℕ
nonneg (pos n) = n
nonneg (negsuc n) = 0

module _ {F : Type 0} ⦃r : Runtime F⦄ where
  -- `_clean_string`
  unfoldable pub clean_string : Value F → Option String
  clean_string v = nonblank (strip (text_or_empty v))

  -- `_normalize_evidence_source`; the base URL is the environment's, or its default.
  unfoldable pub normalize_evidence_source : String → Value F → String
  unfolding rstrip_slash before
  normalize_evidence_source tool_base_url v =
      let source = strip (text_or_empty v) in
      if has_prefix source "/"
      then append (rstrip_slash (before "/internal/agent-tools" (rstrip_slash tool_base_url)))
          source
      else source

  -- `[dict(item) for item in … if isinstance(item, dict)]`
  unfoldable pub dicts : List (Value F) → List (Value F)
  dicts xs = keep is_dict xs

  -- The attachments made of the ticket's evidence URLs, numbered from `index`.
  ticket_attachments : String → ℕ → List (Value F) → List (Value F)
  ticket_attachments base index [] = []
  ticket_attachments base index (url ∷ urls) =
      let rest = ticket_attachments base (index + 1) urls in
      let number = text {F = F} (int (pos index)) in
      if is_text (strip (text_or_empty url))
      then obj (
          field "kind" (str "image") (
            field "name" (str (append "ticket_evidence_" (append number ".jpg")))
              (field "source" (str (normalize_evidence_source base url)) end)))
        ∷ rest
      else rest

  unfoldable pub raw_attachments : String → Value F → Value F → Result (List (Value F))
  unfolding dicts ticket_attachments
  raw_attachments base payload ticket = do
    given ← iterate_or_empty (get "attachments" payload)
    if nonempty (dicts given) then ok (dicts given) else do
      urls ← iterate_or_empty (get "evidence_urls" ticket)
      ok (ticket_attachments base 1 urls)

  -- The digest that stands for a version where the ticket names none.
  version_digest : Value F → String
  version_digest ticket = slice_to 24 (
      r.digest (
        obj (
          field "ticket_id" (get "ticket_id" ticket) (
            field "status" (get "status" ticket) (
              field "policy_version" (get "policy_version" ticket)
                (field "evidence_urls" (or_else (get "evidence_urls" ticket) (arr nil)) end))))))

  abbrev or_digest : Option String → Value F → String
  or_digest (some v) ticket = v
  or_digest none ticket = version_digest ticket

  client_source : Value F → String
  client_source payload =
      lower r.other_lower
        (text (or_else (get "source" (get "client_context" payload)) (str "unknown")))

  -- `from_ticket`
  unfoldable pub from_ticket : String → Value F → Value F → Result (TrustedCaseContext F)
  unfolding clean_string raw_attachments version_digest client_source present
  from_ticket base payload ticket = do
    attachments ← raw_attachments base payload ticket
    revision ← to_int (or_else (get "evidence_revision" ticket) (int (pos 0)))
    ok (record {
      user_id = text (or_else (or_else (get "user_id" payload) (get "user_id" ticket)) (str ""));
      session_id = clean_string (get "session_id" payload);
      ticket_id =
          text (or_else (or_else (get "ticket_id" ticket) (get "ticket_id" payload)) (str ""));
      order_id = text (or_else (or_else (get "order_id" ticket) (get "order_id" payload)) (str ""));
      ticket_status = upper r.other_upper (text_or_empty (get "status" ticket));
      merchant_code = clean_string (get "merchant_code" ticket);
      policy_version = clean_string (get "policy_version" ticket);
      product_name = clean_string (get "product_name" ticket);
      product_category =
          clean_string (or_else (get "category" ticket) (get "product_category" ticket));
      after_sales_type = clean_string (get "after_sales_type" ticket);
      issue_description = join "；" (
          dedup (
            present (
              clean_string (get "reason" ticket)
              ∷ clean_string (get "reason_detail" ticket)
              ∷ clean_string (get "description" ticket)
              ∷ [])));
      business_time =
          clean_string (or_else (get "after_sales_applied_at" ticket) (get "create_time" ticket));
      context_version = or_digest (clean_string (get "context_version" ticket)) ticket;
      evidence_revision = nonneg revision;
      request_source = client_source payload;
      attachments = attachments;
    })
