-- ===== src/Handlers/Webhook.antt =====
-- internal/handlers/webhook.go: one HTTP request for one task.
use go_task_flow.Gateway.Rest.Lookup.{answer}
use mathlib.Core.Path.{subst}
use go_task_flow.Domain.Errors.{Error, Result, ok, err, wrap, external}
use go_task_flow.World.Views.{IsQuiet}
use go_task_flow.Registry.{Handler}
use go_task_flow.World.{History, M, ◌>>=◌, pure, client_do, HttpRequest, Env}
use go_task_flow.Prelude.{
  ℕ, ◌<◌, String, ◌<>◌, ◌≡◌, refl, sym, ◌≢◌, ◌↔◌, inl, inr, false, Option, none, some, List, ◌∷◌,
  str_eq, eq_iff, leb, if◌then◌else◌, Bool-cases, is_none, arith,
}
use go_task_flow.Domain.{Task, failed}
use go_task_flow.Handlers.{outside-IsQuiet, AddsOutside, unchanged, called, outside, by_http}

-- The headers in the order in which the loop over the map takes them.

pub record WebhookPayload : Type 0 where
  pub url : String
  pub method : String
  pub headers : List (String × String)
  pub body : String

-- http.StatusBadRequest
abbrev pub status_bad_request : ℕ
status_bad_request = 400

module _ (env : Env) (decode_payload : String → Result WebhookPayload) where
  -- POST where the payload names no method.
  unfoldable pub method_of : WebhookPayload → String
  method_of p = if str_eq p.method "" then "POST" else p.method

  unfoldable pub request_for : WebhookPayload → HttpRequest
  unfolding method_of
  request_for p = record {
    method = method_of p;
    url = p.url;
    body = if str_eq p.body "" then none else some p.body;
    fields = p.headers;
  }

  -- The response's status, or the error of the call.
  answered : WebhookPayload → Result ℕ → M (Option Error)
  answered p (err e) = pure (some (wrap ("webhook call to " <> p.url) e))
  answered p (ok code) = pure (
      if leb status_bad_request code
      then some (external ("webhook " <> p.url <> " returned status " <> env.format.itoa code))
      else none)

  -- Behind http.NewRequestWithContext.
  built : WebhookPayload → Option Error → M (Option Error)
  unfolding answered request_for
  built p (some e) = pure (some (wrap "build webhook request" e))
  built p none = do r ← client_do env (request_for p); answered p r

  unpacked : Result WebhookPayload → M (Option Error)
  unfolding built method_of
  unpacked (err e) = pure (some (wrap "invalid webhook payload" e))
  unpacked (ok p) =
      if str_eq p.url ""
      then pure (some (external "webhook payload missing required field 'url'"))
      else built p (env.request_error (method_of p) p.url)

  unfoldable pub handle_webhook : Task → M (Option Error)
  unfolding unpacked
  handle_webhook task = unpacked (decode_payload task.payload)

  unfoldable pub webhook_handler : Handler
  unfolding handle_webhook
  webhook_handler = record { task_type = "webhook"; handle = handle_webhook }

  -- Why no request can be made for a payload.
  pub data Unusable : Result WebhookPayload → Type 0 where
    unreadable : (e : Error) → Unusable (err e)
    no_url : (p : WebhookPayload) → p.url ≡ "" → Unusable (ok p)
    unbuilt :
        (p : WebhookPayload) (e : Error)
        → env.request_error (method_of p) p.url ≡ some e
        → Unusable (ok p)

  -- How handling a task ends.
  pub data Called (task : Task) (h : History) (r : Option Error × History) : Type 0 where
    uncalled :
        Unusable (decode_payload task.payload) → is_none r.0 ≡ false → r.1 ≡ h → Called task h r
    answered_with :
        (p : WebhookPayload) (answer : Result ℕ)
        → decode_payload task.payload ≡ ok p
        → p.url ≢ ""
        → answer ≡ env.http_answer h (request_for p)
        → r.1 ≡ called (request_for p) answer ∷ h
        → (r.0 ≡ none ↔ (code : ℕ) × (answer ≡ ok code) × (code < 400))
        → Called task h r

  answered-none :
      (p : WebhookPayload) (answer : Result ℕ) (h : History)
      → ((answered p answer h).0 ≡ none ↔ (code : ℕ) × (answer ≡ ok code) × (code < 400))
        × ((answered p answer h).1 ≡ h)
  unfolding answered
  answered-none p (err e) h = ((λ x. absurd (cc x), λ x. absurd (cc (x.1))), refl)
  answered-none p (ok code) h =
      ((λ x. (code, refl, ground (arith, x)), λ x. ground (arith, x.1, x.2)), refl)

  built-Called :
      (task : Task) (p : WebhookPayload) (h : History) (made : Option Error)
      → decode_payload task.payload ≡ ok p
      → p.url ≢ ""
      → env.request_error (method_of p) p.url ≡ made
      → Called task h (built p made h)
  unfolding built
  built-Called task p h (some e) decoded named failed =
      uncalled (subst Unusable (sym decoded) (unbuilt p e failed)) refl refl
  built-Called task p h none decoded named good =
      let answer = env.http_answer h (request_for p) in
      let (result, same) = answered-none p answer (called (request_for p) answer ∷ h) in
      answered_with p answer decoded named refl same result

  unpacked-Called :
      (task : Task) (d : Result WebhookPayload) (h : History)
      → decode_payload task.payload ≡ d
      → Called task h (unpacked d h)
  unfolding unpacked
  unpacked-Called task (err e) h decoded =
      uncalled (subst Unusable (sym decoded) (unreadable e)) refl refl
  unpacked-Called task (ok p) h decoded = elim (Bool-cases (str_eq p.url "")) [
    | inl empty ↦
        rw empty
          (uncalled (subst Unusable (sym decoded) (no_url p ((eq_iff p.url "").0 empty))) refl refl)
    | inr named ↦
        rw named (built-Called task p h _ decoded (λ e. cc (named, (eq_iff p.url "").1 e)) refl)
  ]

  -- A task is one request at most. None is made, and an error is returned, where the payload is
  -- malformed, names no URL, or gives no valid request; otherwise exactly one is made, with the
  -- payload's URL, headers and body, by POST if it names no method, and the result is nil exactly
  -- when a status below 400 is answered.
  pub handle_webhook-Called : (task : Task) (h : History) → Called task h (handle_webhook task h)
  unfolding handle_webhook
  handle_webhook-Called task h = unpacked-Called task (decode_payload task.payload) h refl

  pub webhook_handler-IsQuiet : (task : Task) → IsQuiet (webhook_handler.handle task)
  unfolding webhook_handler
  webhook_handler-IsQuiet task = outside-IsQuiet _ (λ h. adds h (handle_webhook-Called task h))
    where
      adds : (h : History) {r : Option Error × History} → Called task h r → AddsOutside h r.1
      adds h {r} (uncalled why bad same) = rw same unchanged
      adds h {r} (answered_with p answer decoded named asked same result) =
          rw same (outside (by_http _ _))
