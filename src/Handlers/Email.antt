-- ===== src/Handlers/Email.antt =====
-- internal/handlers/email.go: one mail for one task.
use go_task_flow.Gateway.Rest.Lookup.{answer}
use go_task_flow.Prelude.Int.{ℤ, pos, negsuc}
use go_task_flow.Handlers.{outside-IsQuiet, AddsOutside, unchanged, outside, by_mail}
use go_task_flow.Domain.Errors.{Error, Result, err, wrap, ok, external, Format}
use go_task_flow.World.Views.{IsQuiet}
use go_task_flow.Registry.{Handler}
use go_task_flow.World.{History, M, ◌>>=◌, pure, send_mail, Mail, Env, mailed}
use go_task_flow.Prelude.{
  String, ◌<>◌, ◌≡◌, refl, ◌≢◌, ◌↔◌, false, Option, none, some, ◌∷◌, str_eq, if◌then◌else◌, is_none,
  ap, inl, inr, eq_iff, Bool-cases, suc,
}
use go_task_flow.Domain.{Task}

-- %d of an int.
abbrev pub decimal : Format → ℤ → String
decimal f (pos n) = f.itoa n
decimal f (negsuc n) = "-" <> f.itoa (suc n)

pub record EmailConfig : Type 0 where
  pub host : String
  pub port : ℤ
  pub from : String
  pub username : String
  pub password : String

pub record EmailPayload : Type 0 where
  pub to : String
  pub subject : String
  pub body : String

unfoldable pub build_mime : String → String → String → String → String
build_mime from to subject body =
    "From: " <> from <> "\r\nTo: " <> to <> "\r\nSubject: " <> subject
    <> "\r\nMIME-Version: 1.0\r\nContent-Type: text/plain; charset=UTF-8\r\n\r\n" <> body

module _ (env : Env) (cfg : EmailConfig) (decode_payload : String → Result EmailPayload) where
  -- No authentication without a user name.
  unfoldable pub mail_for : EmailPayload → Mail
  unfolding build_mime
  mail_for p = record {
    address = cfg.host <> ":" <> decimal env.format cfg.port;
    auth = if str_eq cfg.username "" then none else some (cfg.username, cfg.password, cfg.host);
    sender = cfg.from;
    recipient = p.to;
    content = build_mime cfg.from p.to p.subject p.body;
  }

  -- The select on the result of SendMail and the end of the context.
  sent : EmailPayload → Option (Option Error) → M (Option Error)
  sent p (some none) = pure none
  sent p (some (some e)) = pure (some (wrap ("smtp send to " <> p.to) e))
  sent p none = λ h. (some (wrap "email send timed out" (env.ctx_error h)), h)

  unpacked : Result EmailPayload → M (Option Error)
  unfolding sent mail_for
  unpacked (err e) = pure (some (wrap "invalid email payload" e))
  unpacked (ok p) =
      if str_eq p.to ""
      then pure (some (external "email payload missing required field 'to'"))
      else (do r ← send_mail env (mail_for p); sent p r)

  unfoldable pub handle_email : Task → M (Option Error)
  unfolding unpacked
  handle_email task = unpacked (decode_payload task.payload)

  unfoldable pub email_handler : Handler
  unfolding handle_email
  email_handler = record { task_type = "email"; handle = handle_email }

  -- How handling a task ends. An error is none only where the server took the mail in time.
  pub data Mailed (task : Task) (h : History) (r : Option Error × History) : Type 0 where
    unreadable :
        (e : Error)
        → decode_payload task.payload ≡ err e
        → r ≡ (some (wrap "invalid email payload" e), h)
        → Mailed task h r
    no_recipient :
        (p : EmailPayload)
        → decode_payload task.payload ≡ ok p
        → p.to ≡ ""
        → (is_none r.0 ≡ false) × (r.1 ≡ h)
        → Mailed task h r
    attempted :
        (p : EmailPayload) (answer : Option (Option Error))
        → decode_payload task.payload ≡ ok p
        → p.to ≢ ""
        → answer ≡ env.smtp_answer h (mail_for p)
        → r.1 ≡ mailed (mail_for p) answer ∷ h
        → (r.0 ≡ none ↔ answer ≡ some none)
        → Mailed task h r

  sent-none :
      (p : EmailPayload) (answer : Option (Option Error)) (h : History)
      → ((sent p answer h).0 ≡ none ↔ answer ≡ some none) × ((sent p answer h).1 ≡ h)
  unfolding sent
  sent-none p none h = ((λ e. cc, λ e. cc), refl)
  sent-none p (some none) h = ((λ e. refl, λ e. refl), refl)
  sent-none p (some (some x)) h = ((λ e. cc, λ e. cc), refl)

  unpacked-Mailed :
      (task : Task) (d : Result EmailPayload) (h : History)
      → decode_payload task.payload ≡ d
      → Mailed task h (unpacked d h)
  unfolding unpacked
  unpacked-Mailed task (err e) h decoded = unreadable e decoded refl
  unpacked-Mailed task (ok p) h decoded = elim (Bool-cases (str_eq p.to "")) [
    | inl empty ↦ rw empty (no_recipient p decoded ((eq_iff p.to "").0 empty) (refl, refl))
    | inr named ↦
        let answer = env.smtp_answer h (mail_for p) in
        let (result, same) = sent-none p answer (mailed (mail_for p) answer ∷ h) in
        rw named
          (attempted p answer decoded (λ e. cc (named, (eq_iff p.to "").1 e)) refl same result)
  ]

  -- A task is one mail at most: nothing is sent where the payload is malformed or names no
  -- recipient, which is an error; otherwise exactly one mail is handed to the server, made of the
  -- configuration and the payload, and the result is nil exactly when the server took it before
  -- the context ended.
  pub handle_email-Mailed : (task : Task) (h : History) → Mailed task h (handle_email task h)
  unfolding handle_email
  handle_email-Mailed task h = unpacked-Mailed task (decode_payload task.payload) h refl

  -- The mail server is no part of the queue.
  pub email_handler-IsQuiet : (task : Task) → IsQuiet (email_handler.handle task)
  unfolding email_handler
  email_handler-IsQuiet task = outside-IsQuiet _ (λ h. adds h (handle_email-Mailed task h))
    where
      adds : (h : History) {r : Option Error × History} → Mailed task h r → AddsOutside h r.1
      adds h {r} (unreadable e decoded same) = rw (ap (λ x. x.1) same) unchanged
      adds h {r} (no_recipient p decoded empty out) = rw out.1 unchanged
      adds h {r} (attempted p answer decoded named asked same result) =
          rw same (outside (by_mail _ _))
