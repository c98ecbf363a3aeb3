-- ===== src/Tests/Handlers.antt =====
-- The handlers at concrete tasks.
use go_task_flow.Prelude.Int.{pos}
use go_task_flow.Registry.{new_registry, register, register-get}
use go_task_flow.Registry.{get}
use go_task_flow.Domain.Errors.{Result, ok}
use go_task_flow.Handlers.Email.{
  handle_email, handle_email-Mailed, EmailConfig, EmailPayload, Mailed,
}
use go_task_flow.Handlers.Webhook.{handle_webhook, handle_webhook-Called, WebhookPayload, Called}
use go_task_flow.Tests.Fixtures.{sample, calm, succeeding, failing}
use go_task_flow.World.{Env}
use go_task_flow.Prelude.{ℕ, String, ◌≡◌, refl, true, false, [], is_none, str_eq}

abbrev mail_config : EmailConfig
mail_config = record {
  host = "mail.local";
  port = pos 25;
  from = "queue@local";
  username = "";
  password = "";
}

abbrev decode_mail : String → Result EmailPayload
decode_mail payload = ok (record { to = "a@b.c"; subject = "s"; body = payload })

handle_email-Mailed_example :
    Mailed calm mail_config decode_mail
      (sample "t1")
      []
      (handle_email calm mail_config decode_mail (sample "t1") [])
handle_email-Mailed_example = handle_email-Mailed calm mail_config decode_mail (sample "t1") []

abbrev decode_hook : String → Result WebhookPayload
decode_hook payload = ok (record { url = "http://h"; method = ""; headers = []; body = payload })

handle_webhook-Called_example :
    Called calm decode_hook (sample "t1") [] (handle_webhook calm decode_hook (sample "t1") [])
handle_webhook-Called_example = handle_webhook-Called calm decode_hook (sample "t1") []

-- A status of 400 is a failure, one of 399 is not.
abbrev answering : ℕ → Env
answering code = record calm { http_answer = λ h req. ok code }

fails_from_400 :
    (is_none (handle_webhook (answering 399) decode_hook (sample "t1") []).0 ≡ true)
    × (is_none (handle_webhook (answering 400) decode_hook (sample "t1") []).0 ≡ false)
unfolding handle_webhook
fails_from_400 = (refl, refl)

register-get_example :
    (get (register failing (register succeeding new_registry)) "email" ≡ ok failing)
    × ((k : String)
        → str_eq "email" k ≡ false
        → get (register failing (register succeeding new_registry)) k
          ≡ get (register succeeding new_registry) k)
register-get_example = register-get failing (register succeeding new_registry)
