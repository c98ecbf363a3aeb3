-- ===== src/Gateway/Middleware.antt =====
-- services/api-gateway/middleware/logging.go: the writer that notes the status code, over the
-- writer of net/http.
use go_task_flow.Prelude.{
  ℕ, String, ◌<>◌, ◌≡◌, refl, sym, ap, ◌∙◌, Bool, true, false, Option, none, some, List, [], ◌∷◌,
}

-- What a handler calls on its writer, with final status codes.
pub data Call : Type 0 where
  write_header : ℕ → Call
  write : String → Call

-- The writer of net/http: the first status counts, and a body without one has 200.
pub record Server : Type 0 where
  pub sent : Option ℕ
  pub body : String

unfoldable pub or_ok : Option ℕ → ℕ
or_ok none = 200
or_ok (some code) = code

first_status : Option ℕ → ℕ → Option ℕ
first_status none code = some code
first_status (some c) code = some c

unfoldable pub serve : Server → Call → Server
unfolding first_status
serve s (write_header code) = record s { sent = first_status s.sent code }
serve s (write bytes) = record { sent = first_status s.sent 200; body = s.body <> bytes }

-- The client's status.
unfoldable pub status_sent : Server → ℕ
unfolding or_ok
status_sent s = or_ok s.sent

pub record ResponseWriter : Type 0 where
  pub inner : Server
  pub status : ℕ

-- WriteHeader is its own, every other method is that of the inner writer.
unfoldable pub pass_on : ResponseWriter → Call → ResponseWriter
pass_on w (write_header code) = record { inner = serve w.inner (write_header code); status = code }
pass_on w (write bytes) = record w { inner = serve w.inner (write bytes) }

unfoldable pub served : Server → List Call → Server
served s [] = s
served s (c ∷ cs) = served (serve s c) cs

unfoldable pub passed_on : ResponseWriter → List Call → ResponseWriter
passed_on w [] = w
passed_on w (c ∷ cs) = passed_on (pass_on w c) cs

abbrev pub fresh : Server
fresh = record { sent = none; body = "" }

-- A handler: its calls, and whether it panics behind them.
pub record Handling : Type 0 where
  pub calls : List Call
  pub panics : Bool

-- The status that is logged: none if the handler panics, since the log does not stand in a
-- deferred call.
log_status : Bool → ℕ → Option ℕ
log_status true status = none
log_status false status = some status

-- RequestLogger: what the client's server has got, and the log.
unfoldable pub request_logger : Handling → Server × Option ℕ
unfolding log_status
request_logger handler =
    let w = passed_on (record { inner = fresh; status = 200 }) handler.calls in
    (w.inner, log_status handler.panics w.status)

-- Nothing but bodies.
pub data Writes : List Call → Type 0 where
  nothing : Writes []
  body_first : {cs : List Call} (text : String) → Writes cs → Writes (write text ∷ cs)

-- A handler that writes its status at most once, and first.
pub data IsOrderly : List Call → Type 0 where
  unheaded : {cs : List Call} → Writes cs → IsOrderly cs
  headed : {cs : List Call} (code : ℕ) → Writes cs → IsOrderly (write_header code ∷ cs)

-- The inner writer is served as it would be without the logger.
inner-passed_on : (w : ResponseWriter) (cs : List Call) → (passed_on w cs).inner ≡ served w.inner cs
unfolding passed_on served pass_on
inner-passed_on w [] = refl
inner-passed_on w (write_header code ∷ cs) = inner-passed_on (pass_on w (write_header code)) cs
inner-passed_on w (write bytes ∷ cs) = inner-passed_on (pass_on w (write bytes)) cs

status-Writes :
    (w : ResponseWriter) {cs : List Call} → Writes cs → (passed_on w cs).status ≡ w.status
unfolding passed_on pass_on
status-Writes w nothing = refl
status-Writes w (body_first text x) = status-Writes (pass_on w (write text)) x

sent-Writes :
    (s : Server) (code : ℕ) {cs : List Call}
    → s.sent ≡ some code
    → Writes cs
    → status_sent (served s cs) ≡ code
unfolding served serve status_sent first_status
sent-Writes s code known nothing = rw known refl
sent-Writes s code known (body_first text x) =
    sent-Writes (serve s (write text)) code (rw known refl) x

unheaded-Writes : {cs : List Call} → Writes cs → status_sent (served fresh cs) ≡ 200
unfolding served serve status_sent first_status
unheaded-Writes nothing = refl
unheaded-Writes (body_first text x) = sent-Writes _ 200 refl x

logged-IsOrderly :
    {cs : List Call}
    → IsOrderly cs
    → (passed_on (record { inner = fresh; status = 200 }) cs).status ≡ status_sent (served fresh cs)
unfolding passed_on pass_on served serve first_status
logged-IsOrderly (unheaded x) = status-Writes _ x ∙ sym (unheaded-Writes x)
logged-IsOrderly (headed code x) = status-Writes _ x ∙ sym (sent-Writes _ code refl x)

-- For a handler that returns, having written its status at most once and before its body, the
-- client gets what it would get without the logger, and the status that is logged is the client's,
-- 200 where the handler writes none.
pub request_logger-Transparent :
    (calls : List Call)
    → IsOrderly calls
    → ((request_logger (record { calls = calls; panics = false })).0 ≡ served fresh calls)
      × ((request_logger (record { calls = calls; panics = false })).1
          ≡ some (status_sent (served fresh calls)))
unfolding request_logger
request_logger-Transparent calls orderly =
    (inner-passed_on _ calls, ap some (logged-IsOrderly orderly))

-- The client of a handler that panics gets what the handler has written, and nothing is logged.
pub request_logger-panics :
    (calls : List Call)
    → request_logger (record { calls = calls; panics = true }) ≡ (served fresh calls, none)
unfolding request_logger
request_logger-panics calls = ap (λ s. (s, none)) (inner-passed_on _ calls)
