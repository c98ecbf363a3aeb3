-- ===== src/Tests/Middleware.antt =====
-- The logger around two handlers.
use go_task_flow.Gateway.Middleware.{
  Call, pass_on, passed_on, serve, write_header, write, fresh, served, status_sent, request_logger,
  headed, body_first, nothing, request_logger-Transparent,
}
use go_task_flow.Prelude.{◌≡◌, refl, false, some, [], ◌∷◌, List}

abbrev not_found : List Call
not_found = write_header 404 ∷ write "task not found" ∷ []

request_logger-Transparent_test :
    ((request_logger (record { calls = not_found; panics = false })).0 ≡ served fresh not_found)
    × ((request_logger (record { calls = not_found; panics = false })).1
        ≡ some (status_sent (served fresh not_found)))
request_logger-Transparent_test =
    request_logger-Transparent not_found (headed 404 (body_first "task not found" nothing))

-- A second status is logged, and the client has the first.
second_status_logged :
    request_logger (record { calls = write_header 200 ∷ write_header 500 ∷ []; panics = false })
    ≡ (record { sent = some 200; body = "" }, some 500)
unfolding request_logger passed_on pass_on serve
second_status_logged = refl
