-- ===== src/Tests/Carrier.antt =====
-- The carrier on three headers, two of the same key.
use go_task_flow.Carrier.{HeaderCarrier, set}
use go_task_flow.Carrier.InPlace.{set_in_place, set_in_place-set}
use go_task_flow.Prelude.{◌≡◌, [], ◌∷◌}

abbrev traced : HeaderCarrier
traced =
    record { key = "traceparent"; value = "00-1" }
    ∷ record { key = "tracestate"; value = "a=b" }
    ∷ record { key = "traceparent"; value = "00-2" }
    ∷ []

set_in_place-set_example :
    set_in_place traced "traceparent" "00-3" ≡ set traced "traceparent" "00-3"
set_in_place-set_example = set_in_place-set traced "traceparent" "00-3"
