-- ===== src/Tests/Fixtures.antt =====
-- Concrete services: `calm` answers every call with success and every GET with the value of the
-- newest SET; `stopping` is cancelled from the first wait on.
use go_task_flow.Prelude.Int.{pos}
use go_task_flow.Worker.Delivery.{IsFaithful}
use go_task_flow.Worker.Shutdown.{CancelStops}
use go_task_flow.Domain.Errors.{Error, Result, err, external, ok, redis_nil, no_rows}
use go_task_flow.World.Views.{value, IsQuiet}
use go_task_flow.Worker.{Worker}
use go_task_flow.Registry.{Handler}
use go_task_flow.World.{History, Event, Env, waited}
use go_task_flow.Prelude.{
  ◌*◌, ◌/◌, String, ◌≡◌, refl, ap, Bool, true, false, Option, none, some, [], ◌∷◌, str_eq,
  if◌then◌else◌, length, ◌+◌,
}
use go_task_flow.Domain.{pending, Task}

abbrev pub sample : String → Task
sample id = record {
  id = id;
  type = "email";
  payload = "{}";
  status = pending;
  priority = pos 0;
  attempts = pos 0;
  max_retries = pos 3;
  created_at = 1;
  updated_at = 1;
  scheduled_at = none;
  completed_at = none;
}

-- A text stands for the task of that id; the empty text is malformed.
abbrev pub decode_sample : String → Option Task
decode_sample raw = if str_eq raw "" then none else some (sample raw)

abbrev pub or_nil : Option String → Result String
or_nil none = err redis_nil
or_nil (some v) = ok v

abbrev pub stored : History → String → Result String
stored h k = or_nil (value k h)

abbrev pub calm : Env
calm = record {
  now = λ h. length h;
  new_uuid = λ h. "u";
  cancelled = λ h. false;
  ctx_error = λ h. external "context canceled";
  set_answer = λ h k v ttl. none;
  get_answer = stored;
  set_nx_answer = λ h k v ttl. none;
  renew_answer = λ h k v ms. ok 1;
  redis_time = λ h. length h;
  fetch_answer = λ h. err (external "closed");
  commit_answer = λ h p o. none;
  jobs_answer = λ h. ok ([], none);
  cron = λ expr. ok (λ now. now + 60);
  write_answer = λ h m. none;
  exec_answer = λ h s. none;
  row_answer = λ h id. err no_rows;
  rows_answer = λ h status limit. ok ([], none);
  timer_fires = λ h d. true;
  window_answer = λ h key from score member ttl. ok 1;
  smtp_answer = λ h m. some none;
  request_error = λ method url. none;
  http_answer = λ h req. ok 200;
  encode = λ task. ok task.id;
  decode = decode_sample;
  millis = λ n. n / 1_000_000;
  float64 = λ n. (n + 128) / 256 * 256;
  format = record { quote = λ s. s; itoa = λ n. "n" };
}

abbrev pub was_cancelled : History → Bool
was_cancelled [] = false
was_cancelled (waited d false ∷ h) = true
was_cancelled (waited d true ∷ h) = was_cancelled h
was_cancelled (_ ∷ h) = was_cancelled h

abbrev pub if_cancelled : Bool → Option Error
if_cancelled true = some (external "context canceled")
if_cancelled false = none

abbrev pub stopping : Env
stopping = record calm {
  cancelled = was_cancelled;
  set_answer = λ h k v ttl. if_cancelled (was_cancelled h);
  write_answer = λ h m. if_cancelled (was_cancelled h);
  exec_answer = λ h s. if_cancelled (was_cancelled h);
  timer_fires = λ h d. false;
}

abbrev pub succeeding : Handler
succeeding = record { task_type = "email"; handle = λ task h. (none, h) }

abbrev pub failing : Handler
failing = record { task_type = "email"; handle = λ task h. (some (external "boom"), h) }

abbrev pub worker_with : Handler → Worker
worker_with handler = record {
  worker_id = "w-1";
  worker_type = "email";
  registry = ("email", handler) ∷ [];
  max_retries = pos 2;
  timeout = 30;
  base_delay = 1;
}

pub succeeding-IsQuiet : (t : Task) → IsQuiet (succeeding.handle t)
succeeding-IsQuiet t = record {
  value_same = λ k h. refl;
  sets_same = λ k h. refl;
  messages_same = λ k h. refl;
  sent_same = λ k h. refl;
  statements_same = λ h. refl;
  runs_same = λ h. refl;
  successes_same = λ k h. refl;
  ups_same = λ h. refl;
  downs_same = λ h. refl;
}

pub failing-IsQuiet : (t : Task) → IsQuiet (failing.handle t)
failing-IsQuiet t = record {
  value_same = λ k h. refl;
  sets_same = λ k h. refl;
  messages_same = λ k h. refl;
  sent_same = λ k h. refl;
  statements_same = λ h. refl;
  runs_same = λ h. refl;
  successes_same = λ k h. refl;
  ups_same = λ h. refl;
  downs_same = λ h. refl;
}

pub calm-IsFaithful : IsFaithful calm
calm-IsFaithful = record { reads = λ h k v e. ap or_nil e; acks = λ h k v ttl. refl }

stays_cancelled : (h : History) (e : Event) → was_cancelled h ≡ true → was_cancelled (e ∷ h) ≡ true
stays_cancelled h (waited d true) c = c
stays_cancelled h (waited d false) c = refl
stays_cancelled h _ c = c

pub stopping-CancelStops : CancelStops stopping
stopping-CancelStops = record {
  stays = stays_cancelled;
  set_fails = λ h k v ttl c. ap if_cancelled c;
  exec_fails = λ h s c. ap if_cancelled c;
  write_fails = λ h m c. ap if_cancelled c;
}
