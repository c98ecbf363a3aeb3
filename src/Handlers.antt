-- ===== src/Handlers.antt =====
-- internal/handlers: what the two built-in handlers do with a task. Spans are left out. Here: a
-- computation that calls only servers outside the queue shows in no view of the queue.
pub mod Email
pub mod Webhook
use go_task_flow.Domain.Errors.{Error, Result}
use go_task_flow.World.Views.{
  value, sets, messages, sent, statements, runs, successes, ups, downs, IsQuiet,
}
use go_task_flow.World.{History, M, Mail, HttpRequest, Event, mailed, called}
use go_task_flow.Prelude.{ℕ, String, ◌≡◌, refl, Option, ◌∷◌}

-- A call of a server that is no part of the queue.
pub data IsOutside : Event → Type 0 where
  by_mail : (m : Mail) (r : Option (Option Error)) → IsOutside (mailed m r)
  by_http : (q : HttpRequest) (r : Result ℕ) → IsOutside (called q r)

-- At most one call of such a server.
pub data AddsOutside (h : History) : History → Type 0 where
  unchanged : AddsOutside h h
  outside : {e : Event} → IsOutside e → AddsOutside h (e ∷ h)

-- A view that does not look at such calls.
view_same :
    {B : Type 0} (f : History → B)
    → ((g : History) (e : Event) → IsOutside e → f (e ∷ g) ≡ f g)
    → {h g : History} → AddsOutside h g
    → f g ≡ f h
view_same f blind unchanged = refl
view_same f blind (outside x) = blind _ _ x

value_blind : (k : String) (g : History) (e : Event) → IsOutside e → value k (e ∷ g) ≡ value k g
unfolding value
value_blind k g _ (by_mail m r) = refl
value_blind k g _ (by_http q r) = refl

sets_blind : (k : String) (g : History) (e : Event) → IsOutside e → sets k (e ∷ g) ≡ sets k g
unfolding sets
sets_blind k g _ (by_mail m r) = refl
sets_blind k g _ (by_http q r) = refl

messages_blind :
    (t : String) (g : History) (e : Event) → IsOutside e → messages t (e ∷ g) ≡ messages t g
unfolding messages
messages_blind t g _ (by_mail m r) = refl
messages_blind t g _ (by_http q r) = refl

sent_blind : (t : String) (g : History) (e : Event) → IsOutside e → sent t (e ∷ g) ≡ sent t g
unfolding sent
sent_blind t g _ (by_mail m r) = refl
sent_blind t g _ (by_http q r) = refl

statements_blind : (g : History) (e : Event) → IsOutside e → statements (e ∷ g) ≡ statements g
unfolding statements
statements_blind g _ (by_mail m r) = refl
statements_blind g _ (by_http q r) = refl

runs_blind : (g : History) (e : Event) → IsOutside e → runs (e ∷ g) ≡ runs g
unfolding runs
runs_blind g _ (by_mail m r) = refl
runs_blind g _ (by_http q r) = refl

successes_blind :
    (id : String) (g : History) (e : Event) → IsOutside e → successes id (e ∷ g) ≡ successes id g
unfolding successes
successes_blind id g _ (by_mail m r) = refl
successes_blind id g _ (by_http q r) = refl

ups_blind : (g : History) (e : Event) → IsOutside e → ups (e ∷ g) ≡ ups g
unfolding ups
ups_blind g _ (by_mail m r) = refl
ups_blind g _ (by_http q r) = refl

downs_blind : (g : History) (e : Event) → IsOutside e → downs (e ∷ g) ≡ downs g
unfolding downs
downs_blind g _ (by_mail m r) = refl
downs_blind g _ (by_http q r) = refl

-- A computation that makes at most one such call is quiet.
pub outside-IsQuiet : {A : Type 0} (m : M A) → ((h : History) → AddsOutside h (m h).1) → IsQuiet m
outside-IsQuiet m adds = record {
  value_same = λ k h. view_same (value k) (value_blind k) (adds h);
  sets_same = λ k h. view_same (sets k) (sets_blind k) (adds h);
  messages_same = λ t h. view_same (messages t) (messages_blind t) (adds h);
  sent_same = λ t h. view_same (sent t) (sent_blind t) (adds h);
  statements_same = λ h. view_same statements statements_blind (adds h);
  runs_same = λ h. view_same runs runs_blind (adds h);
  successes_same = λ id h. view_same (successes id) (successes_blind id) (adds h);
  ups_same = λ h. view_same ups ups_blind (adds h);
  downs_same = λ h. view_same downs downs_blind (adds h);
}
