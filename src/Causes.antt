-- ===== src/Causes.antt =====
-- Why a state was written: what must have happened before a task is given a status in Redis, and
-- how the computations of the services keep that.
pub mod Gateway
pub mod Scheduler
pub mod Dispatcher
pub mod Reached
use mathlib.Core.List.{Memᴰ}
use mathlib.Core.Path.{subst}
use go_task_flow.Dispatcher.{topic_dlq}
use go_task_flow.Domain.{Task, pending, queued, running, retrying, done, dead}
use go_task_flow.Domain.Errors.{Result, ok, err, Result-cases}
use go_task_flow.Producer.{publish}
use go_task_flow.Repository.{create}
use go_task_flow.StateStore.{state_key, set_status, set_task_meta}
use go_task_flow.StateStore.RoundTrip.{state_key-injective, state_key-other-meta_key}
use go_task_flow.World.{History, Outgoing, Env, M, ◌>>=◌}
use go_task_flow.World.Views.{sets, sent, successes, IsQuiet}
use go_task_flow.Prelude.{
  ℕ, List, ◌≤◌, ◌<◌, String, ◌≡◌, refl, sym, ◌∙◌, ◌⊎◌, inl, inr, Bool, true, false, ◌∷◌, str_eq,
  eq_iff, if◌then◌else◌, Bool-cases, arith,
}

-- What stands behind a status s of the task id: PENDING, QUEUED, RUNNING and RETRYING may be
-- written at any time; DONE only behind a run of a handler on the task that returned nil; DEAD only
-- with a message for the task on the dead-letter topic, acknowledged or not.
pub data Cause (id s : String) (g : History) : Type 0 where
  waits : s ≡ pending → Cause id s g
  queues : s ≡ queued → Cause id s g
  begins : s ≡ running → Cause id s g
  retries : s ≡ retrying → Cause id s g
  completed : s ≡ done → 0 < successes id g → Cause id s g
  buried : (m : Outgoing) → s ≡ dead → m.key ≡ id → Memᴰ m (sent topic_dlq g) → Cause id s g

-- From h to g nothing is forgotten, and every status that is written has its cause.
pub record Grows (h g : History) : Type 0 where
  pub wins : (id : String) → successes id h ≤ successes id g
  pub keeps : (t : String) (m : Outgoing) → Memᴰ m (sent t h) → Memᴰ m (sent t g)
  pub adds :
      (id s : String)
      → Memᴰ s (sets (state_key id) g)
      → Memᴰ s (sets (state_key id) h) ⊎ Cause id s g

pub Cause-mono : {id s : String} {h g : History} → Grows h g → Cause id s h → Cause id s g
Cause-mono x (waits e) = waits e
Cause-mono x (queues e) = queues e
Cause-mono x (begins e) = begins e
Cause-mono x (retries e) = retries e
Cause-mono {id} x (completed e won) = completed e (omega (arith, won, x.wins id))
Cause-mono x (buried m e k there) = buried m e k (x.keeps topic_dlq m there)

pub Grows-trans : {h k g : History} → Grows h k → Grows k g → Grows h g
Grows-trans a b = record {
  wins = λ id. omega (arith, a.wins id, b.wins id);
  keeps = λ t m x. b.keeps t m (a.keeps t m x);
  adds = λ id s x. elim (b.adds id s x) [
    | inr c ↦ inr c
    | inl y ↦ elim (a.adds id s y) [ inl z ↦ inl z | inr c ↦ inr (Cause-mono b c) ]
  ];
}

-- No view changes.
pub Grows-same :
    (h g : History)
    → ((id : String) → sets (state_key id) g ≡ sets (state_key id) h)
    → ((id : String) → successes id g ≡ successes id h)
    → ((t : String) → sent t g ≡ sent t h)
    → Grows h g
Grows-same h g states wins letters = record {
  wins = λ id. omega (arith, wins id);
  keeps = λ t m x. subst (Memᴰ m) (sym (letters t)) x;
  adds = λ id s x. inl (subst (Memᴰ s) (states id) x);
}

pub Grows-refl : (h : History) → Grows h h
Grows-refl h = Grows-same h h (λ id. refl) (λ id. refl) (λ t. refl)

-- A computation that grows every history.
abbrev pub Growing : {A : Type 0} → M A → Type 0
Growing m = (h : History) → Grows h (m h).1

pub Growing-bind :
    {A B : Type 0} (m : M A) (f : A → M B)
    → Growing m
    → ((a : A) → Growing (f a))
    → Growing (m >>= f)
Growing-bind m f x y h = Grows-trans (x h) (y (m h).0 (m h).1)

pub IsQuiet-Growing : {A : Type 0} (m : M A) → IsQuiet m → Growing m
IsQuiet-Growing m q h =
    Grows-same h (m h).1 (λ id. q.sets_same (state_key id) h) (λ id. q.successes_same id h)
      (λ t. q.sent_same t h)

more_letters :
    (b : Bool) (x m : Outgoing) (l : List Outgoing) → Memᴰ m l → Memᴰ m (if b then x ∷ l else l)
more_letters true x m l y = Memᴰ.tail y
more_letters false x m l y = y

module _ (env : Env) where
  pub publish-Growing : (topic key bytes : String) → Growing (publish env topic key bytes)
  unfolding publish sent sets successes
  publish-Growing topic key bytes h = record {
    wins = λ id. omega arith;
    keeps = λ t m x.
        more_letters (str_eq topic t) (record { topic = topic; key = key; value = bytes }) m
          (sent t h) x;
    adds = λ id s x. inl x;
  }

  pub create-Growing : (task : Task) → Growing (create env task)
  unfolding create sent sets successes
  create-Growing task h = Grows-same h _ (λ id. refl) (λ id. refl) (λ t. refl)

  pub set_task_meta-Growing : (task : Task) → Growing (set_task_meta env task)
  unfolding set_task_meta sent sets successes
  set_task_meta-Growing task h = elim (Result-cases (env.encode task)) [
    | inl (bytes, good) ↦
        Grows-same h _ (λ id. ground (arith, state_key-other-meta_key task.id id))
          (λ id. ground arith) (λ t. ground arith)
    | inr (e, bad) ↦ Grows-same h _ (λ id. ground arith) (λ id. ground arith) (λ t. ground arith)
  ]

  top :
      (id s j v : String) (l : List String) (g : History)
      → Cause id s g
      → id ≡ j
      → Memᴰ v (s ∷ l)
      → Memᴰ v l ⊎ Cause j v g
  top id s j v l g c same (Memᴰ.tail y) = inl y
  top id s j v l g c same (Memᴰ.head e) =
      inr (subst (λ i. Cause i v g) same (subst (λ u. Cause id u g) (sym e) c))

  newest :
      (id s j v : String) (l : List String) (g : History)
      → Cause id s g
      → Memᴰ v (if str_eq (state_key id) (state_key j) then s ∷ l else l)
      → Memᴰ v l ⊎ Cause j v g
  newest id s j v l g c x = elim (Bool-cases (str_eq (state_key id) (state_key j))) [
    | inl same ↦
        top id s j v l g c (state_key-injective id j ((eq_iff (state_key id) (state_key j)).0 same))
          (subst (Memᴰ v) (rw same refl) x)
    | inr differs ↦ inl (subst (Memᴰ v) (rw differs refl) x)
  ]

  -- A status that is written and has its cause when more has happened.
  pub set_status-Grows_until :
      (id s : String) (h g : History) → Grows (set_status env id s h).1 g → Cause id s g → Grows h g
  unfolding set_status sent sets successes
  set_status-Grows_until id s h g b c = record {
    wins = λ j. b.wins j;
    keeps = λ t m x. b.keeps t m x;
    adds = λ j v x. elim (b.adds j v x) [
      | inr d ↦ inr d
      | inl y ↦ newest id s j v (sets (state_key j) h) g c y
    ];
  }

  -- A status that is written with its cause.
  pub set_status-Grows :
      (id s : String) (h : History)
      → Cause id s (set_status env id s h).1
      → Grows h (set_status env id s h).1
  set_status-Grows id s h c = set_status-Grows_until id s h _ (Grows-refl _) c

  -- DEAD, then a message for the task on the dead-letter topic.
  pub buried-Grows :
      {A B : Type 0} (id raw : String) (before : M A) (behind : M B) (h : History)
      → Growing before
      → Growing behind
      → Grows h (behind (publish env topic_dlq id raw (before (set_status env id dead h).1).1).1).1
  unfolding publish sent
  buried-Grows id raw before behind h x y =
      let k : History = (set_status env id dead h).1 in
      let l : History = (before k).1 in
      let m : History = (publish env topic_dlq id raw l).1 in
      set_status-Grows_until id dead h (behind m).1
        (Grows-trans (x k) (Grows-trans (publish-Growing topic_dlq id raw l) (y m)))
        (buried (record { topic = topic_dlq; key = id; value = raw }) refl refl
          ((y m).keeps topic_dlq _ (Memᴰ.head refl)))
