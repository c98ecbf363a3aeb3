-- ===== src/Tests/Scheduler.antt =====
-- The scheduler at concrete instances and jobs.
use go_task_flow.Prelude.Texts.{ne_of_str_eq, str_eq_refl}
use go_task_flow.Scheduler.Untracked.{IsStore, has_row, run_job-untracked}
use go_task_flow.Gateway.Rest.{get_task_status, write_error}
use go_task_flow.Scheduler.Firing.{tick-TickFired, TickFired}
use go_task_flow.Domain.Errors.{Error, Result, ok, err, external, redis_nil, is_redis_nil}
use go_task_flow.Scheduler.Jobs.{pending_count, run_job-JobRun, run_times, bad_cron_repeats, JobRun}
use go_task_flow.Scheduler.Leadership.{leadership_exclusive}
use go_task_flow.Scheduler.Leadership.Reign.{IsAvailable, crowned, leader_stays}
use go_task_flow.Scheduler.Leadership.Takeover.{IsExpiring, leader_replaced}
use go_task_flow.Scheduler.Leadership.Lease.{lease, IsLeaseServer, now, asked}
use go_task_flow.World.Views.{value, messages, statements}
use go_task_flow.Tests.Fixtures.{calm, or_nil}
use go_task_flow.Scheduler.{
  acquire_or_renew_leadership, run_job, leader_key, leader_ttl, leader_ttl_ms, renewed, tick,
}
use go_task_flow.World.{ScheduledJob, Env, update_job, History, redis_set_nx, clock_read}
use go_task_flow.Prelude.{
  ℕ, ◌<◌, ◌≤◌, ◌*◌, String, ◌≡◌, refl, ap, ◌≢◌, inl, inr, true, false, Option, none, some, [], ◌∷◌,
  arith, str_eq, eq_iff, ltb, if◌then◌else◌, Bool-cases, length,
}
use go_task_flow.Producer.{publish}

abbrev refuse : Option (String × ℕ) → ℕ → Option Error
refuse none t = none
refuse (some (owner, until)) t = if ltb t until then some redis_nil else none

abbrev renewal : Option (String × ℕ) → String → Result ℕ
renewal none v = ok 0
renewal (some (owner, until)) v = if str_eq owner v then ok 1 else ok 0

-- A server that keeps the lease.
abbrev leasing : Env
leasing = record calm {
  set_nx_answer = λ h k v ttl. refuse (lease length h) (length h);
  renew_answer = λ h k v ms. renewal (lease length h) v;
}

refuse-ne-none :
    (l : Option (String × ℕ)) (t : ℕ) (owner : String) (until : ℕ)
    → l ≡ some (owner, until)
    → t < until
    → refuse l t ≢ none
refuse-ne-none none t owner until e early = cc
refuse-ne-none (some (o, u)) t owner until e early = ground (arith, e)

renewal-own :
    (l : Option (String × ℕ)) (v : String)
    → renewal l v ≡ ok 1
    → (until : ℕ) × (l ≡ some (v, until))
renewal-own none v e = absurd (ground (arith, e))
renewal-own (some (o, u)) v e = elim (Bool-cases (str_eq o v)) [
  | inl same ↦ (u, ap (λ x. some (x, u)) ((eq_iff o v).0 same))
  | inr differs ↦ absurd (ground (arith, e, differs))
]

leasing-IsLeaseServer : IsLeaseServer leasing
leasing-IsLeaseServer = record {
  held = λ h v ttl owner until l early. refuse-ne-none _ _ owner until l early;
  own = λ h v ms e. renewal-own _ v e;
  forward = λ h e. omega arith;
}

-- Instance b asks once in vain, and then again.
abbrev after_a : History
after_a = (acquire_or_renew_leadership leasing "a" []).1

abbrev after_b : History
after_b =
    redis_set_nx leader_key "b" leader_ttl (leasing.set_nx_answer after_a leader_key "b" leader_ttl)
    ∷ after_a

leadership_exclusive_example :
    ((acquire_or_renew_leadership leasing "b" after_b).0 ≡ false)
    × (leasing.set_nx_answer after_b leader_key "b" leader_ttl ≢ none)
    × (renewed leasing "b" (leasing.renew_answer after_b leader_key "b" leader_ttl_ms) ≡ false)
unfolding acquire_or_renew_leadership lease is_redis_nil
leadership_exclusive_example =
    leadership_exclusive leasing "a" "b" [] after_b leasing-IsLeaseServer
      (ne_of_str_eq "b" "a" refl) refl (asked "b" now) (omega arith)

refuse-early :
    (l : Option (String × ℕ)) (t : ℕ) (owner : String) (until : ℕ)
    → l ≡ some (owner, until)
    → t < until
    → (e : Error) × (refuse l t ≡ some e) × (is_redis_nil e ≡ true)
unfolding is_redis_nil
refuse-early l t owner until held early = (redis_nil, rw held (ground arith), refl)

leasing-IsAvailable : IsAvailable leasing
leasing-IsAvailable = record {
  taken = λ h v ttl owner until l early. refuse-early _ _ owner until l early;
  extends = λ h v ms until l early. rw l (ground (arith, str_eq_refl v));
}

leader_stays_example :
    ((acquire_or_renew_leadership leasing "a" after_b).0 ≡ true)
    × ((acquire_or_renew_leadership leasing "b" after_b).0 ≡ false)
unfolding acquire_or_renew_leadership lease is_redis_nil
leader_stays_example =
    leader_stays leasing "a" leasing-IsLeaseServer leasing-IsAvailable "b" after_b (crowned [] refl)
      (ne_of_str_eq "b" "a" refl) (asked "b" now) (omega arith)

-- The same server where 30 seconds pass between two calls.
abbrev half_minutes : History → ℕ
half_minutes h = length h * leader_ttl

abbrev slow : Env
slow = record calm {
  redis_time = half_minutes;
  set_nx_answer = λ h k v ttl. refuse (lease half_minutes h) (half_minutes h);
  renew_answer = λ h k v ms. renewal (lease half_minutes h) v;
}

slow-IsLeaseServer : IsLeaseServer slow
slow-IsLeaseServer = record {
  held = λ h v ttl owner until l early. refuse-ne-none _ _ owner until l early;
  own = λ h v ms e. renewal-own _ v e;
  forward = λ h e. omega arith;
}

refuse-late :
    (l : Option (String × ℕ)) (t : ℕ) (owner : String) (until : ℕ)
    → l ≡ some (owner, until)
    → until ≤ t
    → refuse l t ≡ none
refuse-late l t owner until held late = rw held (ground arith)

slow-IsExpiring : IsExpiring slow
slow-IsExpiring = record { free = λ h v ttl owner until l late. refuse-late _ _ owner until l late }

leader_replaced_example :
    (acquire_or_renew_leadership slow "b"
      (clock_read 0 ∷ (acquire_or_renew_leadership slow "a" []).1)).0
    ≡ true
unfolding acquire_or_renew_leadership lease
leader_replaced_example =
    leader_replaced slow "a" "b" [] (clock_read 0 ∷ (acquire_or_renew_leadership slow "a" []).1)
      slow-IsLeaseServer slow-IsExpiring refl refl (omega arith)

abbrev nightly : ScheduledJob
nightly = record {
  id = "j1";
  name = "nightly";
  cron_expr = "0 0 * * *";
  task_type = "email";
  payload = "{}";
  enabled = true;
  last_run_at = none;
  next_run_at = none;
}

run_job-JobRun_test : JobRun calm nightly [] (run_job calm nightly [])
run_job-JobRun_test = run_job-JobRun calm nightly []

-- The row moves to the time that the expression gives.
row_moves : statements (run_job calm nightly []).1 ≡ update_job 0 60 "j1" ∷ []
unfolding run_job publish statements
row_moves = refl

abbrev unparsable : Env
unparsable = record calm { cron = λ expr. err (external "expected 5 fields") }

bad_cron_repeats_example :
    (pending_count (run_times unparsable nightly 2 []) ≡ 2)
    × (statements (run_times unparsable nightly 2 []) ≡ [])
unfolding messages statements
bad_cron_repeats_example =
    bad_cron_repeats unparsable nightly (external "expected 5 fields") 2 [] refl (λ g m. refl)

-- One job is due.
abbrev one_due : Env
one_due = record calm { jobs_answer = λ h. ok (ok nightly ∷ [], none) }

tick-TickFired_example : TickFired one_due "a" [] (tick one_due "a" []).1
tick-TickFired_example = tick-TickFired one_due "a" []

calm-IsStore : IsStore calm
calm-IsStore = record { misses = λ h k e. ap or_nil e; absent = λ h id e. refl }

run_job-untracked_example :
    (get_task_status calm "u" (run_job calm nightly []).1).0 ≡ write_error 404 "task not found"
unfolding value has_row
run_job-untracked_example = run_job-untracked calm nightly [] calm-IsStore refl refl refl
