-- ===== src/Sched/Reach.antt =====
-- Any steps of the scheduler of kernel/task.c.
use eter_os.Base.{
  length, ℕ, ◌≡◌, refl, ◌∙◌, sym, ap, subst, inl, inr, [], arith, Bool-cases, if_true, if_false,
}
use eter_os.Futex.{TaskState}
use eter_os.Sched.{
  Sched, contains, task_wake_expired, task_wakeup, task_block_with_timeout, task_block, task_sleep,
}
use eter_os.Sched.Schedule.{schedule, task_yield}
use eter_os.Sched.Queue.{Absent}
use eter_os.Sched.Expire.{Wakes, expire_loop-Wakes}
use eter_os.Sched.Asleep.{Queued}
use eter_os.Sched.Ready.{ready, Balanced}
use eter_os.Sched.Switch.{IsValid, set_state-IsValid, schedule-IsValid, task_yield-IsValid}
use eter_os.Sched.Running.{Awake, task_yield-Awake}
use eter_os.Sched.Wakeup.{
  expire_loop-IsValid, fall_asleep-IsValid, task_block-IsValid, task_wakeup-IsValid,
}

-- One step of any processor, under the lock. A task that falls asleep or blocks is running, and
-- `schedule` took it off the sleep queue.
pub data Step (s : Sched) : Sched → Type 0 where
  sleeps : (hz now ms t : ℕ) → Absent t s.sleepers → Step s (task_sleep hz now ms t s)
  blocks_until :
      (wake_tick t : ℕ) → Absent t s.sleepers → Step s (task_block_with_timeout wake_tick t s)
  blocks : (t : ℕ) → Absent t s.sleepers → Step s (task_block t s)
  wakes_up : (t : ℕ) → Step s (task_wakeup t s)
  expires : (now : ℕ) → Step s (task_wake_expired now s)
  schedules : (cpu : ℕ) → Step s (schedule cpu s)
  yields : (cpu : ℕ) → Step s (task_yield cpu s)

pub data Reach (s : Sched) : Sched → Type 0 where
  here : Reach s s
  next : {r q : Sched} → Reach s r → Step r q → Reach s q

Step-IsValid : {s r : Sched} → IsValid s → Step s r → IsValid r
unfolding task_sleep task_block_with_timeout task_wake_expired
Step-IsValid v (sleeps hz now ms t a) = fall_asleep-IsValid TaskState.sleeping _ t a v
Step-IsValid {s} v (blocks_until wake_tick t a) = elim (Bool-cases (s.tasks t).signal_pending) [
  | inl signal ↦ subst IsValid (sym (if_true _ _ signal)) (set_state-IsValid TaskState.ready t v)
  | inr calm ↦
      subst IsValid (sym (if_false _ _ calm))
        (fall_asleep-IsValid TaskState.blocked wake_tick t a v)
]
Step-IsValid v (blocks t a) = task_block-IsValid t a v
Step-IsValid v (wakes_up t) = task_wakeup-IsValid t v
Step-IsValid {s} v (expires now) = expire_loop-IsValid now s.sleepers v
Step-IsValid v (schedules cpu) = schedule-IsValid cpu v
Step-IsValid v (yields cpu) = task_yield-IsValid cpu v

Reach-IsValid : {s r : Sched} → IsValid s → Reach s r → IsValid r
Reach-IsValid v here = v
Reach-IsValid v (next r step) = Step-IsValid (Reach-IsValid v r) step

-- No task waits, for a processor or for a time.
pub record Empty (s : Sched) : Type 0 where
  pub sleepers : s.sleepers ≡ []
  pub queues : (cpu : ℕ) → ready s cpu ≡ []
  pub counts : (cpu : ℕ) → (s.cpus cpu).local_task_count ≡ 0

empty-IsValid : {s : Sched} → Empty s → IsValid s
unfolding contains
empty-IsValid {s} e = record {
  queued = record { sorted = rw e.sleepers tt; distinct = rw e.sleepers tt };
  balanced = record {
    counts = λ cpu. e.counts cpu ∙ ap length (sym (e.queues cpu));
    distinct = λ cpu. rw (e.queues cpu) tt;
    targets = λ cpu t c. absurd (ground (arith, ap (contains t) (e.queues cpu), c));
  };
}

-- From empty queues on and after any steps of any processors, every ready queue counts its tasks, has
-- none of them twice, and has only tasks whose target is its processor, so that no task waits in two
-- of them.
pub Balanced-Reach : {s r : Sched} → Empty s → Reach s r → Balanced r
Balanced-Reach e reach = (Reach-IsValid (empty-IsValid e) reach).balanced

-- From empty queues on and after any steps of any processors, where a task that falls asleep or
-- blocks is not in the sleep queue already, the sleep queue has each task once and in the order of
-- the wake ticks, and `task_wake_expired` makes exactly the tasks of the queue ready whose wake tick
-- has come, and leaves the others asleep in their order; and the task that a processor runs after
-- `task_yield` is not in the sleep queue.
pub task_wake_expired-Wakes :
    (now : ℕ) {s r : Sched}
    → Empty s
    → Reach s r
    → Queued r
      × Wakes now r.sleepers r (task_wake_expired now r)
      × ((cpu : ℕ) → Awake cpu (task_yield cpu r))
unfolding task_wake_expired
task_wake_expired-Wakes now {s} {r} e reach =
    let v = Reach-IsValid (empty-IsValid e) reach in
    let q = v.queued in
    (q, expire_loop-Wakes now r.sleepers r refl q.distinct q.sorted, λ cpu. task_yield-Awake cpu v)
