-- ===== src/Sched/Switch.antt =====
-- `schedule` of kernel/task.c keeps the sleep queue in order and the ready queues consistent.
use eter_os.Base.{
  ℕ, ◌+◌, refl, sym, subst, inl, inr, Bool, true, false, ◌==◌, ltb, if◌then◌else◌, arith,
  Bool-cases, Option-cases, if_true, if_false,
}
use eter_os.Futex.{TaskState}
use eter_os.Sched.{Sched, remove_task, contains, dequeue_sleep, enqueue_ready, set_state}
use eter_os.Sched.Schedule.{
  dequeue_ready, is_ready, is_runnable, clear_sleep, dequeue_if_ready, keep_current, set_ticks,
  put_back, set_current, switch_to, or_task, find_next_task, scheduler_hz, schedule, task_yield,
}
use eter_os.Sched.Queue.{
  Sorted-remove_task, Distinct-remove_task, Absent-remove_task_self, Sorted-agree,
}
use eter_os.Sched.Expire.{ticks, Keeps, enqueue_ready-Keeps}
use eter_os.Sched.Asleep.{Queued, set_state-Queued, Keeps-Queued}
use eter_os.Sched.Ready.{
  ready, Balanced, Same, Same-Balanced, enqueue_ready-Balanced, dequeue_ready-Balanced,
}

-- Both at once.
pub record IsValid (s : Sched) : Type 0 where
  pub queued : Queued s
  pub balanced : Balanced s

dequeue_ready-Keeps : (t : ℕ) (s : Sched) → Keeps s (dequeue_ready t s)
unfolding dequeue_ready
dequeue_ready-Keeps t s = elim (Option-cases (s.tasks t).target_cpu) [
  | inl nowhere ↦
      rw (nowhere, dequeue_ready)
        (record { sleepers = refl; states = λ u. refl; times = λ u. refl })
  | inr (cpu, target) ↦ elim (Bool-cases (contains t (ready s cpu))) [
    | inl there ↦
        rw (target, there, dequeue_ready)
          (record { sleepers = refl; states = λ u. refl; times = λ u. refl })
    | inr away ↦
        rw (target, away, dequeue_ready)
          (record { sleepers = refl; states = λ u. refl; times = λ u. refl })
  ]
]

pub enqueue_ready-IsValid : (t : ℕ) {s : Sched} → IsValid s → IsValid (enqueue_ready t s)
enqueue_ready-IsValid t {s} v = record {
  queued = Keeps-Queued (enqueue_ready-Keeps t s) v.queued;
  balanced = enqueue_ready-Balanced t v.balanced;
}

pub dequeue_ready-IsValid : (t : ℕ) {s : Sched} → IsValid s → IsValid (dequeue_ready t s)
dequeue_ready-IsValid t {s} v = record {
  queued = Keeps-Queued (dequeue_ready-Keeps t s) v.queued;
  balanced = dequeue_ready-Balanced t v.balanced;
}

pub set_state-Same : (state : TaskState) (t : ℕ) (s : Sched) → Same s (set_state state t s)
unfolding set_state
set_state-Same state t s = record {
  queues = λ cpu. refl;
  counts = λ cpu. refl;
  targets = λ u. ground arith;
}

pub set_state-IsValid :
    (state : TaskState) (t : ℕ) {s : Sched} → IsValid s → IsValid (set_state state t s)
set_state-IsValid state t {s} v = record {
  queued = set_state-Queued state t v.queued;
  balanced = Same-Balanced (set_state-Same state t s) v.balanced;
}

clear_sleep-IsValid : (t : ℕ) {s : Sched} → IsValid s → IsValid (clear_sleep t s)
unfolding clear_sleep dequeue_sleep
clear_sleep-IsValid t {s} v = record {
  queued = record {
    sorted =
        Sorted-agree (ticks s) (ticks (clear_sleep t s)) t (remove_task t s.sleepers)
          (λ u h. ground (arith, h)) (Absent-remove_task_self t s.sleepers v.queued.distinct)
          (Sorted-remove_task (ticks s) t s.sleepers v.queued.sorted);
    distinct = Distinct-remove_task t s.sleepers v.queued.distinct;
  };
  balanced =
      Same-Balanced
        (record { queues = λ cpu. refl; counts = λ cpu. refl; targets = λ u. ground arith })
        v.balanced;
}

pub set_ticks-IsValid :
    (cpu sched_ticks : ℕ) {s : Sched} → IsValid s → IsValid (set_ticks cpu sched_ticks s)
unfolding set_ticks
set_ticks-IsValid cpu sched_ticks {s} v = record {
  queued = record { sorted = v.queued.sorted; distinct = v.queued.distinct };
  balanced =
      Same-Balanced
        (record { queues = λ c. ground arith; counts = λ c. ground arith; targets = λ u. refl })
        v.balanced;
}

set_current-IsValid : (cpu t : ℕ) {s : Sched} → IsValid s → IsValid (set_current cpu t s)
unfolding set_current
set_current-IsValid cpu t {s} v = record {
  queued = record { sorted = v.queued.sorted; distinct = v.queued.distinct };
  balanced =
      Same-Balanced
        (record { queues = λ c. ground arith; counts = λ c. ground arith; targets = λ u. refl })
        v.balanced;
}

pub dequeue_if_ready-IsValid : (t : ℕ) {s : Sched} → IsValid s → IsValid (dequeue_if_ready t s)
unfolding dequeue_if_ready
dequeue_if_ready-IsValid t {s} v = elim (Bool-cases (is_ready (s.tasks t).state)) [
  | inl waiting ↦ subst IsValid (sym (if_true _ _ waiting)) (dequeue_ready-IsValid t v)
  | inr other ↦ subst IsValid (sym (if_false _ _ other)) v
]

pub put_back-IsValid : (t : ℕ) {s : Sched} → IsValid s → IsValid (put_back t s)
unfolding put_back
put_back-IsValid t {s} v = elim (Bool-cases (is_runnable (s.tasks t).state)) [
  | inl runs ↦
      subst IsValid (sym (if_true _ _ runs))
        (enqueue_ready-IsValid t (set_state-IsValid TaskState.ready t v))
  | inr stops ↦ subst IsValid (sym (if_false _ _ stops)) v
]

keep_current-IsValid : (t : ℕ) {s : Sched} → IsValid s → IsValid (keep_current t s)
unfolding keep_current
keep_current-IsValid t {s} v =
    clear_sleep-IsValid t (elim (Bool-cases (is_ready (s.tasks t).state)) [
      | inl waiting ↦
          subst IsValid (sym (if_true _ _ waiting))
            (set_state-IsValid TaskState.running t (dequeue_ready-IsValid t v))
      | inr other ↦ subst IsValid (sym (if_false _ _ other)) v
    ])

switch_to-IsValid :
    (cpu current next : ℕ) {s : Sched} → IsValid s → IsValid (switch_to cpu current next s)
unfolding switch_to
switch_to-IsValid cpu current next v = set_current-IsValid cpu next (
    clear_sleep-IsValid next (
      set_state-IsValid TaskState.running next
        (dequeue_if_ready-IsValid next (put_back-IsValid current (set_ticks-IsValid cpu 0 v)))))

-- A conditional of two valid states.
if-IsValid : (c : Bool) {s r : Sched} → IsValid s → IsValid r → IsValid (if c then s else r)
if-IsValid true v w = v
if-IsValid false v w = w

pub schedule-IsValid : (cpu : ℕ) {s : Sched} → IsValid s → IsValid (schedule cpu s)
unfolding schedule
schedule-IsValid cpu {s} v =
    let current = or_task (s.cpus cpu).current_task 0 in
    let next = or_task (find_next_task cpu current s) (or_task (s.cpus cpu).idle_task 0) in
    let switched = switch_to-IsValid cpu current next v in
    if-IsValid (next == current) (keep_current-IsValid current v) (
      if-IsValid (is_runnable (s.tasks current).state)
        (if-IsValid (ltb ((s.cpus cpu).sched_ticks + 1) scheduler_hz) (set_ticks-IsValid cpu _ v)
          switched)
        switched)

pub task_yield-IsValid : (cpu : ℕ) {s : Sched} → IsValid s → IsValid (task_yield cpu s)
unfolding task_yield
task_yield-IsValid cpu v = schedule-IsValid cpu (set_ticks-IsValid cpu scheduler_hz v)
