-- ===== src/Sched/Running.antt =====
-- The task that a processor runs after `task_yield` of kernel/task.c.
use eter_os.Base.{
  ℕ, ◌+◌, ◌≡◌, refl, sym, subst, inl, inr, Bool, true, false, arith, ltb, if◌then◌else◌, Bool-cases,
  if_true, if_false, ◌==◌, update_self,
}
use eter_os.Futex.{TaskState}
use eter_os.Sched.{Cpu, dequeue_sleep, Sched, set_state}
use eter_os.Sched.Schedule.{
  dequeue_ready, is_ready, is_runnable, clear_sleep, dequeue_if_ready, keep_current, set_ticks,
  put_back, set_current, switch_to, or_task, find_next_task, scheduler_hz, schedule, task_yield,
}
use eter_os.Sched.Queue.{Absent, Absent-remove_task_self}
use eter_os.Sched.Switch.{
  IsValid, set_state-IsValid, set_ticks-IsValid, dequeue_ready-IsValid, dequeue_if_ready-IsValid,
  put_back-IsValid,
}

-- The task of a processor.
abbrev pub current : (cpu : ℕ) → Sched → ℕ
current cpu s = or_task (s.cpus cpu).current_task 0

-- The task of the processor is not in the sleep queue.
abbrev pub Awake : (cpu : ℕ) → Sched → Type 0
Awake cpu s = Absent (current cpu s) s.sleepers

clear_sleep-Absent : (t : ℕ) {s : Sched} → IsValid s → Absent t (clear_sleep t s).sleepers
unfolding clear_sleep dequeue_sleep
clear_sleep-Absent t {s} v = Absent-remove_task_self t s.sleepers v.queued.distinct

set_current-Awake : (cpu t : ℕ) (s : Sched) → Absent t s.sleepers → Awake cpu (set_current cpu t s)
unfolding set_current or_task
set_current-Awake cpu t s absent =
    subst (λ (c : Cpu). Absent (or_task c.current_task 0) s.sleepers)
      (sym (update_self s.cpus cpu _)) absent

switch_to-Awake :
    (cpu task next : ℕ) {s : Sched} → IsValid s → Awake cpu (switch_to cpu task next s)
unfolding switch_to
switch_to-Awake cpu task next {s} v =
    set_current-Awake cpu next
      (clear_sleep next (
        set_state TaskState.running next
          (dequeue_if_ready next (put_back task (set_ticks cpu 0 s)))))
      (clear_sleep-Absent next (
        set_state-IsValid TaskState.running next
          (dequeue_if_ready-IsValid next (put_back-IsValid task (set_ticks-IsValid cpu 0 v)))))

current-dequeue_ready : (cpu t : ℕ) (s : Sched) → current cpu (dequeue_ready t s) ≡ current cpu s
unfolding dequeue_ready or_task
current-dequeue_ready cpu t s = ground arith

keep_current-Awake : (cpu : ℕ) {s : Sched} → IsValid s → Awake cpu (keep_current (current cpu s) s)
unfolding keep_current clear_sleep
keep_current-Awake cpu {s} v =
    let t = current cpu s in
    elim (Bool-cases (is_ready (s.tasks t).state)) [
      | inl waiting ↦
          let w = set_state-IsValid TaskState.running t (dequeue_ready-IsValid t v) in
          subst (λ r. Awake cpu (clear_sleep t r)) (sym (if_true _ _ waiting))
            (go _ w (current-dequeue_ready cpu t s))
      | inr other ↦
          subst (λ r. Awake cpu (clear_sleep t r)) (sym (if_false _ _ other)) (go _ v refl)
    ]
  where
    go :
        (r : Sched)
        → IsValid r
        → current cpu r ≡ current cpu s
        → Awake cpu (clear_sleep (current cpu s) r)
    go r w same =
        subst (λ t. Absent t (clear_sleep (current cpu s) r).sleepers) (sym same)
          (clear_sleep-Absent (current cpu s) w)

if-Awake :
    (cpu : ℕ) (c : Bool) (s r : Sched) → Awake cpu s → Awake cpu r → Awake cpu (if c then s else r)
if-Awake cpu true s r a b = a
if-Awake cpu false s r a b = b

set_ticks_late :
    (cpu : ℕ) (s : Sched)
    → ltb (((set_ticks cpu scheduler_hz s).cpus cpu).sched_ticks + 1) scheduler_hz ≡ false
unfolding set_ticks
set_ticks_late cpu s = rw (update_self s.cpus cpu) refl

-- After `task_yield` the task that the processor runs is not in the sleep queue.
pub task_yield-Awake : (cpu : ℕ) {s : Sched} → IsValid s → Awake cpu (task_yield cpu s)
unfolding task_yield schedule
task_yield-Awake cpu {s} v =
    let s' = set_ticks cpu scheduler_hz s in
    let v' = set_ticks-IsValid cpu scheduler_hz v in
    let task = or_task (s'.cpus cpu).current_task 0 in
    let next = or_task (find_next_task cpu task s') (or_task (s'.cpus cpu).idle_task 0) in
    let switched = switch_to-Awake cpu task next v' in
    let late : ltb ((s'.cpus cpu).sched_ticks + 1) scheduler_hz ≡ false = set_ticks_late cpu s in
    if-Awake cpu (next == task) _ _ (keep_current-Awake cpu v') (
      if-Awake cpu (is_runnable (s'.tasks task).state) _ _
        (subst (Awake cpu) (sym (if_false _ _ late)) switched) switched)
