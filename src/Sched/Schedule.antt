-- ===== src/Sched/Schedule.antt =====
-- `schedule` of kernel/task.c, on the queues and the states of the tasks.
--
-- The load figures, the registers and the address space are left out, and so is the switch to the
-- stack of the next task, with which the lock goes over to it.
use eter_os.Base.{
  ℕ, ◌+◌, ◌-◌, Bool, true, false, Option, none, some, [], ◌∷◌, ◌==◌, ltb, if◌then◌else◌, update,
}
use eter_os.Futex.{TaskState}
use eter_os.Sched.{Sched, contains, remove_task, dequeue_sleep, enqueue_ready, set_state}

-- SCHEDULER_HZ.
abbrev pub scheduler_hz : ℕ
scheduler_hz = 10

-- A task with no target processor is in no queue.
unfoldable pub dequeue_ready : (t : ℕ) → Sched → Sched
unfolding contains remove_task
dequeue_ready t s = elim (s.tasks t).target_cpu [
  | none ↦ s
  | some cpu ↦
      let target = s.cpus cpu in
      if contains t target.local_ready
      then record s {
        cpus = update s.cpus cpu (record target {
          local_ready = remove_task t target.local_ready;
          local_task_count = target.local_task_count - 1;
        });
      }
      else s
]

-- TASK_RUNNING or TASK_READY.
unfoldable pub is_runnable : TaskState → Bool
is_runnable TaskState.ready = true
is_runnable TaskState.running = true
is_runnable _ = false

unfoldable pub is_ready : TaskState → Bool
is_ready TaskState.ready = true
is_ready _ = false

unfoldable pub find_next_task : (cpu current : ℕ) → Sched → Option ℕ
unfolding is_runnable
find_next_task cpu current s = elim (s.cpus cpu).local_ready [
  | [] ↦ if is_runnable (s.tasks current).state then some current else none
  | t ∷ rest ↦ some t
]

-- No timeout is left for a task that runs.
unfoldable pub clear_sleep : (t : ℕ) → Sched → Sched
unfolding dequeue_sleep
clear_sleep t s =
    let s' = dequeue_sleep t s in
    record s' { tasks = update s'.tasks t (record (s'.tasks t) { wake_tick = 0 }) }

unfoldable pub dequeue_if_ready : (t : ℕ) → Sched → Sched
unfolding is_ready dequeue_ready
dequeue_if_ready t s = if is_ready (s.tasks t).state then dequeue_ready t s else s

-- The current task goes on.
unfoldable pub keep_current : (current : ℕ) → Sched → Sched
unfolding is_ready dequeue_ready set_state clear_sleep
keep_current current s = clear_sleep current (
    if is_ready (s.tasks current).state
    then set_state TaskState.running current (dequeue_ready current s)
    else s)

unfoldable pub set_ticks : (cpu sched_ticks : ℕ) → Sched → Sched
set_ticks cpu sched_ticks s = record s {
  cpus = update s.cpus cpu (record (s.cpus cpu) { sched_ticks = sched_ticks });
}

-- The current task, if it can run still, goes to the end of a ready queue.
unfoldable pub put_back : (current : ℕ) → Sched → Sched
unfolding is_runnable set_state enqueue_ready
put_back current s =
    if is_runnable (s.tasks current).state
    then enqueue_ready current (set_state TaskState.ready current s)
    else s

unfoldable pub set_current : (cpu t : ℕ) → Sched → Sched
set_current cpu t s = record s {
  cpus = update s.cpus cpu (record (s.cpus cpu) { current_task = some t });
}

-- The switch from one task to another.
unfoldable pub switch_to : (cpu current next : ℕ) → Sched → Sched
unfolding put_back dequeue_if_ready set_state clear_sleep set_current set_ticks
switch_to cpu current next s = set_current cpu next (
    clear_sleep next (
      set_state TaskState.running next
        (dequeue_if_ready next (put_back current (set_ticks cpu 0 s)))))

unfoldable pub or_task : Option ℕ → (t : ℕ) → ℕ
or_task none t = t
or_task (some u) t = u

unfoldable pub schedule : (cpu : ℕ) → Sched → Sched
unfolding find_next_task keep_current set_ticks switch_to or_task is_runnable
schedule cpu s =
    let current = or_task (s.cpus cpu).current_task 0 in
    let next = or_task (find_next_task cpu current s) (or_task (s.cpus cpu).idle_task 0) in
    let sched_ticks = (s.cpus cpu).sched_ticks + 1 in
    if next == current
    then keep_current current s
    else if is_runnable (s.tasks current).state
    then (if ltb sched_ticks scheduler_hz
        then set_ticks cpu sched_ticks s
        else switch_to cpu current next s)
    else switch_to cpu current next s

-- `task_yield` for the task on the processor.
unfoldable pub task_yield : (cpu : ℕ) → Sched → Sched
unfolding set_ticks schedule
task_yield cpu s = schedule cpu (set_ticks cpu scheduler_hz s)
