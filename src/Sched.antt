-- ===== src/Sched.antt =====
-- The sleep queue and the ready queues of kernel/task.c.
--
-- A task is its slot in `tasks`. The sleep queue and the ready queue of a processor, whose links lie
-- in the tasks, are lists of slots. The scheduler is active, and its lock makes each function one
-- step. A task is in the ready queue of its target processor or in none.
pub mod Schedule
pub mod Queue
pub mod Expire
pub mod Asleep
pub mod Ready
pub mod Switch
pub mod Running
pub mod Wakeup
pub mod Reach
mod Tests
use eter_os.Base.{
  ℕ, zero, suc, ◌+◌, ◌*◌, ◌/◌, ◌%◌, ◌^◌, Bool, true, false, not, ◌&&◌, ◌||◌, Option, none, some,
  List, [], ◌∷◌, ◌++◌, ◌==◌, ltb, leb, if◌then◌else◌, update, add64, mul64,
}
use eter_os.Futex.{TaskState}

pub record Task : Type 0 where
  pub state : TaskState
  pub wake_tick : ℕ
  -- `none` for a negative number.
  pub target_cpu : Option ℕ
  pub signal_pending : Bool

pub record Cpu : Type 0 where
  pub online : Bool
  pub current_task : Option ℕ
  pub local_ready : List ℕ
  pub local_task_count : ℕ
  pub idle_task : Option ℕ
  pub sched_ticks : ℕ

pub record Sched : Type 0 where
  pub tasks : ℕ → Task
  pub sleepers : List ℕ
  pub cpus : ℕ → Cpu
  pub total_cpus : ℕ

abbrev pub max_cpus : ℕ
max_cpus = 256

-- `enqueue_sleep`, for a task that is not in the queue: in front of the first task that wakes no
-- earlier.
unfoldable pub insert : (wake_tick : ℕ → ℕ) → (t : ℕ) → List ℕ → List ℕ
insert wake_tick t [] = t ∷ []
insert wake_tick t (curr ∷ rest) =
    let later = insert wake_tick t rest in
    if leb (wake_tick t) (wake_tick curr) then t ∷ curr ∷ rest else curr ∷ later

unfoldable pub enqueue_sleep : (t : ℕ) → Sched → Sched
unfolding insert
enqueue_sleep t s = record s { sleepers = insert (λ u. (s.tasks u).wake_tick) t s.sleepers }

-- The list without the task, if it is there.
unfoldable pub remove_task : (t : ℕ) → List ℕ → List ℕ
remove_task t [] = []
remove_task t (curr ∷ rest) =
    let later = remove_task t rest in if curr == t then rest else curr ∷ later

unfoldable pub dequeue_sleep : (t : ℕ) → Sched → Sched
unfolding remove_task
dequeue_sleep t s = record s { sleepers = remove_task t s.sleepers }

unfoldable pub contains : (t : ℕ) → List ℕ → Bool
contains t [] = false
contains t (curr ∷ rest) = let later = contains t rest in if curr == t then true else later

-- The loop for the processor with the fewest tasks.
unfoldable pub least_loaded : (cpus : ℕ → Cpu) → (count i best_cpu min_tasks : ℕ) → ℕ
least_loaded cpus zero i best_cpu min_tasks = best_cpu
least_loaded cpus (suc count) i best_cpu min_tasks =
    let better = least_loaded cpus count (i + 1) i (cpus i).local_task_count in
    let rest = least_loaded cpus count (i + 1) best_cpu min_tasks in
    if (cpus i).online && ltb (cpus i).local_task_count min_tasks then better else rest

-- The processor that the task asks for, if it is online.
unfoldable pub choose_cpu : (t : ℕ) → Sched → ℕ
unfolding least_loaded
choose_cpu t s =
    let best_cpu = least_loaded s.cpus s.total_cpus 0 0 999999 in
    elim (s.tasks t).target_cpu [
      | none ↦ best_cpu
      | some cpu ↦ if ltb cpu s.total_cpus && (s.cpus cpu).online then cpu else best_cpu
    ]

-- Whether the task is in a ready queue already.
unfoldable pub is_queued : (t : ℕ) → Sched → Bool
unfolding contains
is_queued t s = elim (s.tasks t).target_cpu [
  | none ↦ false
  | some cpu ↦ contains t (s.cpus cpu).local_ready
]

unfoldable pub enqueue_ready : (t : ℕ) → Sched → Sched
unfolding choose_cpu is_queued
enqueue_ready t s =
    let cpu = choose_cpu t s in
    let target = s.cpus cpu in
    if is_queued t s then s else record s {
      tasks = update s.tasks t (record (s.tasks t) { target_cpu = some cpu });
      cpus = update s.cpus cpu (record target {
        local_ready = target.local_ready ++ t ∷ [];
        local_task_count = target.local_task_count + 1;
      });
    }

-- The loop for a processor that runs the task.
unfoldable pub is_active : (t : ℕ) → (cpus : ℕ → Cpu) → (count i : ℕ) → Bool
is_active t cpus zero i = false
is_active t cpus (suc count) i =
    let rest = is_active t cpus count (i + 1) in
    let runs : Bool = elim (cpus i).current_task [ none ↦ false | some u ↦ u == t ] in
    if (cpus i).online && runs then true else rest

-- A task that runs no longer is left to its processor.
unfoldable pub make_ready : (t : ℕ) → Sched → Sched
unfolding is_active enqueue_ready
make_ready t s = if is_active t s.cpus max_cpus 0 then s else enqueue_ready t s

unfoldable pub set_state : TaskState → (t : ℕ) → Sched → Sched
set_state state t s = record s { tasks = update s.tasks t (record (s.tasks t) { state = state }) }

-- One round of `task_wake_expired`, and the first part of `task_wakeup`.
unfoldable pub wake : (t : ℕ) → Sched → Sched
unfolding make_ready set_state dequeue_sleep
wake t s = make_ready t (dequeue_sleep t (set_state TaskState.ready t s))

-- The loop of `task_wake_expired` over the sleep queue.
unfoldable pub expire_loop : (current_tick : ℕ) → List ℕ → Sched → Sched
unfolding wake
expire_loop current_tick [] s = s
expire_loop current_tick (curr ∷ rest) s =
    let later = expire_loop current_tick rest (wake curr s) in
    if leb (s.tasks curr).wake_tick current_tick then later else s

unfoldable pub task_wake_expired : (current_tick : ℕ) → Sched → Sched
unfolding expire_loop
task_wake_expired current_tick s = expire_loop current_tick s.sleepers s

-- The interrupt that may be sent to another processor is left out.
unfoldable pub task_wakeup : (t : ℕ) → Sched → Sched
unfolding wake make_ready set_state
task_wakeup t s = elim (s.tasks t).state [
  | TaskState.blocked ↦ wake t s
  | TaskState.sleeping ↦ wake t s
  | TaskState.stopped ↦ make_ready t (set_state TaskState.ready t s)
  | _ ↦ s
]

-- The part of `task_sleep` and `task_block_with_timeout` that puts the task to sleep.
unfoldable pub fall_asleep : TaskState → (wake_tick t : ℕ) → Sched → Sched
unfolding enqueue_sleep
fall_asleep state wake_tick t s = enqueue_sleep t (record s {
  tasks = update s.tasks t (record (s.tasks t) { state = state; wake_tick = wake_tick });
})

unfoldable pub task_block_with_timeout : (wake_tick t : ℕ) → Sched → Sched
unfolding fall_asleep set_state
task_block_with_timeout wake_tick t s =
    if (s.tasks t).signal_pending
    then set_state TaskState.ready t s
    else fall_asleep TaskState.blocked wake_tick t s

unfoldable pub task_block : (t : ℕ) → Sched → Sched
unfolding set_state
task_block t s = if (s.tasks t).signal_pending then set_state TaskState.ready t s else record s {
  tasks = update s.tasks t (record (s.tasks t) { state = TaskState.blocked; wake_tick = 0 });
}

-- TIMER_HZ is `hz`, and `now` the clock. `schedule` follows.
unfoldable pub task_sleep : (hz now ms t : ℕ) → Sched → Sched
unfolding fall_asleep
task_sleep hz now ms t s =
    let ticks = mul64 ms hz / 1000 in
    let ticks' = if ltb 0 ms && (ticks == 0) then 1 else ticks in
    fall_asleep TaskState.sleeping (add64 now ticks') t s
