-- ===== src/Sched/Tests.antt =====
-- Two tasks that sleep, on one processor.
use eter_os.Base.{ℕ, some, ◌≡◌, refl, false, none, [], ◌∷◌, ◌==◌, arith}
use eter_os.Futex.{TaskState}
use eter_os.Sched.{
  Sched, task_sleep, fall_asleep, enqueue_sleep, insert, task_wake_expired, expire_loop, wake,
  dequeue_sleep, remove_task, set_state, make_ready, is_active, enqueue_ready, is_queued,
  choose_cpu, least_loaded, contains,
}
use eter_os.Sched.Schedule.{
  schedule, dequeue_ready, is_ready, is_runnable, clear_sleep, dequeue_if_ready, keep_current,
  set_ticks, put_back, set_current, switch_to, or_task, find_next_task, task_yield,
}
use eter_os.Sched.Ready.{Balanced}
use eter_os.Sched.Asleep.{Queued}
use eter_os.Sched.Expire.{Wakes}
use eter_os.Sched.Running.{Awake}
use eter_os.Sched.Reach.{
  Reach, Empty, here, next, sleeps, expires, yields, task_wake_expired-Wakes, Balanced-Reach,
}

abbrev idle : Sched
idle = record {
  tasks = λ t. record {
    state = TaskState.running;
    wake_tick = 0;
    target_cpu = none;
    signal_pending = false;
  };
  sleepers = [];
  cpus = λ c. record {
    online = c == 0;
    current_task = none;
    local_ready = [];
    local_task_count = 0;
    idle_task = none;
    sched_ticks = 0;
  };
  total_cpus = 1;
}

-- Task 1 for 5 ms, and then task 2 for 3 ms, with 1000 ticks a second.
abbrev both : Sched
both = task_sleep 1000 0 3 2 (task_sleep 1000 0 5 1 idle)

both_queue : both.sleepers ≡ 2 ∷ 1 ∷ []
unfolding task_sleep fall_asleep enqueue_sleep insert
both_queue = refl

one_left : (task_wake_expired 4 both).sleepers ≡ 1 ∷ []
unfolding task_wake_expired expire_loop wake dequeue_sleep remove_task set_state make_ready
    is_active enqueue_ready is_queued choose_cpu least_loaded contains task_sleep fall_asleep
    enqueue_sleep insert
one_left = refl

one_ready : ((task_wake_expired 4 both).cpus 0).local_ready ≡ 2 ∷ []
unfolding task_wake_expired expire_loop wake dequeue_sleep remove_task set_state make_ready
    is_active enqueue_ready is_queued choose_cpu least_loaded contains task_sleep fall_asleep
    enqueue_sleep insert
one_ready = refl

idle-Empty : Empty idle
idle-Empty = record { sleepers = refl; queues = λ cpu. refl; counts = λ cpu. refl }

both-Reach : Reach idle both
unfolding task_sleep fall_asleep enqueue_sleep insert
both-Reach =
    next (next here (sleeps 1000 0 5 1 tt))
      (sleeps 1000 0 3 2 ((λ e. absurd (omega (arith, e))), tt))

task_wake_expired-Wakes_example :
    Queued both
    × Wakes 4 both.sleepers both (task_wake_expired 4 both)
    × ((cpu : ℕ) → Awake cpu (task_yield cpu both))
task_wake_expired-Wakes_example = task_wake_expired-Wakes 4 idle-Empty both-Reach

-- Task 2 is woken, and task 0 gives the processor up to it.
abbrev switched : Sched
switched = task_yield 0 (task_wake_expired 4 both)

switched_current : (switched.cpus 0).current_task ≡ some 2
unfolding task_yield schedule dequeue_ready is_ready is_runnable clear_sleep dequeue_if_ready
    keep_current set_ticks put_back set_current switch_to or_task find_next_task task_wake_expired
    expire_loop wake dequeue_sleep remove_task set_state make_ready is_active enqueue_ready
    is_queued choose_cpu least_loaded contains task_sleep fall_asleep enqueue_sleep insert
switched_current = refl

switched_ready : (switched.cpus 0).local_ready ≡ 0 ∷ []
unfolding task_yield schedule dequeue_ready is_ready is_runnable clear_sleep dequeue_if_ready
    keep_current set_ticks put_back set_current switch_to or_task find_next_task task_wake_expired
    expire_loop wake dequeue_sleep remove_task set_state make_ready is_active enqueue_ready
    is_queued choose_cpu least_loaded contains task_sleep fall_asleep enqueue_sleep insert
switched_ready = refl

Balanced-Reach_example : Balanced switched
Balanced-Reach_example = Balanced-Reach idle-Empty (next (next both-Reach (expires 4)) (yields 0))
