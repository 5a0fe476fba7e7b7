-- ===== src/Sched/Wakeup.antt =====
-- The calls of kernel/task.c that put a task to sleep or wake it keep the ready queues consistent.
use eter_os.Base.{
  ℕ, ◌≡◌, refl, sym, subst, inl, inr, List, [], ◌∷◌, leb, arith, Bool-cases, if_true, if_false,
}
use eter_os.Futex.{TaskState}
use eter_os.Sched.{
  Sched, enqueue_sleep, dequeue_sleep, make_ready, is_active, set_state, wake, max_cpus,
  expire_loop, task_wakeup, fall_asleep, task_block,
}
use eter_os.Sched.Queue.{Absent}
use eter_os.Sched.Expire.{ticks, make_ready-Keeps}
use eter_os.Sched.Asleep.{
  fall_asleep-Queued, set_state-Queued, Keeps-Queued, wake-Queued, task_block-Queued,
}
use eter_os.Sched.Ready.{Balanced, Same, Same-Balanced, enqueue_ready-Balanced}
use eter_os.Sched.Switch.{IsValid, set_state-Same}

make_ready-Balanced : (t : ℕ) {s : Sched} → Balanced s → Balanced (make_ready t s)
unfolding make_ready
make_ready-Balanced t {s} b = elim (Bool-cases (is_active t s.cpus max_cpus 0)) [
  | inl active ↦ subst Balanced (sym (if_true _ _ active)) b
  | inr other ↦ subst Balanced (sym (if_false _ _ other)) (enqueue_ready-Balanced t b)
]

dequeue_sleep-Same : (t : ℕ) (s : Sched) → Same s (dequeue_sleep t s)
unfolding dequeue_sleep
dequeue_sleep-Same t s = record { queues = λ cpu. refl; counts = λ cpu. refl; targets = λ u. refl }

wake-IsValid : (t : ℕ) {s : Sched} → IsValid s → IsValid (wake t s)
unfolding wake
wake-IsValid t {s} v = record {
  queued = wake-Queued t v.queued;
  balanced = make_ready-Balanced t (
      Same-Balanced (dequeue_sleep-Same t (set_state TaskState.ready t s))
        (Same-Balanced (set_state-Same TaskState.ready t s) v.balanced));
}

pub expire_loop-IsValid :
    (now : ℕ) (ts : List ℕ) {s : Sched} → IsValid s → IsValid (expire_loop now ts s)
unfolding expire_loop
expire_loop-IsValid now [] v = v
expire_loop-IsValid now (t ∷ ts) {s} v = elim (Bool-cases (leb (ticks s t) now)) [
  | inl expired ↦
      subst IsValid (sym (if_true _ _ expired)) (expire_loop-IsValid now ts (wake-IsValid t v))
  | inr waits ↦ subst IsValid (sym (if_false _ _ waits)) v
]

pub fall_asleep-IsValid :
    (state : TaskState) (wake_tick t : ℕ) {s : Sched}
    → Absent t s.sleepers
    → IsValid s
    → IsValid (fall_asleep state wake_tick t s)
unfolding fall_asleep enqueue_sleep
fall_asleep-IsValid state wake_tick t a v = record {
  queued = fall_asleep-Queued state wake_tick t a v.queued;
  balanced =
      Same-Balanced
        (record { queues = λ cpu. refl; counts = λ cpu. refl; targets = λ u. ground arith })
        v.balanced;
}

pub task_block-IsValid :
    (t : ℕ) {s : Sched} → Absent t s.sleepers → IsValid s → IsValid (task_block t s)
unfolding task_block
task_block-IsValid t {s} a v = record {
  queued = task_block-Queued t a v.queued;
  balanced = elim (Bool-cases (s.tasks t).signal_pending) [
    | inl signal ↦
        subst Balanced (sym (if_true _ _ signal))
          (Same-Balanced (set_state-Same TaskState.ready t s) v.balanced)
    | inr calm ↦ subst Balanced (sym (if_false _ _ calm)) (
        Same-Balanced
          (record { queues = λ cpu. refl; counts = λ cpu. refl; targets = λ u. ground arith })
          v.balanced)
  ];
}

pub task_wakeup-IsValid : (t : ℕ) {s : Sched} → IsValid s → IsValid (task_wakeup t s)
unfolding task_wakeup
task_wakeup-IsValid t {s} v = go (s.tasks t).state refl
  where
    go : (state : TaskState) → (s.tasks t).state ≡ state → IsValid (task_wakeup t s)
    go TaskState.blocked e = rw (e, task_wakeup) (wake-IsValid t v)
    go TaskState.sleeping e = rw (e, task_wakeup) (wake-IsValid t v)
    go TaskState.stopped e =
        rw (e, task_wakeup)
          (record {
            queued =
                Keeps-Queued (make_ready-Keeps t (set_state TaskState.ready t s))
                  (set_state-Queued TaskState.ready t v.queued);
            balanced =
                make_ready-Balanced t
                  (Same-Balanced (set_state-Same TaskState.ready t s) v.balanced);
          })
    go TaskState.ready e = rw (e, task_wakeup) v
    go TaskState.running e = rw (e, task_wakeup) v
    go TaskState.dead e = rw (e, task_wakeup) v
