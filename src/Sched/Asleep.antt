-- ===== src/Sched/Asleep.antt =====
-- What keeps the sleep queue of kernel/task.c in order.
use eter_os.Base.{ℕ, sym, subst, inl, inr, arith, Bool-cases, if_true, if_false, update}
use eter_os.Futex.{TaskState}
use eter_os.Sched.{Sched, remove_task, enqueue_sleep, set_state, wake, fall_asleep, task_block}
use eter_os.Sched.Queue.{
  Sorted, Absent, Distinct, Sorted-insert, Sorted-remove_task, Distinct-insert,
  Distinct-remove_task, Sorted-agree,
}
use eter_os.Sched.Expire.{ticks, Keeps, wake_sleepers, wake_times, Sorted-same}

-- The sleep queue has each task once, in the order of the wake ticks.
pub record Queued (s : Sched) : Type 0 where
  pub sorted : Sorted (ticks s) s.sleepers
  pub distinct : Distinct s.sleepers

pub fall_asleep-Queued :
    (state : TaskState) (wake_tick t : ℕ) {s : Sched}
    → Absent t s.sleepers
    → Queued s
    → Queued (fall_asleep state wake_tick t s)
unfolding fall_asleep enqueue_sleep
fall_asleep-Queued state wake_tick t {s} a q =
    let tasks = update s.tasks t (record (s.tasks t) { state = state; wake_tick = wake_tick }) in
    let f = λ (u : ℕ). (tasks u).wake_tick in
    record {
      sorted =
          Sorted-insert f t s.sleepers
            (Sorted-agree (ticks s) f t s.sleepers (λ u h. ground arith) a q.sorted);
      distinct = Distinct-insert f t s.sleepers a q.distinct;
    }

-- A change of the state of one task alone.
pub set_state-Queued :
    (state : TaskState) (t : ℕ) {s : Sched} → Queued s → Queued (set_state state t s)
unfolding set_state
set_state-Queued state t {s} q = record {
  sorted =
      Sorted-same (ticks s) (ticks (set_state state t s)) s.sleepers (λ u. ground arith) q.sorted;
  distinct = q.distinct;
}

pub Keeps-Queued : {s s' : Sched} → Keeps s s' → Queued s → Queued s'
Keeps-Queued {s} {s'} k q = record {
  sorted = rw k.sleepers (Sorted-same (ticks s) (ticks s') s.sleepers k.times q.sorted);
  distinct = rw k.sleepers q.distinct;
}

pub wake-Queued : (t : ℕ) {s : Sched} → Queued s → Queued (wake t s)
wake-Queued t {s} q = record {
  sorted = rw (wake_sleepers t s) (
      Sorted-same (ticks s) (ticks (wake t s)) (remove_task t s.sleepers) (wake_times t s)
        (Sorted-remove_task (ticks s) t s.sleepers q.sorted));
  distinct = rw (wake_sleepers t s) (Distinct-remove_task t s.sleepers q.distinct);
}

pub task_block-Queued :
    (t : ℕ) {s : Sched} → Absent t s.sleepers → Queued s → Queued (task_block t s)
unfolding task_block
task_block-Queued t {s} a q = elim (Bool-cases (s.tasks t).signal_pending) [
  | inl signal ↦ subst Queued (sym (if_true _ _ signal)) (set_state-Queued TaskState.ready t q)
  | inr calm ↦ subst Queued (sym (if_false _ _ calm)) (record {
    sorted = Sorted-agree (ticks s) _ t s.sleepers (λ u h. ground arith) a q.sorted;
    distinct = q.distinct;
  })
]
