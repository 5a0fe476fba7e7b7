-- ===== src/Futex/Tests.antt =====
-- Two tasks that wait on address 64, and a third that wakes one of them.
use eter_os.Base.{◌≢◌, ℕ, ◌≡◌, ◌⊎◌, false, none, some, refl, arith, update}
use eter_os.Futex.{
  TaskState, Task, running, Futex, futex_init, futex_hash, validate_uaddr, is_private_op, queued,
  eintr, etimedout, wait_enter, wait_leave, remove_node, wakes, wake_loop, wake,
}
use eter_os.Futex.Wake.{Aligned, concerns, Wakes, wake-Wakes}
use eter_os.Futex.Queue.{State, Reach, start, Absent, here, next, enters}
use eter_os.Futex.Sleep.{wait_leave-Absent, wait_leave-wake}

abbrev tasks : ℕ → Task
tasks i = record { cr3 = 8192; state = running; signal_pending = false }

abbrev one : Futex
one = (wait_enter 1 64 5 0 3 5 5 (some 1000) (futex_init tasks)).1

abbrev two : Futex
two = (wait_enter 2 64 5 0 6 5 5 (some 2000) one).1

one-queued : wait_enter 1 64 5 0 3 5 5 (some 1000) (start tasks).futex ≡ (queued 1000 0, one)
unfolding wait_enter validate_uaddr futex_hash is_private_op start futex_init
one-queued = refl

two-queued : wait_enter 2 64 5 0 6 5 5 (some 2000) one ≡ (queued 2000 0, two)
unfolding wait_enter validate_uaddr futex_hash is_private_op futex_init
two-queued = refl

-- Only the bit sets decide: the first waiter is woken.
woken_one : (wake 3 64 1 0 1 two).0 ≡ some 1
unfolding wake wake_loop wakes wait_enter validate_uaddr futex_hash is_private_op futex_init
woken_one = refl

interrupted : (wait_leave 2000 0 (some 10) 9 two).0 ≡ some eintr
unfolding wait_leave remove_node wait_enter validate_uaddr futex_hash is_private_op futex_init
interrupted = refl

timed_out : (wait_leave 2000 0 (some 10) 10 two).0 ≡ some etimedout
unfolding wait_leave remove_node wait_enter validate_uaddr futex_hash is_private_op futex_init
timed_out = refl

wake-Wakes_example :
    ((¬ Aligned 64) × (wake 3 64 1 0 1 two ≡ (none, two)))
    ⊎ (Aligned 64
        × Wakes
            (futex_hash (two.tasks 3).cr3 64 (is_private_op 0))
            (concerns (two.tasks 3).cr3 64 (is_private_op 0) 1 two.tasks)
            1
            two
            (wake 3 64 1 0 1 two))
wake-Wakes_example = wake-Wakes 3 64 1 0 1 two

entered : State
entered = record { futex = one; waiting = update (start tasks).waiting 1000 (some 0) }

entered-Reach : Reach (start tasks) entered
unfolding start entered
entered-Reach = next here (enters 1 64 5 0 3 5 5 refl one-queued)

wait_leave-Absent_example : Absent 1000 ((wait_leave 1000 0 none 9 one).1.buckets 0)
unfolding entered
wait_leave-Absent_example = wait_leave-Absent tasks entered-Reach none 9 1000 0 refl 0

wait_leave-wake_example :
    ((wait_leave 2000 0 none 9 (wake 3 64 1 0 2 two).1).0 ≡ none)
    × (((wake 3 64 1 0 2 two).1.tasks 2).state ≢ TaskState.blocked)
unfolding entered wait_enter validate_uaddr futex_hash is_private_op futex_init start
wait_leave-wake_example =
    wait_leave-wake tasks entered-Reach 2 64 5 0 6 5 5 2000 0 two refl two-queued 3 1 2 refl
      (omega arith) (λ e. omega (arith, e)) none 9
