-- ===== src/Input.antt =====
-- kernel/drivers/input/input.c: the event queues of the input drivers.
--
-- There are two rings of 1024 events, one for all devices and one for the mouse, each with a
-- semaphore that counts its events. This file has the critical sections, which the spinlocks make
-- atomic, and `Input/Threads.antt` the order in which threads run them and use the semaphore.
pub mod Fifo
mod Tests
pub mod Threads
use eter_os.Base.{
  ℕ, ◌+◌, ◌-◌, ◌%◌, Bool, true, false, Option, none, some, List, ◌==◌, if◌then◌else◌, get_or, set,
  replicate,
}

abbrev pub queue_size : ℕ
queue_size = 1024

-- `input_event_t`. The fields are only moved, so `value` stands for its bit pattern.
pub record Event : Type 0 where
  pub kind : ℕ
  pub code : ℕ
  pub value : ℕ

abbrev pub no_event : Event
no_event = record { kind = 0; code = 0; value = 0 }

-- A queue with its two indices.
pub record Ring : Type 0 where
  pub events : List Event
  pub head : ℕ
  pub tail : ℕ

-- The critical section of `input_push`: whether the event was stored, after which the caller
-- signals the semaphore, or dropped.
unfoldable pub push : Event → Ring → Bool × Ring
push e r =
    let next = (r.head + 1) % queue_size in
    if next == r.tail
    then (false, r)
    else (true, record r { events = set r.events r.head e; head = next })

-- The critical section of `input_read`: the event that goes to the buffer, or `none` where the
-- function returns 0.
unfoldable pub take : Ring → Option Event × Ring
take r =
    if r.head == r.tail
    then (none, r)
    else (some (get_or r.events r.tail no_event), record r { tail = (r.tail + 1) % queue_size })

-- `input_pending`.
unfoldable pub pending : Ring → ℕ
pending r = (r.head + queue_size - r.tail) % queue_size

-- `input_init` for one ring; the array is zero at boot.
unfoldable pub empty_ring : List Event → Ring
empty_ring events = record { events = events; head = 0; tail = 0 }

-- Both queues.
pub record Queues : Type 0 where
  pub all : Ring
  pub mouse : Ring

-- `input_mouse_push`: the mouse's queue, then the global one. The result says which semaphores are
-- signalled.
unfoldable pub mouse_push : Event → Queues → (Bool × Bool) × Queues
mouse_push e q =
    let (stored_mouse, m) = push e q.mouse in
    let (stored_all, a) = push e q.all in
    ((stored_mouse, stored_all), record { all = a; mouse = m })

-- The critical section of `input_read_mouse`.
unfoldable pub take_mouse : Queues → Option Event × Queues
take_mouse q = let (e, m) = take q.mouse in (e, record q { mouse = m })

-- `input_mouse_pending`.
unfoldable pub mouse_pending : Queues → ℕ
mouse_pending q = pending q.mouse
