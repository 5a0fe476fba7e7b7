-- ===== src/Input/Tests.antt =====
-- Two events through a queue of kernel/drivers/input/input.c.
use eter_os.Base.{◌≡◌, refl, true, some, List, ◌∷◌, arith, length, replicate}
use eter_os.Input.{
  Event, Ring, no_event, push, take, pending, empty_ring, mouse_push, take_mouse, mouse_pending,
}
use eter_os.Input.Fifo.{IsValid, contents}
use eter_os.Input.Threads.{
  State, pushes, signals, waits, Reach, here, next, start, sem_wait, sem_signal, reader_finds_event,
}

abbrev key : Event
key = record { kind = 1; code = 30; value = 1 }

unfoldable storage : List Event
storage = replicate 1024 no_event

length-storage : length storage ≡ 1024
unfolding storage
length-storage = refl

abbrev ring : Ring
ring = record { events = storage; head = 1023; tail = 1023 }

ring-IsValid : IsValid ring
ring-IsValid = record { storage = length-storage; head_in = omega arith; tail_in = omega arith }

-- A push and a read round the end of the array.
push-take : (take (push key ring).1).0 ≡ some key
unfolding push take storage
push-take = refl

mouse_in_both :
    let (stored, q) = mouse_push key (record { all = ring; mouse = ring }) in
    (stored ≡ (true, true))
    × (mouse_pending q ≡ 1)
    × (pending q.all ≡ 1)
    × ((take_mouse q).0 ≡ some key)
unfolding mouse_push mouse_pending pending push take take_mouse storage
mouse_in_both = (refl, refl, refl, refl)

-- A key is pushed and signalled, and a reader is admitted.
abbrev waiting : State
waiting = record {
  ring = (push key (empty_ring storage)).1;
  count = 0;
  signalling = 0;
  admitted = 1;
}

waiting-Reach : Reach (start storage) waiting
unfolding start push empty_ring sem_wait sem_signal
waiting-Reach = next (next (next here (pushes key)) (signals (omega arith))) (waits refl)

reader_finds_event_example :
    (e : Event) × ((take waiting.ring).0 ≡ some e)
    × (contents waiting.ring ≡ e ∷ contents (take waiting.ring).1)
reader_finds_event_example = reader_finds_event storage length-storage waiting-Reach (omega arith)
