-- ===== src/Input/Threads.antt =====
-- Threads on one queue of kernel/drivers/input/input.c, with the semaphore of kernel/sem.c.
--
-- A pusher signals the semaphore after it has left its critical section, and a reader waits on it
-- before it enters its own, so other threads run in between. The state counts the threads at these
-- two places. A thread that `sem_wait` blocks changes no count, and tests the count again when it
-- is woken.
use eter_os.Base.{
  Bool, not, ℕ, ◌+◌, ◌-◌, ◌<◌, ◌≡◌, refl, ◌∙◌, ◌⊎◌, inl, inr, true, false, Option, none, some, List,
  [], ◌∷◌, ◌++◌, if◌then◌else◌, length, length-append, arith, ltb, ap, sym,
}
use eter_os.Input.{Event, Ring, push, take, pending, queue_size, empty_ring}
use eter_os.Input.Fifo.{IsValid, contents, walk, push_refines, take_refines, length-contents}

-- `sem_wait`: the count after it, or `none` where the caller blocks. `current` tells whether there is
-- a current task; without one it returns at once.
unfoldable pub sem_wait : (current : Bool) → ℕ → Option ℕ
sem_wait current count =
    if not current then some count else if ltb 0 count then some (count - 1) else none

-- `sem_signal`; the wake-up of a blocked thread changes no count.
unfoldable pub sem_signal : ℕ → ℕ
sem_signal count = count + 1

pub record State : Type 0 where
  pub ring : Ring
  pub count : ℕ
  -- Pushers that have stored their event and not signalled yet.
  pub signalling : ℕ
  -- Readers that `sem_wait` has let through and that have not entered their critical section.
  pub admitted : ℕ

-- One atomic step of some thread.
pub data Step (s : State) : State → Type 0 where
  pushes :
      (e : Event)
      → Step s (
          let (stored, r) = push e s.ring in
          record s { ring = r; signalling = if stored then s.signalling + 1 else s.signalling })
  signals :
      0 < s.signalling
      → Step s (record s { signalling = s.signalling - 1; count = sem_signal s.count })
  waits :
      {n : ℕ}
      → sem_wait true s.count ≡ some n
      → Step s (record s { count = n; admitted = s.admitted + 1 })
  reads : 0 < s.admitted → Step s (record s { ring = (take s.ring).1; admitted = s.admitted - 1 })

pub data Reach (s : State) : State → Type 0 where
  here : Reach s s
  next : {t u : State} → Reach s t → Step t u → Reach s u

-- Every event is accounted for: by the semaphore, or by a thread on its way to it or from it.
pub record IsBalanced (s : State) : Type 0 where
  pub ring_valid : IsValid s.ring
  pub balance : s.count + s.signalling + s.admitted ≡ length (contents s.ring)

pushed-IsBalanced :
    (e : Event) {s : State}
    → IsBalanced s
    → IsBalanced (
        let (stored, r) = push e s.ring in
        record s { ring = r; signalling = if stored then s.signalling + 1 else s.signalling })
pushed-IsBalanced e {s} b = go (push_refines e b.ring_valid)
  where
    go :
        (let (stored, r') = push e s.ring in
          IsValid r'
          × (((stored ≡ true)
                × (length (contents s.ring) < 1023)
                × (contents r' ≡ contents s.ring ++ e ∷ []))
              ⊎ ((stored ≡ false)
                  × (length (contents s.ring) ≡ 1023)
                  × (contents r' ≡ contents s.ring))))
        → IsBalanced (
            let (stored, r) = push e s.ring in
            record s { ring = r; signalling = if stored then s.signalling + 1 else s.signalling })
    go (v, inl (t, l, c)) = record {
      ring_valid = v;
      balance = rw (t, c, length-append) (omega (arith, b.balance));
    }
    go (v, inr (t, l, c)) = record { ring_valid = v; balance = rw (t, c) b.balance }

-- An admitted reader finds an event.
pub reads_event :
    {s : State}
    → IsBalanced s
    → 0 < s.admitted
    → (e : Event) × ((take s.ring).0 ≡ some e) × (contents s.ring ≡ e ∷ contents (take s.ring).1)
reads_event {s} b h = go (take_refines b.ring_valid)
  where
    go :
        (IsValid (take s.ring).1
          × ((((take s.ring).0 ≡ none) × (contents s.ring ≡ []) × (contents (take s.ring).1 ≡ []))
              ⊎ ((e : Event) × ((take s.ring).0 ≡ some e)
                  × (contents s.ring ≡ e ∷ contents (take s.ring).1))))
        → (e : Event) × ((take s.ring).0 ≡ some e)
          × (contents s.ring ≡ e ∷ contents (take s.ring).1)
    go (v, inl (t, c, c')) = absurd (omega (arith, b.balance, ap length c))
    go (v, inr found) = found

Step-IsBalanced : {s t : State} → IsBalanced s → Step s t → IsBalanced t
unfolding sem_wait sem_signal
Step-IsBalanced b (pushes e) = pushed-IsBalanced e b
Step-IsBalanced b (signals h) = record {
  ring_valid = b.ring_valid;
  balance = omega (arith, b.balance);
}
Step-IsBalanced b (waits e) = record {
  ring_valid = b.ring_valid;
  balance = ground (arith, b.balance);
}
Step-IsBalanced {s} b (reads h) =
    let (e, found, rest) = reads_event b h in
    record {
      ring_valid = (take_refines b.ring_valid).0;
      balance = omega (arith, b.balance, ap length rest);
    }

pub Reach-IsBalanced : {s t : State} → IsBalanced s → Reach s t → IsBalanced t
Reach-IsBalanced b here = b
Reach-IsBalanced b (next r st) = Step-IsBalanced (Reach-IsBalanced b r) st

-- `input_init`.
unfoldable pub start : List Event → State
start events = record { ring = empty_ring events; count = 0; signalling = 0; admitted = 0 }

start-IsBalanced : (events : List Event) → length events ≡ queue_size → IsBalanced (start events)
unfolding start empty_ring contents pending walk
start-IsBalanced events h = record {
  ring_valid = record { storage = h; head_in = omega arith; tail_in = omega arith };
  balance = refl;
}

module _ (events : List Event) (h : length events ≡ queue_size) {s : State}
    (r : Reach (start events) s) where
  -- After `input_init` and any steps of any threads, a reader that `sem_wait` let through finds an
  -- event, the oldest one: `input_read` never returns 0 after it has waited.
  pub reader_finds_event :
      0 < s.admitted
      → (e : Event) × ((take s.ring).0 ≡ some e) × (contents s.ring ≡ e ∷ contents (take s.ring).1)
  reader_finds_event some_admitted =
      reads_event (Reach-IsBalanced (start-IsBalanced events h) r) some_admitted

  -- After `input_init` and any steps of any threads, what `input_pending` reports is the count of
  -- the semaphore and the threads that are on their way to it or from it, and is less than 1024.
  pub pending_balance :
      (pending s.ring ≡ s.count + s.signalling + s.admitted) × (pending s.ring < queue_size)
  unfolding pending
  pending_balance =
      let b = Reach-IsBalanced (start-IsBalanced events h) r in
      (sym (length-contents s.ring) ∙ sym b.balance, omega arith)
