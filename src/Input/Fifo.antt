-- ===== src/Input/Fifo.antt =====
-- The rings of kernel/drivers/input/input.c as bounded queues of 1023 events.
use eter_os.Base.{
  ℕ, zero, suc, ◌+◌, ◌%◌, ◌<◌, ◌≡◌, refl, ◌∙◌, ◌≢◌, ◌⊎◌, inl, inr, true, false, none, some, List,
  [], ◌∷◌, ◌++◌, get_or, get_or-set, set, length, length-set, arith, ap, ap₂, ℕ_discrete, ==_iff,
  ==_ne,
}
use eter_os.Input.{Event, no_event, Ring, queue_size, push, take, pending}

pub record IsValid (r : Ring) : Type 0 where
  pub storage : length r.events ≡ queue_size
  pub head_in : r.head < queue_size
  pub tail_in : r.tail < queue_size

-- `n` events from index `t` on, round the end of the array.
unfoldable pub walk : List Event → ℕ → ℕ → List Event
walk es t zero = []
walk es t (suc n) = get_or es t no_event ∷ walk es ((t + 1) % queue_size) n

-- The events of a ring, oldest first.
unfoldable pub contents : Ring → List Event
contents r = walk r.events r.tail (pending r)

length-walk : (es : List Event) (t n : ℕ) → length (walk es t n) ≡ n
unfolding walk
length-walk es t zero = refl
length-walk es t (suc n) = ap suc (length-walk es ((t + 1) % queue_size) n)

pub length-contents : (r : Ring) → length (contents r) ≡ pending r
unfolding contents
length-contents r = length-walk r.events r.tail (pending r)

-- A store just behind `n` events adds it at their end.
walk-set :
    (es : List Event) (e : Event) (n t h : ℕ)
    → length es ≡ queue_size
    → t < queue_size
    → n + 1 < queue_size
    → h ≡ (t + n) % queue_size
    → walk (set es h e) t (suc n) ≡ walk es t n ++ e ∷ []
unfolding walk
walk-set es e zero t h len ht hn eq =
    ap (λ x. x ∷ []) (ground (arith, get_or-set es h t e no_event))
walk-set es e (suc n) t h len ht hn eq =
    ap₂ ◌∷◌ (ground (arith, get_or-set es h t e no_event))
      (walk-set es e n ((t + 1) % queue_size) h len (omega arith) (omega arith) (omega arith))

-- The number of events before and after the two operations.
pending_full : {r : Ring} → IsValid r → (r.head + 1) % queue_size ≡ r.tail → pending r ≡ 1023
unfolding pending
pending_full v e = omega arith

pending_pushed :
    {r : Ring} (es : List Event)
    → IsValid r
    → (r.head + 1) % queue_size ≢ r.tail
    → (pending r < 1023)
      × (pending (record { events = es; head = (r.head + 1) % queue_size; tail = r.tail })
          ≡ suc (pending r))
unfolding pending
pending_pushed es v ne = omega arith

-- The head lies behind the events.
behind : {r : Ring} → IsValid r → r.head ≡ (r.tail + pending r) % queue_size
unfolding pending
behind v = omega arith

pending_empty : {r : Ring} → IsValid r → r.head ≡ r.tail → pending r ≡ 0
unfolding pending
pending_empty v e = omega arith

pending_taken :
    {r : Ring}
    → IsValid r
    → r.head ≢ r.tail
    → pending r ≡ suc (pending (record r { tail = (r.tail + 1) % queue_size }))
unfolding pending
pending_taken v ne = omega arith

-- In a valid ring, a push stores the event at the end, unless there are 1023, when it changes
-- nothing, and leaves a valid ring.
pub push_refines :
    (e : Event) {r : Ring}
    → IsValid r
    → let (stored, r') = push e r in
      IsValid r'
      × (((stored ≡ true) × (length (contents r) < 1023) × (contents r' ≡ contents r ++ e ∷ []))
          ⊎ ((stored ≡ false) × (length (contents r) ≡ 1023) × (contents r' ≡ contents r)))
unfolding contents push walk
push_refines e {r} v = elim (ℕ_discrete ((r.head + 1) % queue_size) r.tail) [
  | yes full ↦
      rw ((==_iff _ _).1 full, push) (v, inr (refl, length-contents r ∙ pending_full v full, refl))
  | no room ↦
      let next = pending_pushed (set r.events r.head e) v room in
      rw (==_ne _ _ room, push)
        (
          record {
            storage = length-set r.events r.head e ∙ v.storage;
            head_in = omega arith;
            tail_in = v.tail_in;
          },
          inl (
            refl,
            omega (arith, length-contents r, next.0),
            rw next.1 (
                walk-set r.events e (pending r) r.tail r.head v.storage v.tail_in
                  (omega (arith, next.0)) (behind v)),
          ),
        )
]

-- In a valid ring, a read takes the oldest event, and finds none only in an empty ring, and leaves
-- a valid ring.
pub take_refines :
    {r : Ring}
    → IsValid r
    → let (found, r') = take r in
      IsValid r'
      × (((found ≡ none) × (contents r ≡ []) × (contents r' ≡ []))
          ⊎ ((e : Event) × (found ≡ some e) × (contents r ≡ e ∷ contents r')))
unfolding contents walk take pending
take_refines {r} v = elim (ℕ_discrete r.head r.tail) [
  | yes empty ↦
      let nothing : walk r.events r.tail (pending r) ≡ [] =
        ap (walk r.events r.tail) (pending_empty v empty) in
      rw ((==_iff _ _).1 empty, take) (v, inl (refl, nothing, nothing))
  | no some' ↦
      rw (==_ne _ _ some', take)
        (
          record { storage = v.storage; head_in = v.head_in; tail_in = omega arith },
          inr (
            get_or r.events r.tail no_event,
            refl,
            ap (walk r.events r.tail) (pending_taken v some'),
          ),
        )
]
