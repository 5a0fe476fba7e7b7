-- ===== src/Futex/Queue.antt =====
-- The waiters of kernel/futex.c in any order of critical sections: no list keeps a freed node.
use eter_os.Base.{
  ℕ, ◌+◌, ◌≡◌, ◌∙◌, ◌≢◌, inl, inr, Bool, true, ◌==◌, List, [], ◌∷◌, Option, none, some, update,
  update_self, update_ne, ltb, Bool-cases, ap, sym, subst, ℕ_discrete, ==_iff, ==_ne,
}
use eter_os.Futex.{
  Node, Task, Futex, futex_init, wakes, wake_task, wake_loop, wake, Errno, Entered, queued, refused,
  task_block, wait_enter, wait_leave, remove_node, futex_hash, is_private_op, validate_uaddr,
}

-- `waiting` gives the bucket of each node whose task is between the two parts of `futex_wait`.
-- These nodes are allocated and not freed yet.
pub record State : Type 0 where
  pub futex : Futex
  pub waiting : ℕ → Option ℕ

-- One critical section of some task. `kmalloc` returns no node that is still allocated.
pub data Step (s : State) : State → Type 0 where
  enters :
      (current uaddr val op bitset word locked_word : ℕ) {addr b : ℕ} {g : Futex}
      → s.waiting addr ≡ none
      → wait_enter current uaddr val op bitset word locked_word (some addr) s.futex
        ≡ (queued addr b, g)
      → Step s (record { futex = g; waiting = update s.waiting addr (some b) })
  wakes_up :
      (current uaddr count op bitset : ℕ)
      → Step s (record s { futex = (wake current uaddr count op bitset s.futex).1 })
  leaves :
      (target : Option ℕ) (now : ℕ) {addr b : ℕ}
      → s.waiting addr ≡ some b
      → Step s (record {
        futex = (wait_leave addr b target now s.futex).1;
        waiting = update s.waiting addr none;
      })

pub data Reach (s : State) : State → Type 0 where
  here : Reach s s
  next : {t u : State} → Reach s t → Step t u → Reach s u

-- The node at `addr` is not in the list.
unfoldable pub Absent : ℕ → List Node → Type 0
Absent addr [] = Unit
Absent addr (n ∷ ns) = (n.addr ≢ addr) × Absent addr ns

-- Every node of the list is that of a waiter of this bucket, and is there once.
unfoldable pub Queued : (ℕ → Option ℕ) → ℕ → List Node → Type 0
unfolding Absent
Queued waiting b [] = Unit
Queued waiting b (n ∷ ns) = (waiting n.addr ≡ some b) × Absent n.addr ns × Queued waiting b ns

abbrev pub IsValid : State → Type 0
IsValid s = (b : ℕ) → Queued s.waiting b (s.futex.buckets b)

-- A node that has no waiter here is absent.
pub Queued-Absent :
    (waiting : ℕ → Option ℕ) (b addr : ℕ) (ns : List Node)
    → waiting addr ≢ some b
    → Queued waiting b ns
    → Absent addr ns
unfolding Queued Absent
Queued-Absent waiting b addr [] h q = tt
Queued-Absent waiting b addr (n ∷ ns) h (q, a, rest) =
    (λ e. h (ap waiting (sym e) ∙ q), Queued-Absent waiting b addr ns h rest)

-- The waiter of an absent node may change.
Queued-update :
    (waiting : ℕ → Option ℕ) (b addr : ℕ) (v : Option ℕ) (ns : List Node)
    → Absent addr ns
    → Queued waiting b ns
    → Queued (update waiting addr v) b ns
unfolding Queued Absent
Queued-update waiting b addr v [] h q = tt
Queued-update waiting b addr v (n ∷ ns) (ne, h) (q, a, rest) =
    (update_ne waiting addr v n.addr ne ∙ q, a, Queued-update waiting b addr v ns h rest)

remove_node-Absent_other :
    (addr node : ℕ) (ns : List Node) → Absent addr ns → Absent addr (remove_node node ns).1
unfolding remove_node Absent
remove_node-Absent_other addr node [] h = tt
remove_node-Absent_other addr node (n ∷ ns) (ne, h) = elim (ℕ_discrete n.addr node) [
  | yes e ↦ rw ((==_iff n.addr node).1 e) h
  | no e ↦ rw (==_ne n.addr node e) (ne, remove_node-Absent_other addr node ns h)
]

-- After its waiter has left, the node is absent, and all others have their waiters.
pub remove_node-Queued :
    (waiting : ℕ → Option ℕ) (b addr : ℕ) (ns : List Node)
    → Queued waiting b ns
    → Absent addr (remove_node addr ns).1 × Queued waiting b (remove_node addr ns).1
unfolding remove_node Queued Absent
remove_node-Queued waiting b addr [] q = (tt, tt)
remove_node-Queued waiting b addr (n ∷ ns) (q, a, rest) = elim (ℕ_discrete n.addr addr) [
  | yes e ↦ rw ((==_iff n.addr addr).1 e) (subst (λ x. Absent x ns) e a, rest)
  | no e ↦
      let (h, r) = remove_node-Queued waiting b addr ns rest in
      rw (==_ne n.addr addr e) ((e, h), (q, remove_node-Absent_other n.addr addr ns a, r))
]

module _ (cr3 uaddr : ℕ) (is_private : Bool) (bitset count : ℕ) where
  pub wake_loop-Absent :
      (woken : ℕ) (ns : List Node) (tasks : ℕ → Task) (addr : ℕ)
      → Absent addr ns
      → Absent addr (wake_loop cr3 uaddr is_private bitset count woken ns tasks).1
  unfolding wake_loop Absent
  wake_loop-Absent woken [] tasks addr h = tt
  wake_loop-Absent woken (n ∷ ns) tasks addr (ne, h) =
      let hit = wake_loop-Absent (woken + 1) ns (wake_task n.task tasks) addr h in
      let miss = wake_loop-Absent woken ns tasks addr h in
      elim (Bool-cases (ltb woken count)) [
        | inr e ↦ rw e (ne, h)
        | inl t ↦ elim (Bool-cases (wakes cr3 uaddr is_private bitset tasks n)) [
          | inl w ↦ rw (t, w, wake_loop) hit
          | inr w ↦ rw (t, w, wake_loop) (ne, miss)
        ]
      ]

  wake_loop-Queued :
      (waiting : ℕ → Option ℕ) (b woken : ℕ) (ns : List Node) (tasks : ℕ → Task)
      → Queued waiting b ns
      → Queued waiting b (wake_loop cr3 uaddr is_private bitset count woken ns tasks).1
  unfolding wake_loop Queued
  wake_loop-Queued waiting b woken [] tasks q = tt
  wake_loop-Queued waiting b woken (n ∷ ns) tasks (q, a, rest) =
      let hit = wake_loop-Queued waiting b (woken + 1) ns (wake_task n.task tasks) rest in
      let miss = wake_loop-Queued waiting b woken ns tasks rest in
      elim (Bool-cases (ltb woken count)) [
        | inr e ↦ rw e (q, a, rest)
        | inl t ↦ elim (Bool-cases (wakes cr3 uaddr is_private bitset tasks n)) [
          | inl w ↦ rw (t, w, wake_loop) hit
          | inr w ↦ rw (t, w, wake_loop) (q, wake_loop-Absent woken ns tasks n.addr a, miss)
        ]
      ]

-- What a successful entry does: the new node is at the head of the caller's bucket.
pub record Enters (current uaddr op bitset addr b : ℕ) (f g : Futex) : Type 0 where
  pub valid : validate_uaddr uaddr ≡ true
  pub bucket : b ≡ futex_hash (f.tasks current).cr3 uaddr (is_private_op op)
  pub buckets :
      g.buckets
      ≡ update f.buckets b
          (record { addr = addr; task = current; uaddr = uaddr; bitset = bitset } ∷ f.buckets b)
  pub tasks : g.tasks ≡ update f.tasks current (task_block (f.tasks current))

queued_bucket :
    {a b c d : ℕ} {f g : Futex}
    → ◌≡◌ {A = Entered × Futex} (queued a c, f) (queued b d, g)
    → (c ≡ d) × (f ≡ g)
queued_bucket h = (cc (ap (λ x. x.0) h), ap (λ x. x.1) h)

refused_queued :
    {e : Errno} {a b : ℕ} {f g : Futex} → ◌≢◌ {A = Entered × Futex} (refused e, f) (queued a b, g)
refused_queued h = cc (ap (λ x. x.0) h)

pub wait_enter-Enters :
    (current uaddr val op bitset word locked_word : ℕ) {addr b : ℕ} (f : Futex) {g : Futex}
    → wait_enter current uaddr val op bitset word locked_word (some addr) f ≡ (queued addr b, g)
    → Enters current uaddr op bitset addr b f g
unfolding wait_enter
wait_enter-Enters current uaddr val op bitset word locked_word {addr} {b} f {g} h =
    elim (Bool-cases (validate_uaddr uaddr)) [
      | inr v ↦ absurd (refused_queued (rw v at h))
      | inl v ↦ elim (Bool-cases (word == val)) [
        | inr w ↦ absurd (refused_queued (rw (v, w) at h))
        | inl w ↦ elim (Bool-cases (locked_word == val)) [
          | inr l ↦ absurd (refused_queued (rw (v, w, l) at h))
          | inl l ↦
              let (eb, eg) = queued_bucket (rw (v, w, l) at h) in
              record {
                valid = v;
                bucket = sym eb;
                buckets = rw (sym eb) (sym (ap (λ f. f.buckets) eg));
                tasks = sym (ap (λ f. f.tasks) eg);
              }
        ]
      ]
    ]

wake-IsValid :
    (current uaddr count op bitset : ℕ) (f : Futex) (waiting : ℕ → Option ℕ)
    → ((b : ℕ) → Queued waiting b (f.buckets b))
    → (i : ℕ) → Queued waiting i ((wake current uaddr count op bitset f).1.buckets i)
unfolding wake
wake-IsValid current uaddr count op bitset f waiting v i =
    let cr3 = (f.tasks current).cr3 in
    let p = is_private_op op in
    let b = futex_hash cr3 uaddr p in
    elim (Bool-cases (validate_uaddr uaddr)) [
      | inr e ↦ rw e (v i)
      | inl e ↦ elim (ℕ_discrete i b) [
        | yes same ↦
            rw (e, same, update_self f.buckets b)
              (wake_loop-Queued cr3 uaddr p bitset count waiting b 0 (f.buckets b) f.tasks (v b))
        | no other ↦ rw (e, update_ne f.buckets b _ i other) (v i)
      ]
    ]

Step-IsValid : {s t : State} → IsValid s → Step s t → IsValid t
unfolding wait_leave Queued
Step-IsValid {s} v (enters current uaddr val op bitset word locked_word {addr} {b} {g} fresh e) i =
    let n = wait_enter-Enters current uaddr val op bitset word locked_word s.futex e in
    let absent : (j : ℕ) → Absent addr (s.futex.buckets j) =
      λ j. Queued-Absent s.waiting j addr _ (λ h. cc (fresh, h)) (v j) in
    let old : (j : ℕ) → Queued (update s.waiting addr (some b)) j (s.futex.buckets j) =
      λ j. Queued-update s.waiting j addr (some b) _ (absent j) (v j) in
    elim (ℕ_discrete i b) [
      | yes p ↦
          rw (n.buckets, p, update_self s.futex.buckets b)
            (update_self s.waiting addr (some b), absent b, old b)
      | no p ↦ rw (n.buckets, update_ne s.futex.buckets b _ i p) (old i)
    ]
Step-IsValid {s} v (wakes_up current uaddr count op bitset) i =
    wake-IsValid current uaddr count op bitset s.futex s.waiting v i
Step-IsValid {s} v (leaves target now {addr} {b} w) i = elim (ℕ_discrete i b) [
  | yes p ↦
      let (gone, q) = remove_node-Queued s.waiting b addr (s.futex.buckets b) (v b) in
      rw (p, update_self s.futex.buckets b) (Queued-update s.waiting b addr none _ gone q)
  | no p ↦ rw (update_ne s.futex.buckets b _ i p) (
      Queued-update s.waiting i addr none _
        (Queued-Absent s.waiting i addr _ (λ h. p (cc (w, h))) (v i)) (v i))
]

pub Reach-IsValid : {s t : State} → IsValid s → Reach s t → IsValid t
Reach-IsValid v here = v
Reach-IsValid v (next r s) = Step-IsValid (Reach-IsValid v r) s

-- The state after `futex_init`, with no waiters.
unfoldable pub start : (ℕ → Task) → State
unfolding futex_init
start tasks = record { futex = futex_init tasks; waiting = λ addr. none }
