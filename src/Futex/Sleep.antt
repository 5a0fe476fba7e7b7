-- ===== src/Futex/Sleep.antt =====
-- What a waiter of kernel/futex.c may rely on.
use eter_os.Base.{
  subst, ltb, inl, inr, Bool-cases, ℕ, ◌+◌, ◌<◌, ◌≡◌, refl, ◌∙◌, ◌≢◌, Bool, true, false, List, [],
  ◌∷◌, Option, none, some, update_self, update_ne, arith, lt→ltb, ap, sym, ℕ_discrete, ==_ne,
  bit_and,
}
use eter_os.Futex.{
  TaskState, task_wakeup, Node, Task, Futex, futex_init, wakes, wake_task, wake_loop, wake, queued,
  task_block, wait_enter, wait_leave, remove_node, futex_hash, is_private_op, validate_uaddr,
}
use eter_os.Futex.Queue.{
  State, Reach, start, Absent, IsValid, Reach-IsValid, Queued-Absent, remove_node-Queued, Queued,
  wake_loop-Absent, wait_enter-Enters,
}

start-IsValid : (tasks : ℕ → Task) → IsValid (start tasks)
unfolding start futex_init Queued
start-IsValid tasks b = tt

remove_node-missing : (addr : ℕ) (ns : List Node) → Absent addr ns → (remove_node addr ns).0 ≡ false
unfolding remove_node Absent
remove_node-missing addr [] h = refl
remove_node-missing addr (n ∷ ns) (ne, h) =
    rw (==_ne n.addr addr ne) (remove_node-missing addr ns h)

cr3-task_block : (t : Task) → (task_block t).cr3 ≡ t.cr3
unfolding task_block
cr3-task_block t = ground arith

wakes-common :
    (cr3 uaddr : ℕ) (is_private : Bool) (mask : ℕ) (tasks : ℕ → Task) (n : Node)
    → n.uaddr ≡ uaddr
    → (tasks n.task).cr3 ≡ cr3
    → bit_and n.bitset mask ≢ 0
    → wakes cr3 uaddr is_private mask tasks n ≡ true
unfolding wakes
wakes-common cr3 uaddr is_private mask tasks n e f g = ground arith

-- A node at the head that is to be woken is taken off.
wake_loop-head :
    (cr3 uaddr : ℕ) (is_private : Bool) (mask count : ℕ) (n : Node) (ns : List Node)
    → (tasks : ℕ → Task) → wakes cr3 uaddr is_private mask tasks n ≡ true
    → 0 < count
    → Absent n.addr ns
    → Absent n.addr (wake_loop cr3 uaddr is_private mask count 0 (n ∷ ns) tasks).1
unfolding wake_loop
wake_loop-head cr3 uaddr is_private mask count n ns tasks hit pos h =
    rw (lt→ltb 0 count pos, hit, wake_loop)
      (wake_loop-Absent cr3 uaddr is_private mask count (0 + 1) ns (wake_task n.task tasks) n.addr
        h)

wake_task_self : (i : ℕ) (tasks : ℕ → Task) → (wake_task i tasks i).state ≢ TaskState.blocked
unfolding wake_task task_wakeup
wake_task_self i tasks e = ground (arith, e)

wake_task_ne : (i j : ℕ) (tasks : ℕ → Task) → i ≢ j → wake_task j tasks i ≡ tasks i
unfolding wake_task
wake_task_ne i j tasks ne = ground arith

wake_task_keeps :
    (i j : ℕ) (tasks : ℕ → Task)
    → (tasks i).state ≢ TaskState.blocked
    → (wake_task j tasks i).state ≢ TaskState.blocked
wake_task_keeps i j tasks awake = elim (ℕ_discrete i j) [
  | yes e ↦
      subst (λ k. (wake_task j tasks k).state ≢ TaskState.blocked) (sym e) (wake_task_self j tasks)
  | no ne ↦ λ e. awake (sym (ap (λ (t : Task). t.state) (wake_task_ne i j tasks ne)) ∙ e)
]

module _ (cr3 uaddr : ℕ) (is_private : Bool) (mask count : ℕ) where
  -- No task is put to sleep by a wake.
  wake_loop_keeps :
      (i woken : ℕ) (ns : List Node) (tasks : ℕ → Task)
      → (tasks i).state ≢ TaskState.blocked
      → ((wake_loop cr3 uaddr is_private mask count woken ns tasks).2 i).state ≢ TaskState.blocked
  unfolding wake_loop
  wake_loop_keeps i woken [] tasks awake = awake
  wake_loop_keeps i woken (n ∷ ns) tasks awake = elim (Bool-cases (ltb woken count)) [
    | inr full ↦ rw full awake
    | inl room ↦ elim (Bool-cases (wakes cr3 uaddr is_private mask tasks n)) [
      | inl hit ↦
          rw (room, hit, wake_loop)
            (wake_loop_keeps i (woken + 1) ns (wake_task n.task tasks)
              (wake_task_keeps i n.task tasks awake))
      | inr miss ↦ rw (room, miss, wake_loop) (wake_loop_keeps i woken ns tasks awake)
    ]
  ]

  wake_loop-head_awake :
      (n : Node) (ns : List Node) (tasks : ℕ → Task)
      → wakes cr3 uaddr is_private mask tasks n ≡ true
      → 0 < count
      → ((wake_loop cr3 uaddr is_private mask count 0 (n ∷ ns) tasks).2 n.task).state
        ≢ TaskState.blocked
  unfolding wake_loop
  wake_loop-head_awake n ns tasks hit pos =
      rw (lt→ltb 0 count pos, hit, wake_loop)
        (wake_loop_keeps n.task (0 + 1) ns (wake_task n.task tasks) (wake_task_self n.task tasks))

tasks-wake :
    (waker uaddr count op mask : ℕ) (f : Futex) (b : ℕ) (ns : List Node)
    → validate_uaddr uaddr ≡ true
    → futex_hash (f.tasks waker).cr3 uaddr (is_private_op op) ≡ b
    → f.buckets b ≡ ns
    → (wake waker uaddr count op mask f).1.tasks
      ≡ (wake_loop (f.tasks waker).cr3 uaddr (is_private_op op) mask count 0 ns f.tasks).2
unfolding wake
tasks-wake waker uaddr count op mask f b ns valid e c = rw (valid, e, c, wake) refl

buckets-wake :
    (waker uaddr count op mask : ℕ) (f : Futex) (b : ℕ) (ns : List Node)
    → validate_uaddr uaddr ≡ true
    → futex_hash (f.tasks waker).cr3 uaddr (is_private_op op) ≡ b
    → f.buckets b ≡ ns
    → (wake waker uaddr count op mask f).1.buckets b
      ≡ (wake_loop (f.tasks waker).cr3 uaddr (is_private_op op) mask count 0 ns f.tasks).1
unfolding wake
buckets-wake waker uaddr count op mask f b ns valid e c = rw (valid, e, c, wake) (ground arith)

module _ (tasks : ℕ → Task) {s : State} (r : Reach (start tasks) s) where
  -- After `futex_init` and any critical sections of any tasks, when a waiter frees its node, no
  -- list keeps the node.
  pub wait_leave-Absent :
      (target : Option ℕ) (now addr b : ℕ)
      → s.waiting addr ≡ some b
      → (i : ℕ) → Absent addr ((wait_leave addr b target now s.futex).1.buckets i)
  unfolding wait_leave
  wait_leave-Absent target now addr b w i =
      let v = Reach-IsValid (start-IsValid tasks) r in
      elim (ℕ_discrete i b) [
        | yes p ↦
            rw (p, update_self s.futex.buckets b)
              (remove_node-Queued s.waiting b addr (s.futex.buckets b) (v b)).0
        | no p ↦
            rw (update_ne s.futex.buckets b _ i p)
              (Queued-Absent s.waiting i addr _ (λ h. p (cc (w, h))) (v i))
      ]

  -- After `futex_init` and any critical sections, a task that has entered a wait is not missed: a
  -- wake of at least one task on the same address with the same flags, from the same process and
  -- with a common bit, leaves its task not blocked and ends its wait with 0, whatever its timeout.
  pub wait_leave-wake :
      (current uaddr val op bitset word locked_word addr b : ℕ) (g : Futex)
      → s.waiting addr ≡ none
      → wait_enter current uaddr val op bitset word locked_word (some addr) s.futex
        ≡ (queued addr b, g)
      → (waker count mask : ℕ) → (g.tasks waker).cr3 ≡ (s.futex.tasks current).cr3
      → 0 < count
      → bit_and bitset mask ≢ 0
      → (target : Option ℕ) (now : ℕ)
      → ((wait_leave addr b target now (wake waker uaddr count op mask g).1).0 ≡ none)
        × (((wake waker uaddr count op mask g).1.tasks current).state ≢ TaskState.blocked)
  unfolding wait_leave
  wait_leave-wake current uaddr val op bitset word locked_word addr b g fresh e waker count mask
        same pos common target now =
      let n = wait_enter-Enters current uaddr val op bitset word locked_word s.futex e in
      let node : Node = record { addr = addr; task = current; uaddr = uaddr; bitset = bitset } in
      let absent =
        Queued-Absent s.waiting b addr _ (λ h. cc (fresh, h))
          (Reach-IsValid (start-IsValid tasks) r b) in
      let own : (g.tasks current).cr3 ≡ (g.tasks waker).cr3 =
        rw n.tasks (
          ap (λ t. t.cr3) (update_self s.futex.tasks current _)
          ∙ cr3-task_block (s.futex.tasks current))
        ∙ sym same in
      let hit =
        wakes-common (g.tasks waker).cr3 uaddr (is_private_op op) mask g.tasks node refl own
          common in
      let gone =
        wake_loop-head (g.tasks waker).cr3 uaddr (is_private_op op) mask count node
          (s.futex.buckets b) g.tasks hit pos absent in
      let hash = ap (λ x. futex_hash x uaddr (is_private_op op)) same ∙ sym n.bucket in
      let list = ap (λ f. f b) n.buckets ∙ update_self s.futex.buckets b _ in
      let bucket =
        buckets-wake waker uaddr count op mask g b (node ∷ s.futex.buckets b) n.valid hash list in
      let tasks' =
        tasks-wake waker uaddr count op mask g b (node ∷ s.futex.buckets b) n.valid hash list in
      (
        rw (bucket, remove_node-missing addr _ gone) refl,
        rw tasks' (
            wake_loop-head_awake (g.tasks waker).cr3 uaddr (is_private_op op) mask count node
              (s.futex.buckets b) g.tasks hit pos),
      )
