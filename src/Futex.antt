-- ===== src/Futex.antt =====
-- kernel/futex.c: user-space mutexes.
--
-- A task that waits on an address has a node in one of 16 lists. `futex_wait` is two critical
-- sections, `wait_enter` up to `schedule()` and `wait_leave` after it. Nodes have the address that
-- `kmalloc` gave them. The calling task is not NULL, as it is from the first `schedule()` on.
mod Tests
pub mod Roused
pub mod Wake
pub mod Queue
pub mod Sleep
use eter_os.Base.{
  ℕ, zero, suc, ◌+◌, ◌*◌, ◌/◌, ◌%◌, Bool, true, false, not, ◌&&◌, ◌||◌, Option, none, some, List,
  [], ◌∷◌, ◌==◌, ltb, leb, if◌then◌else◌, bit_and, bit_xor, add64, mul64, update,
}

abbrev pub futex_buckets : ℕ
futex_buckets = 16

-- `task_state_t`, and the fields of `task_t` that this file uses.
pub data TaskState : Type 0 where
  ready running blocked sleeping stopped dead : TaskState

pub record Task : Type 0 where
  pub cr3 : ℕ
  pub state : TaskState
  pub signal_pending : Bool

-- `futex_node_t` with its own address; a task is its index.
pub record Node : Type 0 where
  pub addr : ℕ
  pub task : ℕ
  pub uaddr : ℕ
  pub bitset : ℕ

pub record Futex : Type 0 where
  pub buckets : ℕ → List Node
  pub tasks : ℕ → Task

unfoldable pub futex_hash : (cr3 uaddr : ℕ) → (is_private : Bool) → ℕ
futex_hash cr3 uaddr is_private =
    bit_xor (uaddr / 4) ((if is_private then cr3 else 0) / 4096) % futex_buckets

-- `futex_init`.
unfoldable pub futex_init : (ℕ → Task) → Futex
futex_init tasks = record { buckets = λ i. []; tasks = tasks }

unfoldable pub validate_uaddr : ℕ → Bool
validate_uaddr uaddr =
    if not (bit_and uaddr 3 == 0) then false else if uaddr == 0 then false else true

-- FUTEX_PRIVATE_FLAG in `op`.
unfoldable pub is_private_op : ℕ → Bool
is_private_op op = not (bit_and op 128 == 0)

pub data Errno : Type 0 where
  efault eagain enomem etimedout eintr : Errno

-- The end of the timeout: `none` for no timeout, else the seconds and the nanoseconds.
unfoldable pub target_tick : (now : ℕ) → Option (ℕ × ℕ) → Option ℕ
target_tick now none = none
target_tick now (some (sec, nsec)) =
    let tick = add64 now (add64 (mul64 sec 1000) (nsec / 1000000)) in
    some (if tick == 0 then 1 else tick)

-- `task_block` and `task_block_with_timeout` of kernel/task.c, as far as the state goes.
unfoldable pub task_block : Task → Task
task_block t = record t { state = if t.signal_pending then ready else blocked }

-- The state in `task_wakeup` of kernel/task.c.
unfoldable pub task_wakeup : Task → Task
task_wakeup t = elim t.state [
  | blocked ↦ record t { state = ready }
  | sleeping ↦ record t { state = ready }
  | stopped ↦ record t { state = ready }
  | _ ↦ t
]

-- What `futex_wait` does up to `schedule()`: an error, or the node and its bucket. `word` and
-- `locked_word` are what the two reads of `*uaddr` see, `node` what `kmalloc` returns.
pub data Entered : Type 0 where
  refused : Errno → Entered
  queued : (node bucket : ℕ) → Entered

unfoldable pub wait_enter :
    (current uaddr val op bitset word locked_word : ℕ) → (node : Option ℕ) → Futex → Entered × Futex
unfolding futex_hash validate_uaddr is_private_op task_block
wait_enter current uaddr val op bitset word locked_word node f =
    let b = futex_hash (f.tasks current).cr3 uaddr (is_private_op op) in
    if not (validate_uaddr uaddr)
    then (refused efault, f)
    else if not (word == val)
    then (refused eagain, f)
    else elim node [
      | none ↦ (refused enomem, f)
      | some addr ↦
          if not (locked_word == val)
          then (refused eagain, f)
          else let n : Node = record {
            addr = addr;
            task = current;
            uaddr = uaddr;
            bitset = bitset;
          } in
            (
              queued addr b,
              record {
                buckets = update f.buckets b (n ∷ f.buckets b);
                tasks = update f.tasks current (task_block (f.tasks current));
              },
            )
    ]

-- The search for the caller's node: whether it is there, and the list without it.
unfoldable pub remove_node : ℕ → List Node → Bool × List Node
remove_node node [] = (false, [])
remove_node node (n ∷ ns) =
    let (found, rest) = remove_node node ns in
    if n.addr == node then (true, ns) else (found, n ∷ rest)

-- The rest of `futex_wait`: the error, or `none` for 0.
unfoldable pub wait_leave :
    (node bucket : ℕ) → (target : Option ℕ) → (now : ℕ) → Futex → Option Errno × Futex
unfolding remove_node
wait_leave node bucket target now f =
    let (found, rest) = remove_node node (f.buckets bucket) in
    let timed_out : Bool = elim target [ none ↦ false | some tick ↦ leb tick now ] in
    (
      if found then some (if timed_out then etimedout else eintr) else none,
      record f { buckets = update f.buckets bucket rest },
    )

-- Whether `futex_wake` wakes the node.
unfoldable pub wakes :
    (cr3 uaddr : ℕ) → (is_private : Bool) → (bitset : ℕ) → (ℕ → Task) → Node → Bool
wakes cr3 uaddr is_private bitset tasks n =
    n.uaddr == uaddr
    && (not is_private || (tasks n.task).cr3 == cr3)
    && not (bit_and n.bitset bitset == 0)

-- The task is woken only if it is blocked.
unfoldable pub wake_task : ℕ → (ℕ → Task) → ℕ → Task
unfolding task_wakeup
wake_task i tasks = elim (tasks i).state [
  | blocked ↦ update tasks i (task_wakeup (tasks i))
  | _ ↦ tasks
]

-- The loop of `futex_wake`: the number of tasks woken, the list that stays, and the tasks.
unfoldable pub wake_loop :
    (cr3 uaddr : ℕ)
    → (is_private : Bool) → (bitset count woken : ℕ) → List Node
    → (ℕ → Task)
    → ℕ × List Node × (ℕ → Task)
unfolding wakes wake_task
wake_loop cr3 uaddr is_private bitset count woken [] tasks = (woken, [], tasks)
wake_loop cr3 uaddr is_private bitset count woken (n ∷ ns) tasks =
    let (w, rest, tasks') =
      wake_loop cr3 uaddr is_private bitset count (woken + 1) ns (wake_task n.task tasks) in
    let (w', rest', tasks'') = wake_loop cr3 uaddr is_private bitset count woken ns tasks in
    if not (ltb woken count)
    then (woken, n ∷ ns, tasks)
    else if wakes cr3 uaddr is_private bitset tasks n
    then (w, rest, tasks')
    else (w', n ∷ rest', tasks'')

-- `futex_wake`, for a `count` that is not negative: a negative one wakes as many as 0.
unfoldable pub wake : (current uaddr count op bitset : ℕ) → Futex → Option ℕ × Futex
unfolding futex_hash validate_uaddr is_private_op wake_loop
wake current uaddr count op bitset f =
    let cr3 = (f.tasks current).cr3 in
    let is_private = is_private_op op in
    let b = futex_hash cr3 uaddr is_private in
    let (woken, rest, tasks) =
      wake_loop cr3 uaddr is_private bitset count 0 (f.buckets b) f.tasks in
    if not (validate_uaddr uaddr)
    then (none, f)
    else (some woken, record { buckets = update f.buckets b rest; tasks = tasks })
