-- ===== src/Futex/Wake.antt =====
-- The loop of `futex_wake` against the list of the nodes that it has to wake.
use mathlib.Core.Bool.{true≢false}
use eter_os.Bits.{bit_and_3}
use eter_os.Base.{
  ◌==◌, ◌&&◌, ◌%◌, ◌↔◌, bit_and, if◌then◌else◌, sym, ℕ, suc, ◌+◌, ◌-◌, ◌≡◌, refl, ◌∙◌, ◌≢◌, ◌⊎◌,
  inl, inr, Bool, true, not, List, [], ◌∷◌, Option, none, some, length, take, drop, filter,
  update_self, update_ne, arith, ltb, ltb→lt, Bool-cases, ap, ℕ_discrete,
}
use eter_os.Futex.{
  Node, Task, Futex, futex_hash, validate_uaddr, is_private_op, wakes, task_wakeup, wake_task,
  wake_loop, wake,
}
use eter_os.Futex.Roused.{wake_all, roused, has_task, wake_all-roused}

cr3-task_wakeup : (t : Task) → (task_wakeup t).cr3 ≡ t.cr3
unfolding task_wakeup
cr3-task_wakeup t = ground arith

cr3-wake_task : (i : ℕ) (tasks : ℕ → Task) (k : ℕ) → (wake_task i tasks k).cr3 ≡ (tasks k).cr3
unfolding wake_task
cr3-wake_task i tasks k = elim (ℕ_discrete k i) [
  | yes e ↦ ground (arith, cr3-task_wakeup (tasks i), ap tasks e)
  | no e ↦ ground arith
]

module _ (cr3 uaddr : ℕ) (is_private : Bool) (bitset : ℕ) where
  wakes-wake_task :
      (i : ℕ) (tasks : ℕ → Task) (n : Node)
      → wakes cr3 uaddr is_private bitset (wake_task i tasks) n
        ≡ wakes cr3 uaddr is_private bitset tasks n
  unfolding wakes
  wakes-wake_task i tasks n = rw (cr3-wake_task i tasks n.task) refl

  -- What the loop gives where it may wake `room` more nodes of `ns`: `w` tells the nodes to wake.
  record Woken (w : Node → Bool) (room woken : ℕ) (ns : List Node) (tasks : ℕ → Task)
      (r : ℕ × List Node × (ℕ → Task)) : Type 0 where
    pub number : r.0 ≡ woken + length (take room (filter w ns))
    pub kept : filter w r.1 ≡ drop room (filter w ns)
    pub others : filter (λ n. not (w n)) r.1 ≡ filter (λ n. not (w n)) ns
    pub tasks_woken : r.2 ≡ wake_all (take room (filter w ns)) tasks

  wake_loop-Woken :
      (count woken : ℕ) (ns : List Node) (tasks : ℕ → Task) (w : Node → Bool)
      → ((n : Node) → wakes cr3 uaddr is_private bitset tasks n ≡ w n)
      → Woken w
          (count - woken)
          woken
          ns
          tasks
          (wake_loop cr3 uaddr is_private bitset count woken ns tasks)
  unfolding wake_loop wake_all
  wake_loop-Woken count woken [] tasks w same = elim (Bool-cases (ltb woken count)) [
    | inl t ↦
        let room : count - woken ≡ suc (count - suc woken) = omega (arith, ltb→lt woken count t) in
        rw room (record { number = omega arith; kept = refl; others = refl; tasks_woken = refl })
    | inr e ↦
        let full : count - woken ≡ 0 = ground arith in
        rw full (record { number = omega arith; kept = refl; others = refl; tasks_woken = refl })
  ]
  wake_loop-Woken count woken (n ∷ ns) tasks w same = elim (Bool-cases (ltb woken count)) [
    | inr e ↦
        let full : count - woken ≡ 0 = ground arith in
        rw (e, full)
          (record { number = omega arith; kept = refl; others = refl; tasks_woken = refl })
    | inl t ↦
        let room : count - woken ≡ suc (count - (woken + 1)) =
          omega (arith, ltb→lt woken count t) in
        elim (Bool-cases (w n)) [
          | inl hit ↦
              let r =
                wake_loop-Woken count (woken + 1) ns (wake_task n.task tasks) w
                  (λ m. wakes-wake_task n.task tasks m ∙ same m) in
              rw (t, room, same n, hit, wake_loop)
                (record {
                  number = rw hit (omega (arith, r.number));
                  kept = rw hit r.kept;
                  others = rw hit r.others;
                  tasks_woken = rw hit r.tasks_woken;
                })
          | inr miss ↦
              let r = wake_loop-Woken count woken ns tasks w same in
              rw (t, same n, miss, wake_loop)
                (record {
                  number = rw miss r.number;
                  kept = rw miss r.kept;
                  others = rw miss (ap (λ ms. n ∷ ms) r.others);
                  tasks_woken = rw miss r.tasks_woken;
                })
        ]
  ]

-- Whether a waiter is one that a wake is meant for: it waits on the same address, in the same process
-- where the wake is private, and the bits have one in common.
unfoldable pub concerns :
    (cr3 uaddr : ℕ) → (is_private : Bool) → (bitset : ℕ) → (ℕ → Task) → Node → Bool
concerns cr3 uaddr is_private bitset tasks n =
    (if is_private then (tasks n.task).cr3 == cr3 else true)
    && n.uaddr == uaddr
    && not (bit_and n.bitset bitset == 0)

wakes-concerns :
    (cr3 uaddr : ℕ) (is_private : Bool) (bitset : ℕ) (tasks : ℕ → Task) (n : Node)
    → wakes cr3 uaddr is_private bitset tasks n ≡ concerns cr3 uaddr is_private bitset tasks n
unfolding wakes concerns
wakes-concerns cr3 uaddr is_private bitset tasks n = ground arith

-- An address that is not 0 and a multiple of 4.
abbrev pub Aligned : ℕ → Type 0
Aligned uaddr = (uaddr ≢ 0) × (uaddr % 4 ≡ 0)

validate_uaddr_iff : (uaddr : ℕ) → (validate_uaddr uaddr ≡ true) ↔ Aligned uaddr
unfolding validate_uaddr
validate_uaddr_iff uaddr =
    (λ h. ground (arith, h, bit_and_3 uaddr), λ (a, b). ground (arith, a, b, bit_and_3 uaddr))

-- The first `count` nodes of the bucket that pass the test `w` are taken off the list, and the tasks
-- of these that are blocked become ready; all else stays, in its order.
pub record Wakes (bucket : ℕ) (w : Node → Bool) (count : ℕ) (f : Futex) (r : Option ℕ × Futex)
    : Type 0 where
  pub number : r.0 ≡ some (length (take count (filter w (f.buckets bucket))))
  pub kept : filter w (r.1.buckets bucket) ≡ drop count (filter w (f.buckets bucket))
  pub others :
      filter (λ n. not (w n)) (r.1.buckets bucket) ≡ filter (λ n. not (w n)) (f.buckets bucket)
  pub buckets : (i : ℕ) → i ≢ bucket → r.1.buckets i ≡ f.buckets i
  pub tasks_woken :
      (i : ℕ)
      → r.1.tasks i ≡ (
          if has_task i (take count (filter w (f.buckets bucket)))
          then roused (f.tasks i)
          else f.tasks i)

-- `futex_wake` refuses an address that is 0 or not a multiple of 4, and changes nothing. For any
-- other it takes the first `count` waiters of the caller's bucket that it is meant for off the list
-- and makes their tasks ready where they are blocked, and leaves all other nodes, their order, and
-- all other tasks as they were.
pub wake-Wakes :
    (current uaddr count op bitset : ℕ) (f : Futex)
    → let cr3 = (f.tasks current).cr3 in
      let p = is_private_op op in
      ((¬ Aligned uaddr) × (wake current uaddr count op bitset f ≡ (none, f)))
      ⊎ (Aligned uaddr
          × Wakes
              (futex_hash cr3 uaddr p)
              (concerns cr3 uaddr p bitset f.tasks)
              count
              f
              (wake current uaddr count op bitset f))
unfolding wake
wake-Wakes current uaddr count op bitset f = elim (Bool-cases (validate_uaddr uaddr)) [
  | inr e ↦ inl (λ a. true≢false (sym ((validate_uaddr_iff uaddr).1 a) ∙ e), rw e refl)
  | inl e ↦
      let cr3 = (f.tasks current).cr3 in
      let p = is_private_op op in
      let b = futex_hash cr3 uaddr p in
      let w = concerns cr3 uaddr p bitset f.tasks in
      let none_yet : count - 0 ≡ count = omega arith in
      let r : Woken cr3 uaddr p bitset w count 0 (f.buckets b) f.tasks
          (wake_loop cr3 uaddr p bitset count 0 (f.buckets b) f.tasks) =
        rw none_yet at (
          wake_loop-Woken cr3 uaddr p bitset count 0 (f.buckets b) f.tasks w
            (wakes-concerns cr3 uaddr p bitset f.tasks)) in
      inr (
        (validate_uaddr_iff uaddr).0 e,
        rw (e, wake)
            (record {
              number = ap some (omega (arith, r.number));
              kept = rw (update_self f.buckets b) r.kept;
              others = rw (update_self f.buckets b) r.others;
              buckets = λ i ne. update_ne f.buckets b _ i ne;
              tasks_woken = λ i.
                  ap (λ (g : ℕ → Task). g i) r.tasks_woken
                  ∙ wake_all-roused (take count (filter w (f.buckets b))) f.tasks i;
            }),
      )
]
