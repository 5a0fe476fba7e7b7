-- ===== src/Sched/Expire.antt =====
-- The loop of `task_wake_expired` of kernel/task.c over a sorted list.
use eter_os.Base.{
  ℕ, ◌≤◌, ◌<◌, ◌≡◌, ◌≢◌, refl, ◌∙◌, sym, ap, subst, ◌⊎◌, inl, inr, true, false, List, [], ◌∷◌, ◌==◌,
  ltb, leb, if◌then◌else◌, arith, Bool-cases, if_true, if_false, ==_iff, ==_ne, filter,
}
use eter_os.Futex.{TaskState}
use eter_os.Sched.{
  Sched, remove_task, contains, dequeue_sleep, is_queued, enqueue_ready, make_ready, is_active,
  set_state, wake, max_cpus, expire_loop,
}
use eter_os.Sched.Queue.{From, Sorted, Absent, Distinct}

abbrev pub ticks : Sched → ℕ → ℕ
ticks s t = (s.tasks t).wake_tick

-- What the ready queues do not touch.
pub record Keeps (s s' : Sched) : Type 0 where
  pub sleepers : s'.sleepers ≡ s.sleepers
  pub states : (u : ℕ) → (s'.tasks u).state ≡ (s.tasks u).state
  pub times : (u : ℕ) → ticks s' u ≡ ticks s u

pub enqueue_ready-Keeps : (t : ℕ) (s : Sched) → Keeps s (enqueue_ready t s)
unfolding enqueue_ready
enqueue_ready-Keeps t s = elim (Bool-cases (is_queued t s)) [
  | inl queued ↦ rw queued (record { sleepers = refl; states = λ u. refl; times = λ u. refl })
  | inr free ↦
      rw free (record { sleepers = refl; states = λ u. ground arith; times = λ u. ground arith })
]

pub make_ready-Keeps : (t : ℕ) (s : Sched) → Keeps s (make_ready t s)
unfolding make_ready
make_ready-Keeps t s = elim (Bool-cases (is_active t s.cpus max_cpus 0)) [
  | inl active ↦ rw active (record { sleepers = refl; states = λ u. refl; times = λ u. refl })
  | inr other ↦ rw other (enqueue_ready-Keeps t s)
]

pub wake_sleepers : (t : ℕ) (s : Sched) → (wake t s).sleepers ≡ remove_task t s.sleepers
unfolding wake dequeue_sleep set_state
wake_sleepers t s = (make_ready-Keeps t (dequeue_sleep t (set_state TaskState.ready t s))).sleepers

wake_states :
    (t : ℕ) (s : Sched) (u : ℕ)
    → ((wake t s).tasks u).state ≡ (if u == t then TaskState.ready else (s.tasks u).state)
unfolding wake dequeue_sleep set_state
wake_states t s u =
    (make_ready-Keeps t (dequeue_sleep t (set_state TaskState.ready t s))).states u ∙ ground arith

pub wake_times : (t : ℕ) (s : Sched) (u : ℕ) → ticks (wake t s) u ≡ ticks s u
unfolding wake dequeue_sleep set_state
wake_times t s u =
    (make_ready-Keeps t (dequeue_sleep t (set_state TaskState.ready t s))).times u ∙ ground arith

-- What waking the expired tasks of the list `ts` does.
pub record Wakes (now : ℕ) (ts : List ℕ) (s s' : Sched) : Type 0 where
  pub asleep : s'.sleepers ≡ filter (λ t. ltb now (ticks s t)) ts
  pub woken :
      (t : ℕ) → contains t ts ≡ true → ticks s t ≤ now → (s'.tasks t).state ≡ TaskState.ready
  pub others :
      (t : ℕ) → (contains t ts ≡ false) ⊎ (now < ticks s t) → (s'.tasks t).state ≡ (s.tasks t).state
  pub times : (t : ℕ) → ticks s' t ≡ ticks s t

-- The rest of a sorted list from a task on that does not wake yet.
filter-From :
    (now : ℕ) (f : ℕ → ℕ) (tick : ℕ) (ts : List ℕ)
    → now < tick
    → From f tick ts
    → filter (λ t. ltb now (f t)) ts ≡ ts
filter-From now f tick [] h a = refl
filter-From now f tick (t ∷ ts) h (a, tail) =
    if_true {b = ltb now (f t)} _ _ (ground (arith, h, a))
    ∙ ap (λ l. t ∷ l) (filter-From now f tick ts h tail)

From-contains :
    (f : ℕ → ℕ) (tick t : ℕ) (ts : List ℕ) → From f tick ts → contains t ts ≡ true → tick ≤ f t
unfolding contains
From-contains f tick t [] a c = absurd (ground (arith, c))
From-contains f tick t (u ∷ us) (a, tail) c = elim (Bool-cases (u == t)) [
  | inl this ↦ rw (sym ((==_iff u t).0 this)) a
  | inr other ↦ From-contains f tick t us tail (sym (if_false _ _ other) ∙ c)
]

filter-agree :
    (now : ℕ) (f g : ℕ → ℕ) (ts : List ℕ)
    → ((u : ℕ) → g u ≡ f u)
    → filter (λ t. ltb now (g t)) ts ≡ filter (λ t. ltb now (f t)) ts
filter-agree now f g ts same = ap (λ (h : ℕ → ℕ). filter (λ t. ltb now (h t)) ts) (λ i u. same u i)

pub Sorted-same : (f g : ℕ → ℕ) (ts : List ℕ) → ((u : ℕ) → g u ≡ f u) → Sorted f ts → Sorted g ts
Sorted-same f g ts same s = subst (λ h. Sorted h ts) (λ i u. sym (same u) i) s

contains-Absent : (t : ℕ) (ts : List ℕ) → Absent t ts → contains t ts ≡ false
unfolding contains
contains-Absent t [] a = refl
contains-Absent t (u ∷ us) (a, tail) = if_false _ _ (==_ne u t a) ∙ contains-Absent t us tail

remove_task_head : (t : ℕ) (ts : List ℕ) → remove_task t (t ∷ ts) ≡ ts
unfolding remove_task
remove_task_head t ts = if_true _ _ ((==_iff t t).1 refl)

-- The states after the rest of the loop, where its first round woke `t`.
module _ (now t : ℕ) (ts : List ℕ) (s s' : Sched) where
  woken_later :
      Absent t ts
      → Wakes now ts (wake t s) s'
      → (u : ℕ) → contains u (t ∷ ts) ≡ true
      → ticks s u ≤ now
      → (s'.tasks u).state ≡ TaskState.ready
  unfolding contains
  woken_later a rest u c h = elim (Bool-cases (t == u)) [
    | inl this ↦
        let e = (==_iff t u).0 this in
        rest.others u (inl (contains-Absent u ts (subst (λ x. Absent x ts) e a)))
        ∙ wake_states t s u
        ∙ if_true _ _ ((==_iff u t).1 (sym e))
    | inr other ↦ rest.woken u (sym (if_false _ _ other) ∙ c) (omega (arith, h, wake_times t s u))
  ]

  kept_later :
      leb (ticks s t) now ≡ true
      → Wakes now ts (wake t s) s'
      → (u : ℕ) → (contains u (t ∷ ts) ≡ false) ⊎ (now < ticks s u)
      → (s'.tasks u).state ≡ (s.tasks u).state
  unfolding contains
  kept_later expired rest u h =
      let different : u ≢ t =
        λ e. still_there (subst (λ x. (contains x (t ∷ ts) ≡ false) ⊎ (now < ticks s x)) e h) in
      let h' : (contains u ts ≡ false) ⊎ (now < ticks (wake t s) u) = elim h [
        | inl c ↦ inl (sym (if_false _ _ (==_ne t u (λ e. different (sym e)))) ∙ c)
        | inr late ↦ inr (omega (arith, late, wake_times t s u))
      ] in
      rest.others u h' ∙ wake_states t s u ∙ if_false _ _ (==_ne u t different)
    where
      still_there : ¬ ((contains t (t ∷ ts) ≡ false) ⊎ (now < ticks s t))
      still_there (inl c) = absurd (ground (arith, c))
      still_there (inr late) = absurd (ground (arith, late, expired))

pub expire_loop-Wakes :
    (now : ℕ) (ts : List ℕ) (s : Sched)
    → s.sleepers ≡ ts
    → Distinct ts
    → Sorted (ticks s) ts
    → Wakes now ts s (expire_loop now ts s)
unfolding expire_loop contains
expire_loop-Wakes now [] s at d o = record {
  asleep = at;
  woken = λ t c h. absurd (ground (arith, c, contains));
  others = λ t h. refl;
  times = λ t. refl;
}
expire_loop-Wakes now (t ∷ ts) s at (a, d) (from, o) = elim (Bool-cases (leb (ticks s t) now)) [
  | inl expired ↦
      let rest =
        expire_loop-Wakes now ts (wake t s)
          (wake_sleepers t s ∙ ap (remove_task t) at ∙ remove_task_head t ts) d
          (Sorted-same (ticks s) (ticks (wake t s)) ts (wake_times t s) o) in
      subst (λ s'. Wakes now (t ∷ ts) s s') (sym (if_true _ _ expired))
        (record {
          asleep =
              rest.asleep
              ∙ filter-agree now (ticks s) (ticks (wake t s)) ts (wake_times t s)
              ∙ sym (if_false {b = ltb now (ticks s t)} _ _ (ground (arith, expired)));
          woken = woken_later now t ts s (expire_loop now ts (wake t s)) a rest;
          others = kept_later now t ts s (expire_loop now ts (wake t s)) expired rest;
          times = λ u. rest.times u ∙ wake_times t s u;
        })
  | inr waits ↦
      let late : now < ticks s t = ground (arith, waits) in
      subst (λ s'. Wakes now (t ∷ ts) s s') (sym (if_false _ _ waits))
        (record {
          asleep =
              at
              ∙ sym (
                  if_true {b = ltb now (ticks s t)} _ _ (ground (arith, late))
                  ∙ ap (λ l. t ∷ l) (filter-From now (ticks s) (ticks s t) ts late from));
          woken = λ u c h. absurd (
              omega (
                arith,
                late,
                h,
                From-contains (ticks s) (ticks s t) u (t ∷ ts) (omega arith, from) c,
              ));
          others = λ u h. refl;
          times = λ u. refl;
        })
]
