-- ===== src/Sched/Queue.antt =====
-- The order of the sleep queue of kernel/task.c.
use eter_os.Base.{
  ℕ, ◌≤◌, ◌≡◌, ◌≢◌, sym, inl, inr, List, [], ◌∷◌, ◌==◌, leb, arith, Bool-cases, ==_iff,
}
use eter_os.Sched.{insert, remove_task}

-- Every task of the list wakes at `tick` or later.
abbrev pub From : (ℕ → ℕ) → (tick : ℕ) → List ℕ → Type 0
From wake_tick tick [] = Unit
From wake_tick tick (t ∷ ts) = (tick ≤ wake_tick t) × From wake_tick tick ts

abbrev pub Sorted : (ℕ → ℕ) → List ℕ → Type 0
Sorted wake_tick [] = Unit
Sorted wake_tick (t ∷ ts) = From wake_tick (wake_tick t) ts × Sorted wake_tick ts

abbrev pub Absent : ℕ → List ℕ → Type 0
Absent t [] = Unit
Absent t (u ∷ us) = (u ≢ t) × Absent t us

-- No task is in the list twice.
abbrev pub Distinct : List ℕ → Type 0
Distinct [] = Unit
Distinct (t ∷ ts) = Absent t ts × Distinct ts

module _ (f : ℕ → ℕ) where
  From-weaken : (m n : ℕ) (ts : List ℕ) → m ≤ n → From f n ts → From f m ts
  From-weaken m n [] h a = tt
  From-weaken m n (t ∷ ts) h (a, tail) = (omega (arith, h, a), From-weaken m n ts h tail)

  From-insert :
      (tick t : ℕ) (ts : List ℕ) → tick ≤ f t → From f tick ts → From f tick (insert f t ts)
  unfolding insert
  From-insert tick t [] h a = (h, tt)
  From-insert tick t (u ∷ us) h (a, tail) = elim (Bool-cases (leb (f t) (f u))) [
    | inl first ↦ rw first (h, (a, tail))
    | inr later ↦ rw later (a, From-insert tick t us h tail)
  ]

  pub Sorted-insert : (t : ℕ) (ts : List ℕ) → Sorted f ts → Sorted f (insert f t ts)
  unfolding insert
  Sorted-insert t [] s = (tt, tt)
  Sorted-insert t (u ∷ us) (a, s) = elim (Bool-cases (leb (f t) (f u))) [
    | inl first ↦
        let le : f t ≤ f u = ground (arith, first) in
        rw first ((le, From-weaken (f t) (f u) us le a), (a, s))
    | inr later ↦ rw later (From-insert (f u) t us (ground (arith, later)) a, Sorted-insert t us s)
  ]

  From-remove_task : (tick t : ℕ) (ts : List ℕ) → From f tick ts → From f tick (remove_task t ts)
  unfolding remove_task
  From-remove_task tick t [] a = tt
  From-remove_task tick t (u ∷ us) (a, tail) = elim (Bool-cases (u == t)) [
    | inl this ↦ rw this tail
    | inr other ↦ rw other (a, From-remove_task tick t us tail)
  ]

  pub Sorted-remove_task : (t : ℕ) (ts : List ℕ) → Sorted f ts → Sorted f (remove_task t ts)
  unfolding remove_task
  Sorted-remove_task t [] s = tt
  Sorted-remove_task t (u ∷ us) (a, s) = elim (Bool-cases (u == t)) [
    | inl this ↦ rw this s
    | inr other ↦ rw other (From-remove_task (f u) t us a, Sorted-remove_task t us s)
  ]

Absent-insert : (f : ℕ → ℕ) (t u : ℕ) (ts : List ℕ) → t ≢ u → Absent u ts → Absent u (insert f t ts)
unfolding insert
Absent-insert f t u [] h a = (h, tt)
Absent-insert f t u (v ∷ vs) h (a, tail) = elim (Bool-cases (leb (f t) (f v))) [
  | inl first ↦ rw first (h, (a, tail))
  | inr later ↦ rw later (a, Absent-insert f t u vs h tail)
]

pub Distinct-insert :
    (f : ℕ → ℕ) (t : ℕ) (ts : List ℕ) → Absent t ts → Distinct ts → Distinct (insert f t ts)
unfolding insert
Distinct-insert f t [] h d = (tt, tt)
Distinct-insert f t (u ∷ us) (h, hs) (a, d) = elim (Bool-cases (leb (f t) (f u))) [
  | inl first ↦ rw first ((h, hs), (a, d))
  | inr later ↦ rw later (Absent-insert f t u us (λ e. h (sym e)) a, Distinct-insert f t us hs d)
]

pub Absent-remove_task : (t u : ℕ) (ts : List ℕ) → Absent u ts → Absent u (remove_task t ts)
unfolding remove_task
Absent-remove_task t u [] a = tt
Absent-remove_task t u (v ∷ vs) (a, tail) = elim (Bool-cases (v == t)) [
  | inl this ↦ rw this tail
  | inr other ↦ rw other (a, Absent-remove_task t u vs tail)
]

pub Distinct-remove_task : (t : ℕ) (ts : List ℕ) → Distinct ts → Distinct (remove_task t ts)
unfolding remove_task
Distinct-remove_task t [] d = tt
Distinct-remove_task t (u ∷ us) (a, d) = elim (Bool-cases (u == t)) [
  | inl this ↦ rw this d
  | inr other ↦ rw other (Absent-remove_task t u us a, Distinct-remove_task t us d)
]

-- A task that was removed from such a list is gone.
pub Absent-remove_task_self : (t : ℕ) (ts : List ℕ) → Distinct ts → Absent t (remove_task t ts)
unfolding remove_task
Absent-remove_task_self t [] d = tt
Absent-remove_task_self t (u ∷ us) (a, d) = elim (Bool-cases (u == t)) [
  | inl this ↦ rw this (rw ((==_iff u t).0 this) at a)
  | inr other ↦ rw other (ground (arith, other), Absent-remove_task_self t us d)
]

-- The wake ticks may change outside the list.
From-agree :
    (f g : ℕ → ℕ) (tick t : ℕ) (ts : List ℕ)
    → ((u : ℕ) → u ≢ t → g u ≡ f u)
    → Absent t ts
    → From f tick ts
    → From g tick ts
From-agree f g tick t [] same a s = tt
From-agree f g tick t (u ∷ us) same (h, hs) (a, tail) =
    (omega (arith, a, same u h), From-agree f g tick t us same hs tail)

pub Sorted-agree :
    (f g : ℕ → ℕ) (t : ℕ) (ts : List ℕ)
    → ((u : ℕ) → u ≢ t → g u ≡ f u)
    → Absent t ts
    → Sorted f ts
    → Sorted g ts
Sorted-agree f g t [] same a s = tt
Sorted-agree f g t (u ∷ us) same (h, hs) (a, s) =
    (rw (same u h) (From-agree f g (f u) t us same hs a), Sorted-agree f g t us same hs s)
