-- ===== src/Sched/Ready.antt =====
-- The ready queues of kernel/task.c.
use eter_os.Base.{
  ℕ, suc, ◌+◌, ◌-◌, ◌≡◌, ◌≢◌, refl, ◌∙◌, sym, ap, subst, inl, inr, true, false, some, List, [], ◌∷◌,
  ◌++◌, ◌==◌, if◌then◌else◌, arith, Bool-cases, Option-cases, if_true, if_false, length,
  length-append, ℕ_discrete,
}
use eter_os.Sched.{Sched, remove_task, contains, choose_cpu, is_queued, enqueue_ready}
use eter_os.Sched.Schedule.{dequeue_ready}
use eter_os.Sched.Queue.{Absent, Distinct, Distinct-remove_task}

abbrev pub ready : Sched → ℕ → List ℕ
ready s cpu = (s.cpus cpu).local_ready

-- The ready queues are consistent: each counts its tasks, has no task twice, and has only tasks whose
-- target it is, so that no task is in two of them.
pub record Balanced (s : Sched) : Type 0 where
  pub counts : (cpu : ℕ) → (s.cpus cpu).local_task_count ≡ length (ready s cpu)
  pub distinct : (cpu : ℕ) → Distinct (ready s cpu)
  pub targets : (cpu t : ℕ) → contains t (ready s cpu) ≡ true → (s.tasks t).target_cpu ≡ some cpu

-- A change that the ready queues do not see.
pub record Same (s s' : Sched) : Type 0 where
  pub queues : (cpu : ℕ) → ready s' cpu ≡ ready s cpu
  pub counts : (cpu : ℕ) → (s'.cpus cpu).local_task_count ≡ (s.cpus cpu).local_task_count
  pub targets : (t : ℕ) → (s'.tasks t).target_cpu ≡ (s.tasks t).target_cpu

pub Same-Balanced : {s s' : Sched} → Same s s' → Balanced s → Balanced s'
Same-Balanced same b = record {
  counts = λ cpu. same.counts cpu ∙ b.counts cpu ∙ ap length (sym (same.queues cpu));
  distinct = λ cpu. subst Distinct (sym (same.queues cpu)) (b.distinct cpu);
  targets =
      λ cpu t c. same.targets t ∙ b.targets cpu t (ap (contains t) (sym (same.queues cpu)) ∙ c);
}

contains_snoc :
    (u t : ℕ) (ts : List ℕ) → contains u (ts ++ t ∷ []) ≡ (if contains u ts then true else t == u)
unfolding contains
contains_snoc u t [] = ground arith
contains_snoc u t (v ∷ vs) = ground (arith, contains_snoc u t vs)

Absent-snoc : (u t : ℕ) (ts : List ℕ) → t ≢ u → Absent u ts → Absent u (ts ++ t ∷ [])
Absent-snoc u t [] h a = (h, tt)
Absent-snoc u t (v ∷ vs) h (a, tail) = (a, Absent-snoc u t vs h tail)

Distinct-snoc :
    (t : ℕ) (ts : List ℕ) → contains t ts ≡ false → Distinct ts → Distinct (ts ++ t ∷ [])
unfolding contains
Distinct-snoc t [] c d = (tt, tt)
Distinct-snoc t (v ∷ vs) c (a, d) =
    (Absent-snoc v t vs (ground (arith, c)) a, Distinct-snoc t vs (ground (arith, c)) d)

contains-remove_task :
    (u t : ℕ) (ts : List ℕ) → contains u (remove_task t ts) ≡ true → contains u ts ≡ true
unfolding contains remove_task
contains-remove_task u t [] c = c
contains-remove_task u t (v ∷ vs) c = ground (arith, c, contains-remove_task u t vs)

length-remove_task :
    (t : ℕ) (ts : List ℕ) → contains t ts ≡ true → length ts ≡ suc (length (remove_task t ts))
unfolding contains remove_task
length-remove_task t [] c = absurd (ground (arith, c))
length-remove_task t (v ∷ vs) c = ground (arith, c, length-remove_task t vs)

-- A task that is in no queue is not in one of them.
not_queued :
    (t cpu : ℕ) {s : Sched} → Balanced s → is_queued t s ≡ false → contains t (ready s cpu) ≡ false
unfolding is_queued
not_queued t cpu {s} b free = elim (Bool-cases (contains t (ready s cpu))) [
  | inl there ↦ absurd (cc (there, rw (b.targets cpu t there, is_queued) at free))
  | inr away ↦ away
]

module _ (s s' : Sched) (chosen : ℕ) (queue : List ℕ) (count : ℕ) (b : Balanced s)
    (here : ready s' chosen ≡ queue) (here_count : (s'.cpus chosen).local_task_count ≡ count)
    (there : (cpu : ℕ) → cpu ≢ chosen → ready s' cpu ≡ ready s cpu)
    (there_count : (cpu : ℕ)
      → cpu ≢ chosen
      → (s'.cpus cpu).local_task_count ≡ (s.cpus cpu).local_task_count) where
  -- A change of one queue.
  changed-Balanced :
      count ≡ length queue
      → Distinct queue
      → ((t : ℕ) → contains t queue ≡ true → (s'.tasks t).target_cpu ≡ some chosen)
      → ((cpu t : ℕ)
          → cpu ≢ chosen
          → contains t (ready s cpu) ≡ true
          → (s'.tasks t).target_cpu ≡ (s.tasks t).target_cpu)
      → Balanced s'
  changed-Balanced counted distinct targets others = record {
    counts = λ cpu. elim (ℕ_discrete cpu chosen) [
      | yes e ↦
          subst (λ c. (s'.cpus c).local_task_count ≡ length (ready s' c)) (sym e)
            (here_count ∙ counted ∙ ap length (sym here))
      | no other ↦ there_count cpu other ∙ b.counts cpu ∙ ap length (sym (there cpu other))
    ];
    distinct = λ cpu. elim (ℕ_discrete cpu chosen) [
      | yes e ↦ subst (λ c. Distinct (ready s' c)) (sym e) (subst Distinct (sym here) distinct)
      | no other ↦ subst Distinct (sym (there cpu other)) (b.distinct cpu)
    ];
    targets = λ cpu t c. elim (ℕ_discrete cpu chosen) [
      | yes e ↦
          targets t (ap (contains t) (sym here) ∙ ap (λ k. contains t (ready s' k)) (sym e) ∙ c)
          ∙ ap some (sym e)
      | no other ↦
          let c' : contains t (ready s cpu) ≡ true = ap (contains t) (sym (there cpu other)) ∙ c in
          others cpu t other c' ∙ b.targets cpu t c'
    ];
  }

pub enqueue_ready-Balanced : (t : ℕ) {s : Sched} → Balanced s → Balanced (enqueue_ready t s)
unfolding enqueue_ready
enqueue_ready-Balanced t {s} b = elim (Bool-cases (is_queued t s)) [
  | inl queued ↦ subst Balanced (sym (if_true _ _ queued)) b
  | inr free ↦
      let chosen = choose_cpu t s in
      let absent = not_queued t chosen b free in
      subst Balanced (sym (if_false _ _ free)) (
        changed-Balanced s _ chosen (ready s chosen ++ t ∷ [])
          ((s.cpus chosen).local_task_count + 1) b (ground arith) (ground arith)
          (λ cpu h. ground (arith, h)) (λ cpu h. ground (arith, h))
          (omega (arith, b.counts chosen, length-append (ready s chosen) (t ∷ [])))
          (Distinct-snoc t (ready s chosen) absent (b.distinct chosen))
          (λ u c. ground (arith, c, contains_snoc u t (ready s chosen), b.targets chosen u))
          (λ cpu u h c.
            let other : u ≢ t =
              λ e. cc (c, not_queued t cpu b free, ap (λ x. contains x (ready s cpu)) e) in
            ground (arith, other)))
]

pub dequeue_ready-Balanced : (t : ℕ) {s : Sched} → Balanced s → Balanced (dequeue_ready t s)
unfolding dequeue_ready
dequeue_ready-Balanced t {s} b = elim (Option-cases (s.tasks t).target_cpu) [
  | inl nowhere ↦ rw (nowhere, dequeue_ready) b
  | inr (chosen, target) ↦ elim (Bool-cases (contains t (ready s chosen))) [
    | inl there ↦
        rw (target, there, dequeue_ready)
          (changed-Balanced s _ chosen (remove_task t (ready s chosen))
            ((s.cpus chosen).local_task_count - 1) b (ground arith) (ground arith)
            (λ cpu h. ground (arith, h)) (λ cpu h. ground (arith, h))
            (omega (arith, b.counts chosen, length-remove_task t (ready s chosen) there))
            (Distinct-remove_task t (ready s chosen) (b.distinct chosen))
            (λ u c. b.targets chosen u (contains-remove_task u t (ready s chosen) c))
            (λ cpu u h c. refl))
    | inr away ↦ rw (target, away, dequeue_ready) b
  ]
]
