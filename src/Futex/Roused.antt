-- ===== src/Futex/Roused.antt =====
-- What `futex_wake` does to the tasks of the nodes that it takes off.
use eter_os.Base.{
  ◌==◌, ◌||◌, if_true, if_false, if◌then◌else◌, ℕ, ◌≡◌, refl, ◌∙◌, inl, inr, Bool, false, List, [],
  ◌∷◌, arith, Bool-cases, ap, ℕ_discrete,
}
use eter_os.Futex.{TaskState, Node, Task, task_wakeup, wake_task}

-- The tasks of some nodes are woken, in their order.
unfoldable pub wake_all : List Node → (ℕ → Task) → ℕ → Task
wake_all [] tasks = tasks
wake_all (n ∷ ns) tasks = wake_all ns (wake_task n.task tasks)

-- A task that is blocked becomes ready.
unfoldable pub roused : Task → Task
roused t = elim t.state [ TaskState.blocked ↦ record t { state = TaskState.ready } | _ ↦ t ]

-- Whether one of the nodes is the task's.
unfoldable pub has_task : ℕ → List Node → Bool
has_task i [] = false
has_task i (n ∷ ns) = (i == n.task) || has_task i ns

roused_twice : (t : Task) → roused (roused t) ≡ roused t
unfolding roused
roused_twice t = ground arith

wake_task-roused :
    (j : ℕ) (tasks : ℕ → Task) (i : ℕ)
    → wake_task j tasks i ≡ (if i == j then roused (tasks i) else tasks i)
unfolding wake_task task_wakeup roused
wake_task-roused j tasks i = elim (ℕ_discrete i j) [
  | yes e ↦ ground (arith, ap tasks e)
  | no e ↦ ground arith
]

pub wake_all-roused :
    (ns : List Node) (tasks : ℕ → Task) (i : ℕ)
    → wake_all ns tasks i ≡ (if has_task i ns then roused (tasks i) else tasks i)
unfolding wake_all has_task
wake_all-roused [] tasks i = refl
wake_all-roused (n ∷ ns) tasks i =
    let later = wake_all-roused ns (wake_task n.task tasks) i in
    let first = wake_task-roused n.task tasks i in
    elim (Bool-cases (i == n.task)) [
      | inl own ↦ elim (Bool-cases (has_task i ns)) [
        | inl again ↦
            later
            ∙ if_true _ _ again
            ∙ ap roused (first ∙ if_true _ _ own)
            ∙ roused_twice (tasks i)
            ∙ rw own refl
        | inr once ↦ later ∙ if_false _ _ once ∙ first ∙ rw own refl
      ]
      | inr other ↦
          later
          ∙ ap (λ t. if has_task i ns then roused t else t) (first ∙ if_false _ _ other)
          ∙ rw other refl
    ]
