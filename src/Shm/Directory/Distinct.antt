-- ===== src/Shm/Directory/Distinct.antt =====
-- The names of kernel/fs/shmfs.c stay different.
use eter_os.Base.{
  ℕ, ◌<◌, ◌≡◌, refl, ◌∙◌, inl, inr, false, none, List, [], ◌∷◌, length, arith, Bool-cases,
}
use eter_os.Shm.{Object}
use eter_os.Shm.Directory.{same_string, shm_find_object, name_size, remove_object, rename_object}
use eter_os.Shm.Directory.Lookup.{Unique, find-remove_object, strlcpy_short, same_string_flip}

pub Unique-remove_object :
    (name : List ℕ) (objects : List Object) → Unique objects → Unique (remove_object name objects)
unfolding remove_object
Unique-remove_object name [] u = tt
Unique-remove_object name (obj ∷ objects) (fresh, u) =
    elim (Bool-cases (same_string obj.name name)) [
      | inl first ↦ rw first u
      | inr later ↦ rw later (
        find-remove_object name obj.name objects u ∙ ground (arith, fresh),
        Unique-remove_object name objects u,
      )
    ]

rename_object_absent :
    (old_name new_name name : List ℕ) (objects : List Object)
    → length new_name < name_size
    → same_string new_name name ≡ false
    → shm_find_object name objects ≡ none
    → shm_find_object name (rename_object old_name new_name objects) ≡ none
unfolding shm_find_object rename_object
rename_object_absent old_name new_name name [] short other h = refl
rename_object_absent old_name new_name name (obj ∷ objects) short other h =
    elim (Bool-cases (same_string obj.name old_name)) [
      | inl first ↦ rw (first, strlcpy_short new_name short, other) (ground (arith, h))
      | inr later ↦
          rw later
            (ground (arith, h, rename_object_absent old_name new_name name objects short other))
    ]

pub Unique-rename_object :
    (old_name new_name : List ℕ) (objects : List Object)
    → Unique objects
    → length new_name < name_size
    → shm_find_object new_name objects ≡ none
    → Unique (rename_object old_name new_name objects)
unfolding shm_find_object rename_object
Unique-rename_object old_name new_name [] u short free = tt
Unique-rename_object old_name new_name (obj ∷ objects) (fresh, u) short free =
    let free' : shm_find_object new_name objects ≡ none = ground (arith, free) in
    let other : same_string obj.name new_name ≡ false = ground (arith, free) in
    elim (Bool-cases (same_string obj.name old_name)) [
      | inl first ↦ rw (first, strlcpy_short new_name short) (free', u)
      | inr later ↦ rw later (
        rename_object_absent old_name new_name obj.name objects short
            (same_string_flip obj.name new_name other) fresh,
        Unique-rename_object old_name new_name objects u short free',
      )
    ]
