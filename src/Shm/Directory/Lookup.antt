-- ===== src/Shm/Directory/Lookup.antt =====
-- The names of kernel/fs/shmfs.c as a map from names to objects.
use eter_os.Base.{
  ℕ, ◌<◌, ◌≡◌, refl, ◌∙◌, sym, subst, ap, ap₂, ◌↔◌, inl, inr, true, false, Option, none, some, List,
  [], ◌∷◌, if◌then◌else◌, length, leb-false, arith, Bool-cases, if_true, if_false,
}
use mathlib.Core.Option.{some-injective}
use eter_os.Vfs.{strlcpy}
use eter_os.Shm.{Object}
use eter_os.Shm.Directory.{same_string, shm_find_object, name_size, remove_object, rename_object}

same_string_refl : (s : List ℕ) → same_string s s ≡ true
unfolding same_string
same_string_refl [] = refl
same_string_refl (c ∷ s) = ground (arith, same_string_refl s)

pub same_string-eq : (s t : List ℕ) → same_string s t ≡ true → s ≡ t
unfolding same_string
same_string-eq [] [] h = refl
same_string-eq [] (d ∷ t) h = absurd (ground (arith, h))
same_string-eq (c ∷ s) [] h = absurd (ground (arith, h))
same_string-eq (c ∷ s) (d ∷ t) h =
    ap₂ (λ a b. a ∷ b) (ground (arith, h)) (same_string-eq s t (ground (arith, h)))

pub same_string_iff : (s t : List ℕ) → (same_string s t ≡ true) ↔ (s ≡ t)
same_string_iff s t =
    (same_string-eq s t, λ e. ap (λ x. same_string s x) (sym e) ∙ same_string_refl s)

-- Two names that are both the same as a third one.
pub same_string_meet :
    (a b m : List ℕ) → same_string a b ≡ false → same_string a m ≡ true → same_string b m ≡ false
same_string_meet a b m h e = elim (Bool-cases (same_string b m)) [
  | inl f ↦
      absurd (cc (h, (same_string_iff a b).1 (same_string-eq a m e ∙ sym (same_string-eq b m f))))
  | inr f ↦ f
]

pub same_string_flip : (a b : List ℕ) → same_string a b ≡ false → same_string b a ≡ false
same_string_flip a b h = elim (Bool-cases (same_string b a)) [
  | inl f ↦ absurd (cc (h, (same_string_iff a b).1 (sym (same_string-eq b a f))))
  | inr f ↦ f
]

-- No two objects have the same name.
abbrev pub Unique : List Object → Type 0
Unique [] = Unit
Unique (obj ∷ objects) = (shm_find_object obj.name objects ≡ none) × Unique objects

pub shm_find_object_same :
    (obj : Object) (name : List ℕ) (objects : List Object)
    → same_string obj.name name ≡ true
    → shm_find_object obj.name objects ≡ none
    → shm_find_object name objects ≡ none
shm_find_object_same obj name objects e h =
    ap (λ n. shm_find_object n objects) (sym (same_string-eq obj.name name e)) ∙ h

pub find-remove_object :
    (name other : List ℕ) (objects : List Object)
    → Unique objects
    → shm_find_object other (remove_object name objects)
      ≡ (if same_string name other then none else shm_find_object other objects)
unfolding shm_find_object remove_object
find-remove_object name other [] u = ground arith
find-remove_object name other (obj ∷ objects) (fresh, u) =
    elim (Bool-cases (same_string obj.name name)) [
      | inl first ↦
          let n = same_string-eq obj.name name first in
          ground (
            arith,
            first,
            ap (λ x. same_string x other) n,
            shm_find_object_same obj other objects,
            fresh,
          )
      | inr later ↦ ground (
        arith,
        later,
        same_string_meet obj.name name other,
        find-remove_object name other objects u,
      )
    ]

pub strlcpy_short : (name : List ℕ) → length name < name_size → strlcpy name name_size ≡ name
unfolding strlcpy
strlcpy_short name h = if_false _ _ (leb-false name_size (length name) h)

-- What the map gives for `other` after `obj` has got a new name.
abbrev pub renamed : Object → (old_name new_name other : List ℕ) → Option Object → Option Object
renamed obj old_name new_name other found =
    if same_string new_name other
    then some (record obj { name = new_name })
    else if same_string old_name other
    then none
    else found

pub find-rename_object :
    (old_name new_name other : List ℕ) (obj : Object) (objects : List Object)
    → Unique objects
    → length new_name < name_size
    → shm_find_object new_name objects ≡ none
    → shm_find_object old_name objects ≡ some obj
    → shm_find_object other (rename_object old_name new_name objects)
      ≡ renamed obj old_name new_name other (shm_find_object other objects)
unfolding shm_find_object rename_object
find-rename_object old_name new_name other obj [] u short free found =
    absurd (ground (arith, found))
find-rename_object old_name new_name other obj (curr ∷ objects) (fresh, u) short free found =
    elim (Bool-cases (same_string curr.name old_name)) [
      | inl first ↦
          let n = same_string-eq curr.name old_name first in
          let same : some curr ≡ some obj = sym (if_true _ _ first) ∙ found in
          let gone = shm_find_object_same curr other objects in
          subst
            (λ o.
              shm_find_object other (rename_object old_name new_name (curr ∷ objects))
              ≡ renamed o old_name new_name other (shm_find_object other (curr ∷ objects)))
            (some-injective curr obj same)
            (rw (first, strlcpy_short new_name short)
              (ground (arith, ap (λ x. same_string x other) n, gone, fresh)))
      | inr later ↦
          let found' : shm_find_object old_name objects ≡ some obj =
            sym (if_false _ _ later) ∙ found in
          let free' : shm_find_object new_name objects ≡ none = ground (arith, free) in
          let other_name : same_string curr.name new_name ≡ false = ground (arith, free) in
          let rest = find-rename_object old_name new_name other obj objects u short free' found' in
          rw later (
            ground (
              arith,
              rest,
              same_string_meet curr.name new_name other other_name,
              same_string_meet curr.name old_name other later,
            ))
    ]
