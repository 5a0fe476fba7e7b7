-- ===== src/Shm/Directory/Names.antt =====
-- Sequences of calls on the names of kernel/fs/shmfs.c against the map that they describe.
use eter_os.Base.{
  ℕ, ◌<◌, ◌≡◌, refl, ◌∙◌, sym, subst, ap, inl, inr, Bool, true, false, Option, none, some, List, [],
  ◌∷◌, if◌then◌else◌, length, arith, Bool-cases, Option-cases, if_true, if_false,
}
use eter_os.Pmm.{Pmm}
use eter_os.Shm.{Object}
use eter_os.Shm.Directory.{
  same_string, shm_find_object, name_size, new_object, shm_create_object, remove_object,
  rename_object, shmfs_create, shmfs_unlink, shmfs_rename,
}
use eter_os.Shm.Directory.Lookup.{
  Unique, renamed, find-remove_object, find-rename_object, strlcpy_short, same_string-eq,
  same_string_iff, same_string_flip,
}
use eter_os.Shm.Directory.Distinct.{Unique-remove_object, Unique-rename_object}

-- A call, under the lock of the list.
pub data Call : Type 0 where
  creates : (memory : Bool) → (name : List ℕ) → Call
  unlinks : (name : List ℕ) → Call
  renames : (old_name new_name : List ℕ) → Call

unfoldable pub call : Call → List Object → Pmm → List Object × Pmm
unfolding shmfs_create shmfs_unlink shmfs_rename
call (creates memory name) objects p = ((shmfs_create memory name objects).1, p)
call (unlinks name) objects p =
    let (status, objects', p') = shmfs_unlink name objects p in (objects', p')
call (renames old_name new_name) objects p =
    let (status, objects', p') = shmfs_rename old_name new_name objects p in (objects', p')

-- The names are not empty and fit their array, and a file is not renamed to itself.
abbrev pub Fits : List ℕ → Type 0
Fits name = (0 < length name) × (length name < name_size)

abbrev pub Proper : Call → Type 0
Proper (creates memory name) = Fits name
Proper (unlinks name) = Unit
Proper (renames old_name new_name) = Fits new_name × (same_string old_name new_name ≡ false)

-- What a call does to the map from names to objects.
unfoldable pub described : Call → (List ℕ → Option Object) → List ℕ → Option Object
described (creates memory name) f other =
    if same_string name other
    then elim (f name) [
      | none ↦
          if memory
          then some (record {
            name = name;
            size = 0;
            pages = [];
            ref_count = 1;
            prot_mask = 7;
            is_pinned = true;
          })
          else none
      | some obj ↦ some obj
    ]
    else f other
described (unlinks name) f other = if same_string name other then none else f other
described (renames old_name new_name) f other = elim (f old_name) [
  | none ↦ f other
  | some obj ↦ renamed obj old_name new_name other (f other)
]

-- The map of a list of objects.
abbrev pub lookup : List Object → List ℕ → Option Object
lookup objects name = shm_find_object name objects

pub record Refines (c : Call) (objects : List Object) (p : Pmm) : Type 0 where
  pub unique : Unique (call c objects p).0
  pub same :
      (other : List ℕ) → lookup (call c objects p).0 other ≡ described c (lookup objects) other

-- A call that leaves `objects'`.
refines :
    {c : Call} {objects : List Object} {p : Pmm} (objects' : List Object)
    → (call c objects p).0 ≡ objects'
    → Unique objects'
    → ((other : List ℕ) → lookup objects' other ≡ described c (lookup objects) other)
    → Refines c objects p
refines objects' e u same = record {
  unique = subst Unique (sym e) u;
  same = λ other. ap (λ o. lookup o other) e ∙ same other;
}

-- The lookup of a name that is the same as another one.
lookup_same :
    (name other : List ℕ) (objects : List Object)
    → same_string name other ≡ true
    → lookup objects other ≡ lookup objects name
lookup_same name other objects e = ap (lookup objects) (sym (same_string-eq name other e))

module _ (objects : List Object) (p : Pmm) (u : Unique objects) where
  create_new :
      (name : List ℕ)
      → Fits name
      → lookup objects name ≡ none
      → Refines (creates true name) objects p
  unfolding call described shmfs_create shm_create_object new_object shm_find_object
  create_new [] (some_, short) missing = absurd (omega (arith, some_))
  create_new (c ∷ name) (some_, short) missing =
      let name_kept = strlcpy_short (c ∷ name) short in
      refines (new_object (c ∷ name) ∷ objects) (rw (missing, shmfs_create) refl)
        (rw (name_kept, missing) (refl, u)) (λ other. rw (missing, name_kept) refl)

  create-Refines :
      (memory : Bool) (name : List ℕ) → Fits name → Refines (creates memory name) objects p
  unfolding call described shmfs_create
  create-Refines memory name fits = elim (Option-cases (shm_find_object name objects)) [
    | inr (obj, found) ↦
        refines objects (rw (found, shmfs_create) refl) u
          (λ other. rw found (ground (arith, lookup_same name other objects, found)))
    | inl missing ↦ elim (Bool-cases memory) [
      | inl enough ↦
          subst (λ m. Refines (creates m name) objects p) (sym enough)
            (create_new name fits missing)
      | inr full ↦
          refines objects (rw (missing, full, shmfs_create) refl) u
            (λ other. rw (missing, full) (ground (arith, lookup_same name other objects, missing)))
    ]
  ]

  unlink-Refines : (name : List ℕ) → Refines (unlinks name) objects p
  unfolding call described shmfs_unlink
  unlink-Refines name = elim (Option-cases (shm_find_object name objects)) [
    | inr (obj, found) ↦
        refines (remove_object name objects) (rw (found, shmfs_unlink) refl)
          (Unique-remove_object name objects u) (λ other. find-remove_object name other objects u)
    | inl missing ↦
        refines objects (rw (missing, shmfs_unlink) refl) u
          (λ other. ground (arith, lookup_same name other objects, missing))
  ]

  rename-Refines :
      (old_name new_name : List ℕ)
      → Fits new_name
      → same_string old_name new_name ≡ false
      → Refines (renames old_name new_name) objects p
  unfolding call described shmfs_rename
  rename-Refines old_name new_name (some_, short) different =
      elim (Option-cases (shm_find_object old_name objects)) [
        | inl missing ↦
            refines objects (rw (missing, shmfs_rename) refl) u
              (λ other. rw (missing, described) refl)
        | inr (obj, found) ↦ elim (Option-cases (shm_find_object new_name objects)) [
          | inl free ↦
              refines (rename_object old_name new_name objects)
                (rw (found, free, shmfs_rename) refl)
                (Unique-rename_object old_name new_name objects u short free)
                (λ other.
                  rw (found, described)
                    (find-rename_object old_name new_name other obj objects u short free found))
          | inr (existing, taken) ↦
              let left = remove_object new_name objects in
              let u' = Unique-remove_object new_name objects u in
              let free =
                find-remove_object new_name new_name objects u
                ∙ if_true _ _ ((same_string_iff new_name new_name).1 refl) in
              let found' =
                find-remove_object new_name old_name objects u
                ∙ if_false _ _ (same_string_flip old_name new_name different)
                ∙ found in
              refines (rename_object old_name new_name left) (rw (found, taken, shmfs_rename) refl)
                (Unique-rename_object old_name new_name left u' short free)
                (λ other.
                  rw (found, described)
                    (find-rename_object old_name new_name other obj left u' short free found'
                      ∙ ground (arith, find-remove_object new_name other objects u)))
        ]
      ]

call-Refines :
    (c : Call) (objects : List Object) (p : Pmm) → Proper c → Unique objects → Refines c objects p
call-Refines (creates memory name) objects p h u = create-Refines objects p u memory name h
call-Refines (unlinks name) objects p h u = unlink-Refines objects p u name
call-Refines (renames old_name new_name) objects p (h, different) u =
    rename-Refines objects p u old_name new_name h different

-- The calls in their order, on the list and on the map.
unfoldable pub run : List Call → List Object → Pmm → List Object × Pmm
run [] objects p = (objects, p)
run (c ∷ cs) objects p = run cs (call c objects p).0 (call c objects p).1

unfoldable pub description : List Call → (List ℕ → Option Object) → List ℕ → Option Object
description [] f = f
description (c ∷ cs) f = description cs (described c f)

abbrev pub AllProper : List Call → Type 0
AllProper [] = Unit
AllProper (c ∷ cs) = Proper c × AllProper cs

run_lem :
    (cs : List Call) (objects : List Object) (p : Pmm)
    → AllProper cs
    → Unique objects
    → Unique (run cs objects p).0
      × ((name : List ℕ) → lookup (run cs objects p).0 name ≡ description cs (lookup objects) name)
unfolding run description
run_lem [] objects p h u = (u, λ name. refl)
run_lem (c ∷ cs) objects p (h, hs) u =
    let r = call-Refines c objects p h u in
    let (u', rest) = run_lem cs (call c objects p).0 (call c objects p).1 hs r.unique in
    (u', λ name. rest name ∙ ap (λ f. description cs f name) (λ i other. r.same other i))

-- After any calls of shmfs_create, shmfs_unlink and shmfs_rename from no object on, where the names
-- that objects get fit and no file is renamed to itself, no two objects have the same name, and what
-- `shm_find_object` finds is what the calls describe.
pub run-description :
    (cs : List Call) (p : Pmm)
    → AllProper cs
    → Unique (run cs [] p).0
      × ((name : List ℕ)
          → shm_find_object name (run cs [] p).0 ≡ description cs (λ other. none) name)
unfolding shm_find_object
run-description cs p h = run_lem cs [] p h tt
