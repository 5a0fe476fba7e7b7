-- ===== src/Shm/Directory.antt =====
-- The names of kernel/fs/shmfs.c: shmfs_create, shmfs_unlink, shmfs_rename and shmfs_readdir.
--
-- The list that starts at `shm_objects` is a list of objects. No node is open on an object that is
-- freed. `strlcpy` is the one of kernel/string.c.
pub mod Lookup
pub mod Distinct
pub mod Names
use eter_os.Base.{
  ℕ, zero, suc, ◌+◌, Bool, true, false, ◌&&◌, Option, none, some, List, [], ◌∷◌, ◌==◌,
  if◌then◌else◌, length,
}
use eter_os.Pmm.{Pmm}
use eter_os.Vfs.{strlcpy}
use eter_os.Shm.{Object, free_pages}

-- `strcmp(s1, s2) == 0`.
unfoldable pub same_string : (s1 s2 : List ℕ) → Bool
same_string [] [] = true
same_string [] (d ∷ s2) = false
same_string (c ∷ s1) [] = false
same_string (c ∷ s1) (d ∷ s2) = let rest = same_string s1 s2 in if c == d then rest else false

unfoldable pub shm_find_object : (name : List ℕ) → List Object → Option Object
unfolding same_string
shm_find_object name [] = none
shm_find_object name (curr ∷ rest) =
    let later = shm_find_object name rest in if same_string curr.name name then some curr else later

-- The size of the array for the name.
abbrev pub name_size : ℕ
name_size = 128

-- The object that `shm_create_object` fills in.
unfoldable pub new_object : (name : List ℕ) → Object
unfolding strlcpy
new_object name = record {
  name = strlcpy name name_size;
  size = 0;
  pages = [];
  ref_count = 1;
  prot_mask = 7;
  is_pinned = true;
}

-- `shm_create_object` where `kmalloc` finds memory: one without a name stays off the list.
unfoldable pub shm_create_object : (name : List ℕ) → List Object → Object × List Object
unfolding new_object
shm_create_object [] objects = (new_object [], objects)
shm_create_object (c ∷ name) objects = (new_object (c ∷ name), new_object (c ∷ name) ∷ objects)

-- The list without the object that `shm_find_object` finds.
unfoldable pub remove_object : (name : List ℕ) → List Object → List Object
unfolding same_string
remove_object name [] = []
remove_object name (curr ∷ rest) =
    let later = remove_object name rest in if same_string curr.name name then rest else curr ∷ later

pub data Status : Type 0 where
  ok invalid no_memory : Status

-- `memory`: whether `kmalloc` finds memory for the object.
unfoldable pub shmfs_create : (memory : Bool) → (name : List ℕ) → List Object → Status × List Object
unfolding shm_find_object shm_create_object
shmfs_create memory name objects = elim (shm_find_object name objects) [
  | none ↦ if memory then (ok, (shm_create_object name objects).1) else (no_memory, objects)
  | some obj ↦ (ok, objects)
]

-- The object's pages are freed at once.
unfoldable pub shmfs_unlink : (name : List ℕ) → List Object → Pmm → Status × List Object × Pmm
unfolding shm_find_object remove_object free_pages
shmfs_unlink name objects p = elim (shm_find_object name objects) [
  | none ↦ (invalid, objects, p)
  | some obj ↦ (ok, remove_object name objects, free_pages obj.pages p)
]

-- The new name for the object that `shm_find_object` finds.
unfoldable pub rename_object : (old_name new_name : List ℕ) → List Object → List Object
unfolding same_string strlcpy
rename_object old_name new_name [] = []
rename_object old_name new_name (curr ∷ rest) =
    let later = rename_object old_name new_name rest in
    if same_string curr.name old_name
    then record curr { name = strlcpy new_name name_size } ∷ rest
    else curr ∷ later

-- The object of the new name leaves the list first, and is freed where nothing refers to it.
unfoldable pub shmfs_rename :
    (old_name new_name : List ℕ) → List Object → Pmm → Status × List Object × Pmm
unfolding shm_find_object remove_object rename_object free_pages
shmfs_rename old_name new_name objects p = elim (shm_find_object old_name objects) [
  | none ↦ (invalid, objects, p)
  | some obj ↦ elim (shm_find_object new_name objects) [
    | none ↦ (ok, rename_object old_name new_name objects, p)
    | some existing ↦ (
      ok,
      rename_object old_name new_name (remove_object new_name objects),
      if existing.ref_count == 0 then free_pages existing.pages p else p,
    )
  ]
]

-- The name and the inode of entry `index`, or `none` at the end.
unfoldable pub shmfs_readdir : (index : ℕ) → List Object → Option (List ℕ × ℕ)
shmfs_readdir index objects = go index objects
  where
    go : ℕ → List Object → Option (List ℕ × ℕ)
    go i [] = none
    go zero (curr ∷ rest) = some (curr.name, index + 1)
    go (suc i) (curr ∷ rest) = go i rest
