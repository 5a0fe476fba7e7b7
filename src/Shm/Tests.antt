-- ===== src/Shm/Tests.antt =====
-- A shared memory object of one page, on a machine of four.
use eter_os.Base.{ℕ, ◌≡◌, refl, none, true, false, List, [], ◌∷◌, arith, ltb, if◌then◌else◌}
use eter_os.Pmm.{
  Pmm, alloc_page_impl, reset_rover, find_page, pass_one, pass_two, scan_words, first_clear,
  take_page,
}
use eter_os.Pmm.Accounting.{IsValid, count_free}
use eter_os.Bcache.{bcache_init}
use eter_os.Reclaim.{alloc_page}
use eter_os.Shm.{
  Ram, Object, Machine, shmfs_read, shmfs_write, shmfs_truncate, load, page_addr, chunk, read_loop,
  new_page, grow, count_pages,
}
use eter_os.Shm.Store.{Framed}
use eter_os.Shm.Grow.{Owns}
use eter_os.Shm.Directory.{
  shm_find_object, same_string, shmfs_create, shmfs_rename, shm_create_object, new_object,
  remove_object, rename_object,
}
use eter_os.Shm.Directory.Lookup.{Unique}
use eter_os.Shm.Directory.Names.{
  Call, creates, renames, unlinks, call, run, description, run-description,
}
use eter_os.Shm.Resize.{Truncates, shmfs_truncate-Truncates}

abbrev frames : Pmm
frames = record {
  bitmap = λ k. ltb k 2;
  ref_counts = λ k. 1;
  total_ram = 16384;
  used_ram = 8192;
  total_pages = 4;
  last_free_idx = 0;
}

-- The byte at an address is the address.
abbrev ram : Ram
ram = λ a. a

abbrev machine : Machine
machine = record { pmm = frames; cache = bcache_init; ram = ram }

abbrev object : Object
object = record {
  name = 97 ∷ [];
  size = 10;
  pages = 4096 ∷ [];
  ref_count = 1;
  prot_mask = 7;
  is_pinned = true;
}

-- A request of 5 bytes at 8 gets the last two.
short_read : shmfs_read object ram 8 5 ≡ 4104 ∷ 4105 ∷ []
unfolding shmfs_read read_loop page_addr chunk load
short_read = refl

short_write : (shmfs_write object (λ k. 7) 8 5 ram).0 ≡ 2
unfolding shmfs_write
short_write = refl

-- The object grows to two pages, and takes frame 2.
grown : (shmfs_truncate false true 5000 object machine).1.pages ≡ 4096 ∷ 8192 ∷ []
unfolding shmfs_truncate grow new_page count_pages alloc_page alloc_page_impl reset_rover find_page
    pass_one pass_two scan_words first_clear take_page
grown = refl

frames-IsValid : IsValid frames
unfolding count_free
frames-IsValid = omega arith

page_at : (i : ℕ) → page_addr (4096 ∷ []) i ≡ (if ltb i 1 then 4096 else 0)
unfolding page_addr
page_at i = ground arith

pages-Framed : Framed (4096 ∷ [])
pages-Framed = record {
  aligned = λ i. ground (arith, page_at i);
  distinct = λ i j h e. ground (arith, page_at i, page_at j, h, e);
}

object-Owns : Owns (4096 ∷ []) frames
object-Owns = record { framed = pages-Framed; used = λ i h. ground (arith, page_at i, h) }

shmfs_truncate-Truncates_example :
    Truncates 2 true 5000 object machine (shmfs_truncate false true 5000 object machine)
shmfs_truncate-Truncates_example =
    shmfs_truncate-Truncates false true 5000 object machine (omega arith) frames-IsValid refl
      object-Owns

-- The files a and b, of which a becomes c.
abbrev calls : List Call
calls =
    creates true (97 ∷ [])
    ∷ creates true (98 ∷ [])
    ∷ renames (97 ∷ []) (99 ∷ [])
    ∷ unlinks (98 ∷ [])
    ∷ []

-- A file that is renamed to itself is lost.
renamed_to_itself :
    shm_find_object
      (97 ∷ [])
      (run (creates true (97 ∷ []) ∷ renames (97 ∷ []) (97 ∷ []) ∷ []) [] frames).0
    ≡ none
unfolding shm_find_object run call shmfs_create shmfs_rename shm_create_object new_object
    same_string remove_object rename_object
renamed_to_itself = refl

run-description_example :
    Unique (run calls [] frames).0
    × ((name : List ℕ)
        → shm_find_object name (run calls [] frames).0 ≡ description calls (λ other. none) name)
unfolding same_string
run-description_example = run-description calls frames (
  (omega arith, omega arith),
  ((omega arith, omega arith), (((omega arith, omega arith), refl), (tt, tt))),
)
