-- ===== src/Shm.antt =====
-- kernel/fs/shmfs.c: shared memory objects, their reads, writes and sizes.
--
-- An object is reached through the `impl` pointer of a node, and neither is NULL. `pages` holds the
-- physical addresses of the first `page_count` entries of the array, 0 for a page that could not be
-- allocated. `Ram` is the physical memory, which the kernel maps one to one. The lock of an object
-- makes each function one step.
pub mod Contents
pub mod Store
pub mod Write
pub mod Grow
pub mod Shrink
pub mod Resize
pub mod Directory
pub mod Node
mod Tests
use eter_os.Base.{
  ℕ, zero, suc, ◌+◌, ◌-◌, ◌*◌, ◌/◌, ◌%◌, ◌^◌, Bool, true, false, ◌&&◌, not, List, [], ◌∷◌, ◌++◌,
  length, get_or, take, drop, replicate, ltb, leb, ◌==◌, if◌then◌else◌, add32, sub32,
}
use eter_os.Pmm.{Pmm, page_size, free_page}
use eter_os.Bcache.{Bcache}
use eter_os.Reclaim.{alloc_page}

abbrev pub Ram : Type 0
Ram = ℕ → ℕ

pub record Object : Type 0 where
  pub name : List ℕ
  pub size : ℕ
  pub pages : List ℕ
  pub ref_count : ℕ
  pub prot_mask : ℕ
  pub is_pinned : Bool

-- `memcpy` from memory: the `n` bytes from `addr` on.
unfoldable pub load : Ram → (addr n : ℕ) → List ℕ
load ram addr zero = []
load ram addr (suc n) = ram addr ∷ load ram (addr + 1) n

-- `memcpy` into memory, of the `n` bytes from `buffer`.
unfoldable pub store : Ram → (addr n : ℕ) → (buffer : ℕ → ℕ) → Ram
store ram addr n buffer a = if leb addr a && ltb a (addr + n) then buffer (a - addr) else ram a

-- The address in the array, or 0, where the array ends or has no page.
unfoldable pub page_addr : List ℕ → ℕ → ℕ
page_addr pages page_idx = if ltb page_idx (length pages) then get_or pages page_idx 0 else 0

-- `to_copy`: the rest of the page, or of the request.
unfoldable pub chunk : (page_off done size : ℕ) → ℕ
chunk page_off done size =
    let to_copy = page_size - page_off in
    if ltb size (add32 done to_copy) then sub32 size done else to_copy

-- The loop of `shmfs_read`: the bytes from `read_bytes` on.
unfoldable pub read_loop : List ℕ → Ram → (offset size fuel read_bytes : ℕ) → List ℕ
unfolding load page_addr chunk
read_loop pages ram offset size zero read_bytes = []
read_loop pages ram offset size (suc fuel) read_bytes =
    let pos = add32 offset read_bytes in
    let page = page_addr pages (pos / page_size) in
    let to_copy = chunk (pos % page_size) read_bytes size in
    let rest = read_loop pages ram offset size fuel (add32 read_bytes to_copy) in
    let copied =
      if page == 0 then replicate to_copy 0 else load ram (page + pos % page_size) to_copy in
    if ltb read_bytes size then copied ++ rest else []

-- The bytes that are read. Every round copies one byte at least, so `size` rounds are enough.
unfoldable pub shmfs_read : Object → Ram → (offset size : ℕ) → List ℕ
unfolding read_loop
shmfs_read obj ram offset size =
    let size' = if ltb obj.size (add32 offset size) then obj.size - offset else size in
    if leb obj.size offset then [] else read_loop obj.pages ram offset size' size' 0

-- The loop of `shmfs_write`. The bytes of a page that is missing are dropped.
unfoldable pub write_loop :
    List ℕ → (buffer : ℕ → ℕ) → (offset size fuel written_bytes : ℕ) → Ram → Ram
unfolding store page_addr chunk
write_loop pages buffer offset size zero written_bytes ram = ram
write_loop pages buffer offset size (suc fuel) written_bytes ram =
    let pos = add32 offset written_bytes in
    let page = page_addr pages (pos / page_size) in
    let to_copy = chunk (pos % page_size) written_bytes size in
    let ram' =
      if page == 0
      then ram
      else store ram (page + pos % page_size) to_copy (λ k. buffer (written_bytes + k)) in
    let rest = write_loop pages buffer offset size fuel (add32 written_bytes to_copy) ram' in
    if ltb written_bytes size then rest else ram

-- The number of bytes that `shmfs_write` reports, and the memory.
unfoldable pub shmfs_write : Object → (buffer : ℕ → ℕ) → (offset size : ℕ) → Ram → ℕ × Ram
unfolding write_loop
shmfs_write obj buffer offset size ram =
    let size' = if ltb obj.size (add32 offset size) then obj.size - offset else size in
    if ltb obj.size (add32 offset size) && leb obj.size offset
    then (0, ram)
    else (size', write_loop obj.pages buffer offset size' size' 0 ram)

-- The frames, the block cache that gives way to them, and the memory.
pub record Machine : Type 0 where
  pub pmm : Pmm
  pub cache : Bcache
  pub ram : Ram

-- A page for the object, filled with zeros, or 0.
unfoldable pub new_page : (locked : Bool) → Machine → ℕ × Machine
unfolding store
new_page locked m =
    let (ptr, pmm, cache) = alloc_page locked m.pmm m.cache in
    (
      ptr,
      record {
        pmm = pmm;
        cache = cache;
        ram = if ptr == 0 then m.ram else store m.ram ptr page_size (λ k. 0);
      },
    )

-- The loop that grows the array by `count` pages.
unfoldable pub grow : (locked : Bool) → (count : ℕ) → List ℕ → Machine → List ℕ × Machine
unfolding new_page
grow locked zero pages m = (pages, m)
grow locked (suc count) pages m =
    let (ptr, m') = new_page locked m in grow locked count (pages ++ ptr ∷ []) m'

-- The loop that frees the pages behind the new end.
unfoldable pub free_pages : List ℕ → Pmm → Pmm
free_pages [] p = p
free_pages (page ∷ pages) p = free_pages pages (if page == 0 then p else (free_page page p).1)

-- `new_page_count`, in 32 bits.
unfoldable pub count_pages : (length : ℕ) → ℕ
count_pages length = add32 length (page_size - 1) / page_size

pub data Truncated : Type 0 where
  done no_memory : Truncated

-- `shmfs_truncate`. `array`: whether `kmalloc` finds memory for the larger array.
unfoldable pub shmfs_truncate :
    (locked array : Bool) → (length : ℕ) → Object → Machine → Truncated × Object × Machine
unfolding grow free_pages count_pages
shmfs_truncate locked array new_length obj m =
    let page_count = length obj.pages in
    let new_page_count = count_pages new_length in
    let (pages, m') = grow locked (new_page_count - page_count) obj.pages m in
    if ltb page_count new_page_count
    then if array
      then (done, record obj { size = new_length; pages = pages }, m')
      else (no_memory, obj, m)
    else (
      done,
      record obj { size = new_length; pages = take new_page_count obj.pages },
      record m { pmm = free_pages (drop new_page_count obj.pages) m.pmm },
    )
