-- ===== src/Pmm/Init.antt =====
-- `pmm_init` of kernel/mm/pmm.c: the manager built from the E820 memory map.
--
-- The branch without __ETEROS_HOST_TEST__ is modelled. The map's `entry_count` is the length of the
-- list. `bits` and `counts` are what the memory of the two arrays held before. The linker's
-- `_kernel_start` and `_kernel_end` are arguments. An ASSERT that fails halts the machine (`none`);
-- the one that `pmm_bitmap` is 0x1A000 holds by the line above it.
use eter_os.Base.{
  ℕ, ◌+◌, ◌-◌, ◌*◌, ◌/◌, ◌%◌, Bool, true, ◌&&◌, ◌||◌, Option, none, some, List, [], ◌∷◌, ltb, leb,
  ◌==◌, if◌then◌else◌, add64, sub64, mul64, length,
}
use eter_os.Pmm.{Pmm, page_size, mark_region_used, mark_region_free}

-- `struct e820_entry`, without the extended attributes.
pub record E820Entry : Type 0 where
  pub base_addr : ℕ
  pub length : ℕ
  pub kind : ℕ

abbrev pub e820_usable : ℕ
e820_usable = 1

-- PAGE_ALIGN_UP on 64 bits.
abbrev pub page_align_up : ℕ → ℕ
page_align_up addr = add64 addr (page_size - 1) / page_size * page_size

-- The loop for the highest address of usable memory.
unfoldable pub highest_end : ℕ → List E820Entry → ℕ
highest_end total [] = total
highest_end total (e ∷ es) =
    let region_end = add64 e.base_addr e.length in
    highest_end (if e.kind == e820_usable && ltb total region_end then region_end else total) es

unfoldable pub detect_ram : List E820Entry → ℕ
unfolding highest_end
detect_ram map =
    let found =
      if length map == 0 || ltb 128 (length map) then 128 * 1024 * 1024 else highest_end 0 map in
    if found == 0 then 32 * 1024 * 1024 else found

-- The loop that frees the usable regions.
unfoldable pub free_usable : List E820Entry → Pmm → Pmm
free_usable [] p = p
free_usable (e ∷ es) p =
    free_usable es (if e.kind == e820_usable then mark_region_free e.base_addr e.length p else p)

abbrev pub bitmap_addr : ℕ
bitmap_addr = 0x1A000

unfoldable pub bitmap_bytes : ℕ → ℕ
bitmap_bytes total_pages = total_pages / 8 + (if total_pages % 8 == 0 then 0 else 1)

abbrev pub ref_counts_addr : ℕ → ℕ
ref_counts_addr total_pages = page_align_up (add64 bitmap_addr (bitmap_bytes total_pages))

-- All pages in use, with one reference each.
unfoldable pub all_used : (bits : ℕ → Bool) (counts : ℕ → ℕ) → ℕ → Pmm
unfolding bitmap_bytes
all_used bits counts total_ram =
    let total_pages = total_ram / page_size in
    record {
      bitmap = λ k. if ltb k (bitmap_bytes total_pages * 8) then true else bits k;
      ref_counts = λ k. if ltb k total_pages then 1 else counts k;
      total_ram = total_ram;
      used_ram = total_ram;
      total_pages = total_pages;
      last_free_idx = 0;
    }

-- Calls of `pmm_mark_region_used` in a row, each by base and size.
unfoldable pub mark_all : List (ℕ × ℕ) → Pmm → Pmm
mark_all [] p = p
mark_all ((base, size) ∷ rs) p = mark_all rs (mark_region_used base size p)

-- The critical regions: the first megabyte, the VGA text buffer, the kernel and the two arrays.
abbrev pub critical : (k_start k_end pages : ℕ) → List (ℕ × ℕ)
critical k_start k_end pages =
    (0, 0x100000)
    ∷ (0xB8000, 32000)
    ∷ (k_start, sub64 k_end k_start)
    ∷ (bitmap_addr, bitmap_bytes pages)
    ∷ (ref_counts_addr pages, mul64 pages 2)
    ∷ []

unfoldable pub reserve : (k_start k_end : ℕ) → Pmm → Pmm
reserve k_start k_end p = mark_all (critical k_start k_end p.total_pages) p

-- The rover starts behind the arrays.
unfoldable pub start_rover : Pmm → Pmm
start_rover p =
    let free_mem_start =
      page_align_up (add64 (ref_counts_addr p.total_pages) (mul64 p.total_pages 2)) in
    let idx = free_mem_start / page_size in
    record p { last_free_idx = if leb p.total_pages idx then 0 else idx }

unfoldable pub init :
    (bits : ℕ → Bool) (counts : ℕ → ℕ) (k_start k_end : ℕ) → List E820Entry → Option Pmm
unfolding reserve start_rover
init bits counts k_start k_end map =
    let total_ram = detect_ram map in
    let pages = total_ram / page_size in
    if leb 0x100000 k_start && leb (add64 bitmap_addr (bitmap_bytes pages)) (ref_counts_addr pages)
    then some
        (start_rover (reserve k_start k_end (free_usable map (all_used bits counts total_ram))))
    else none
