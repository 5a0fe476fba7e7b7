-- ===== src/Heap/Api.antt =====
-- The other functions of kernel/mm/heap.c: `mm_init`, `kcalloc` and `krealloc`.
--
-- The messages of `mm_init` and the bytes that `kcalloc` and `krealloc` write into a block are left
-- out.
use eter_os.Base.{
  Bool, ℕ, ◌+◌, ◌-◌, ◌*◌, ◌/◌, ◌^◌, true, ◌&&◌, Option, none, some, List, [], ◌∷◌, ltb, leb, ◌==◌,
  if◌then◌else◌, add64, min, max,
}
use eter_os.Pmm.{Pmm, mark_region_used}
use eter_os.Pmm.Init.{E820Entry, e820_usable, page_align_up}
use eter_os.Heap.{Block, Heap, header_size, locate, kmalloc, kfree, add_to_free_list}

-- MAX_HEAP_SIZE.
abbrev pub max_heap_size : ℕ
max_heap_size = 96 * 1024 * 1024

-- The loop over the memory map: the start and the size of the heap.
unfoldable pub best_region : (candidate : ℕ) → List E820Entry → Option (ℕ × ℕ)
best_region candidate [] = none
best_region candidate (e ∷ es) =
    let later = best_region candidate es in
    let region_end = min (add64 e.base_addr e.length) (2 ^ 32) in
    let region_start = max (page_align_up e.base_addr) candidate in
    if e.kind == e820_usable && leb (region_start + 1024 * 1024) region_end
    then some (region_start, min ((region_end - region_start) * 3 / 4) max_heap_size)
    else later

-- The page behind the kernel, at 1 MiB or above.
unfoldable pub candidate_addr : (kernel_end : ℕ) → ℕ
candidate_addr kernel_end = max (page_align_up kernel_end) 0x100000

-- The region, or the fallback, where no map is given or none of its regions will do.
unfoldable pub heap_region : (kernel_end : ℕ) → List E820Entry → ℕ × ℕ
unfolding best_region candidate_addr
heap_region kernel_end map =
    let candidate = candidate_addr kernel_end in
    elim (best_region candidate map) [
      | none ↦ (page_align_up (max 0x400000 candidate), 8 * 1024 * 1024)
      | some region ↦ region
    ]

-- The heap that starts as one free block.
unfoldable pub initial_block : (start size : ℕ) → Block
initial_block start size = record { addr = start; size = size - header_size; is_free = true }

unfoldable pub initial_heap : (start size : ℕ) → Heap
unfolding initial_block add_to_free_list
initial_heap start size = record {
  heap_start = start;
  blocks = initial_block start size ∷ [];
  free_buckets = add_to_free_list (initial_block start size) (λ bucket. []);
  memory_used = 0;
  memory_total = size;
}

unfoldable pub mm_init : (kernel_end : ℕ) → List E820Entry → Pmm → Heap × Pmm
unfolding heap_region initial_heap
mm_init kernel_end map p =
    let (start, size) = heap_region kernel_end map in
    (initial_heap start size, mark_region_used start size p)

unfoldable pub kcalloc : (num size : ℕ) → Heap → ℕ × Heap
kcalloc num size h =
    if ltb 0 num && ltb ((2 ^ 64 - 1) / num) size then (0, h) else kmalloc (num * size) h

unfoldable pub krealloc : (footer : Bool) → (ptr size : ℕ) → Heap → ℕ × Heap
unfolding locate
krealloc footer ptr size h =
    if ptr == 0
    then kmalloc size h
    else if size == 0
    then (0, (kfree footer ptr h).1)
    else elim (locate (ptr - header_size) [] h.blocks) [
      | none ↦ (0, h)
      | some p ↦
          if leb size p.block.size
          then (ptr, h)
          else if (kmalloc size h).0 == 0
          then (0, (kmalloc size h).1)
          else ((kmalloc size h).0, (kfree footer ptr (kmalloc size h).1).1)
    ]
