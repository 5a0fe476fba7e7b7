-- ===== src/Heap/Tests.antt =====
-- A small heap, and allocations in it.
use eter_os.Base.{◌≡◌, refl, inl, true, false, List, [], ◌∷◌}
use eter_os.Pmm.{Pmm}
use eter_os.Pmm.Init.{E820Entry}
use eter_os.Heap.{
  Block, Heap, align, get_bucket_index, locate, chain, first_fit, find_fit, split, grant, kmalloc,
  kfree, double_free, merge_next, merge_prev, release, unlink, remove_from_free_list,
  add_to_free_list, add_all,
}
use eter_os.Heap.Valid.{IsValid}
use eter_os.Heap.Search.{Among}
use eter_os.Heap.Release.{Frees, kfree-Frees}
use eter_os.Heap.Api.{
  best_region, candidate_addr, heap_region, initial_block, initial_heap, mm_init,
}
use eter_os.Heap.Reach.{Reach, here, next, kmallocs, kfrees, mm_init-Reach}
use eter_os.Heap.Drained.{drained}

abbrev pages : Pmm
pages = record {
  bitmap = λ k. true;
  ref_counts = λ k. 1;
  total_ram = 0;
  used_ram = 0;
  total_pages = 0;
  last_free_idx = 0;
}

abbrev map : List E820Entry
map = record { base_addr = 0x100000; length = 0x800000; kind = 1 } ∷ []

-- 6 MiB from 2 MiB on.
abbrev fresh : Heap
fresh = (mm_init 0x1FFFFF map pages).0

abbrev one : Heap
one = (kmalloc 100 fresh).1

region : heap_region 0x1FFFFF map ≡ (0x200000, 0x540000)
unfolding heap_region best_region candidate_addr
region = refl

-- A block of 104 bytes, 100 for the caller and 4 for the footer.
first_ptr : (kmalloc 100 fresh).0 ≡ 0x200020
unfolding kmalloc align get_bucket_index find_fit first_fit locate mm_init heap_region best_region
    candidate_addr initial_heap initial_block add_to_free_list
first_ptr = refl

first_used : one.memory_used ≡ 136
unfolding kmalloc align get_bucket_index find_fit first_fit locate grant split mm_init heap_region
    best_region candidate_addr initial_heap initial_block add_to_free_list
first_used = refl

freed_twice : (kfree true 0x200020 (kfree true 0x200020 one).1).0 ≡ double_free
unfolding kfree release merge_next merge_prev chain remove_from_free_list unlink add_all kmalloc
    align get_bucket_index find_fit first_fit locate grant split mm_init heap_region best_region
    candidate_addr initial_heap initial_block add_to_free_list
freed_twice = refl

drained_used : (kfree true 0x200020 one).1.memory_used ≡ 0
unfolding kfree release merge_next merge_prev chain remove_from_free_list unlink add_all kmalloc
    align get_bucket_index find_fit first_fit locate grant split mm_init heap_region best_region
    candidate_addr initial_heap initial_block add_to_free_list
drained_used = refl

one-Reach : Reach fresh one
one-Reach = next here (kmallocs 100)

mm_init-Reach_example : IsValid one
mm_init-Reach_example = mm_init-Reach 0x1FFFFF map pages one-Reach

abbrev block : Block
block = record { addr = 0x200000; size = 104; is_free = false }

block-Among : Among block one.blocks
unfolding kmalloc align get_bucket_index find_fit first_fit locate grant split chain mm_init
    heap_region best_region candidate_addr initial_heap initial_block add_to_free_list
block-Among = inl refl

kfree-Frees_example : Frees block one (kfree true 0x200020 one)
kfree-Frees_example = kfree-Frees block mm_init-Reach_example block-Among refl

drained_example : (kfree true 0x200020 one).1.blocks ≡ fresh.blocks
drained_example = drained 0x1FFFFF map pages (next one-Reach (kfrees true 0x200020)) drained_used
