-- ===== src/Pmm/Tests.antt =====
-- Small machines on which kernel/mm/pmm.c runs, and the theorems at them.
use eter_os.Base.{
  ℕ, ◌+◌, ◌*◌, ◌/◌, ◌≤◌, ◌<◌, ◌≡◌, refl, ◌≢◌, ◌⊎◌, inl, ◌↔◌, true, false, none, some, List, [], ◌∷◌,
  arith, ◌==◌,
}
use eter_os.Pmm.{
  Pmm, page_size, done, invalid_unref, alloc_page_impl, free_page, mark_region_used, get_free_ram,
  find_page, take_page, reset_rover,
}
use eter_os.Pmm.Accounting.{IsValid, count_free}
use eter_os.Pmm.Alloc.{Takes, free_page-alloc_page_impl}
use eter_os.Pmm.Mark.{mark_region_used_exact}
use eter_os.Pmm.Init.{
  E820Entry, init, detect_ram, ref_counts_addr, start_rover, reserve, free_usable, all_used,
  bitmap_bytes,
}
use eter_os.Pmm.Reserved.{init_overruns_kernel}
use eter_os.Pmm.Reach.{here, next, allocates, free_ram-Reach}

-- Three pages, of which page 0 is in use.
abbrev small : Pmm
small = record {
  bitmap = λ k. k == 0;
  ref_counts = λ k. 1;
  total_ram = 12288;
  used_ram = 4096;
  total_pages = 3;
  last_free_idx = 2;
}

small-IsValid : IsValid small
unfolding count_free
small-IsValid = omega arith

alloc_twice :
    ((alloc_page_impl small).0 ≡ 8192) × ((alloc_page_impl (alloc_page_impl small).1).0 ≡ 4096)
unfolding alloc_page_impl find_page reset_rover take_page
alloc_twice = (refl, refl)

free_twice : (free_page 4096 (free_page 4096 small).1).0 ≡ invalid_unref
unfolding free_page
free_twice = refl

small-Takes : Takes small (alloc_page_impl small) 2
unfolding alloc_page_impl find_page reset_rover take_page
small-Takes = record {
  next_fit = record {
    inside = omega arith;
    free = refl;
    first = inl (omega arith, λ k a b. absurd (omega arith));
  };
  addr = refl;
  state = refl;
}

free_page-alloc_page_impl_example :
    let (addr, q) = alloc_page_impl small in
    let (r, s) = free_page addr q in
    (r ≡ done)
    × ((k : ℕ) → s.bitmap k ≡ small.bitmap k)
    × (s.used_ram ≡ 4096)
    × (s.ref_counts 2 ≡ 0)
free_page-alloc_page_impl_example = free_page-alloc_page_impl small-IsValid small-Takes

mark_region_used_exact_example :
    ((mark_region_used 4096 100 small).bitmap 1 ≡ true)
    ↔ ((small.bitmap 1 ≡ true) ⊎ ((1 ≤ 1) × (1 < 2)))
mark_region_used_exact_example = mark_region_used_exact 4096 100 small 1 (omega arith) (omega arith)

-- Two bytes on both sides of a frame's end.
-- 512 KB of memory above the first megabyte, the kernel in its first two frames.
abbrev e820 : List E820Entry
e820 = record { base_addr = 0x100000; length = 0x80000; kind = 1 } ∷ []

abbrev machine : Pmm
machine =
    start_rover
      (reserve 0x100000 0x102000 (free_usable e820 (all_used (λ k. false) (λ k. 0) 0x180000)))

machine-init : init (λ k. false) (λ k. 0) 0x100000 0x102000 e820 ≡ some machine
unfolding init detect_ram bitmap_bytes
machine-init = refl

free_ram-Reach_example :
    get_free_ram (alloc_page_impl machine).1
    ≡ page_size
      * count_free (alloc_page_impl machine).1.bitmap (alloc_page_impl machine).1.total_pages
free_ram-Reach_example =
    free_ram-Reach (λ k. false) (λ k. 0) 0x100000 0x102000 e820 machine-init (next here allocates)

abbrev large : List E820Entry
large = record { base_addr = 0x100000; length = 0xFFF00000; kind = 1 } ∷ []

init_overruns_kernel_example :
    let pages = detect_ram large / page_size in
    (init (λ k. false) (λ k. 0) 0x100000 0x200000 large ≢ none)
    × (0x100000 < ref_counts_addr pages + pages * 2)
unfolding detect_ram
init_overruns_kernel_example =
    init_overruns_kernel (λ k. false) (λ k. 0) 0x100000 0x200000 large (omega arith) (omega arith)
