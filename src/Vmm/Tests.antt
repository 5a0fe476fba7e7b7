-- ===== src/Vmm/Tests.antt =====
-- An address space of one 2 MiB page, on a machine of eight frames.
use mathlib.Core.Option.{some-injective}
use eter_os.Vmm.Fault.{vmm_handle_page_fault, vmm_resolve_cow, own, copy_page}
use eter_os.Base.{
  ◌%◌, ◌^◌, ℕ, ◌+◌, ◌*◌, ◌≡◌, ◌<◌, refl, ◌∙◌, sym, ap, ap₂, inl, inr, true, false, some, List, [],
  ◌∷◌, length, replicate, ◌==◌, ◌&&◌, arith, ltb, if◌then◌else◌, Option-cases,
}
use eter_os.Pmm.{
  get_ref_count, unref_page, free_page, Pmm, alloc_page_impl, reset_rover, find_page, pass_one,
  pass_two, scan_words, first_clear, take_page,
}
use eter_os.Pmm.Accounting.{IsValid, count_free}
use eter_os.Bcache.{bcache_init}
use eter_os.Reclaim.{alloc_page}
use eter_os.Vmm.{
  Flags, Entry, Vmm, no_entry, table_flags, translate, vmm_virt_to_phys, vmm_map_page,
  vmm_unmap_page, find_pt, get_next_table, take_frame, link, set_entry, split_entries,
  page_addr_mask,
}
use eter_os.Vmm.Tree.{node, next_of, IsTree, node_none, node_lem}
use eter_os.Vmm.Table.{some_not_none}
use eter_os.Vmm.Map.{Maps, Unmaps, vmm_map_page-Maps, vmm_unmap_page-Unmaps}

abbrev frames : Pmm
frames = record {
  bitmap = λ k. ltb k 5;
  ref_counts = λ k. 2;
  total_ram = 32768;
  used_ram = 20480;
  total_pages = 8;
  last_free_idx = 0;
}

abbrev large_flags : Flags
large_flags = record table_flags { huge = true }

-- Frames 1 to 3 are tables, and the last names the 2 MiB at 0.
abbrev large_tables : ℕ → ℕ → Entry
large_tables x i =
    if (x == 4096) && (i == 0)
    then record { addr = 8192; flags = table_flags }
    else if (x == 8192) && (i == 0)
    then record { addr = 12288; flags = table_flags }
    else if (x == 12288) && (i == 0)
    then record { addr = 0; flags = large_flags }
    else no_entry

abbrev space : Vmm
space = record {
  pmm = frames;
  cache = bcache_init;
  tables = large_tables;
  data_at = λ x i. 0;
  pml4 = 4096;
}

frames-IsValid : IsValid frames
unfolding count_free
frames-IsValid = omega arith

next_lem : (x i y : ℕ) → next_of large_tables x i ≡ some y → (i ≡ 0) × (y ≡ x + 4096) × (x < 9000)
unfolding next_of
next_lem x i y h = ground (arith, h)

below_large : (x i : ℕ) → x < 12288 → (large_tables x i).flags.huge ≡ false
below_large x i h = ground (arith, h)

large_at : (x i : ℕ) → (large_tables x i).flags.huge ≡ true → (large_tables x i).addr % 2 ^ 21 ≡ 0
large_at x i h = ground (arith, h)

-- The only paths are those of zeros.
node_zeros :
    (p : List ℕ) (t : ℕ)
    → node large_tables 4096 p ≡ some t
    → (p ≡ replicate (length p) 0) × (t ≡ 4096 + length p * 4096) × (t < 13096)
unfolding node
node_zeros [] t h = let e = some-injective 4096 t h in (refl, sym e ∙ omega arith, omega (arith, e))
node_zeros (i ∷ p) t h = elim (Option-cases (node large_tables 4096 p)) [
  | inl gone ↦ absurd (some_not_none h (node_none large_tables 4096 p i gone))
  | inr (x, at) ↦
      let (zeros, place, low) = node_zeros p x at in
      let (first, here, bound) = next_lem x i t (sym (node_lem large_tables 4096 p i x at) ∙ h) in
      (ap₂ (λ a b. a ∷ b) first zeros, omega (arith, here, place), omega (arith, here, bound))
]

space-IsTree : IsTree space
space-IsTree = record {
  valid = frames-IsValid;
  zero_used = refl;
  used = λ p t short h.
      (let (zeros, place, low) = node_zeros p t h in
        (ground (arith, place, low), omega (arith, place)));
  distinct = λ p q t short short' h h'.
      (let (zeros, place, low) = node_zeros p t h in
        let (zeros', place', low') = node_zeros q t h' in
        let size : length p ≡ length q = omega (arith, place, place') in
        zeros ∙ ap (λ n. replicate n 0) size ∙ sym zeros');
  small_above = λ p t i short h. below_large t i (omega (arith, (node_zeros p t h).1, short));
  large_aligned = λ p t i size h large. large_at t i large;
}

vmm_map_page-Maps_example :
    Maps space 28672 20485 table_flags (vmm_map_page false 28672 20485 table_flags space)
vmm_map_page-Maps_example = vmm_map_page-Maps false 28672 20485 table_flags space-IsTree

vmm_unmap_page-Unmaps_example : Unmaps space 20485 (vmm_unmap_page false 20485 space)
vmm_unmap_page-Unmaps_example = vmm_unmap_page-Unmaps false 20485 space-IsTree

-- The 2 MiB page is split when a page in it is mapped elsewhere.
mapped : vmm_virt_to_phys 20490 (vmm_map_page false 28672 20485 table_flags space).1 ≡ 28682
unfolding vmm_virt_to_phys translate vmm_map_page find_pt get_next_table take_frame link set_entry
    split_entries page_addr_mask alloc_page alloc_page_impl find_page pass_one pass_two scan_words
    first_clear reset_rover take_page
mapped = refl

beside : vmm_virt_to_phys 24576 (vmm_map_page false 28672 20485 table_flags space).1 ≡ 24576
unfolding vmm_virt_to_phys translate vmm_map_page find_pt get_next_table take_frame link set_entry
    split_entries page_addr_mask alloc_page alloc_page_impl find_page pass_one pass_two scan_words
    first_clear reset_rover take_page
beside = refl

unmapped : vmm_virt_to_phys 20490 (vmm_unmap_page false 20485 space) ≡ 0
unfolding vmm_virt_to_phys translate vmm_unmap_page find_pt get_next_table take_frame link set_entry
    split_entries page_addr_mask alloc_page alloc_page_impl find_page pass_one pass_two scan_words
    first_clear reset_rover take_page
unmapped = refl

-- A page that is shared on write, with frame 4.
abbrev shared : Vmm
shared = (vmm_map_page false 16384 20485 (record table_flags { write = false; cow = true }) space).1

-- The program gets a frame of its own, frame 6.
resolved : vmm_virt_to_phys 20490 (vmm_handle_page_fault false 20485 7 shared).1 ≡ 24586
unfolding vmm_virt_to_phys translate vmm_handle_page_fault vmm_resolve_cow own copy_page
    get_ref_count unref_page free_page vmm_map_page find_pt get_next_table take_frame link set_entry
    split_entries page_addr_mask alloc_page alloc_page_impl find_page pass_one pass_two scan_words
    first_clear reset_rover take_page
resolved = refl
