-- ===== src/Vmm.antt =====
-- kernel/mm/vmm.c: the page tables of an address space.
--
-- A page table is reached by the physical address of its frame, which the kernel maps one to one. An
-- entry is a record of its fields: the address bits of PAGE_ADDR_MASK, and the flags; its bits 52 to
-- 59 are clear. `data_at` is the contents of the frames that hold no table. The TLB, and with it its
-- flushes, is left out, and so are the messages. `locked` is the argument of `pmm_alloc_page`.
pub mod Fault
pub mod Clone
pub mod User
pub mod Tree
pub mod Walk
pub mod Table
pub mod Linked
pub mod Leaf
pub mod Take
pub mod Next
pub mod Find
pub mod Address
pub mod Map
mod Tests
use eter_os.Base.{
  ℕ, zero, suc, ◌+◌, ◌-◌, ◌*◌, ◌/◌, ◌%◌, ◌^◌, Bool, true, false, not, ◌&&◌, ◌||◌, Option, none,
  some, ◌==◌, ltb, leb, if◌then◌else◌, update,
}
use eter_os.Pmm.{Pmm, page_size, get_ref_count, unref_page}
use eter_os.Bcache.{Bcache}
use eter_os.Reclaim.{alloc_page}

-- The flags of an entry; `others` is its other bits.
pub record Flags : Type 0 where
  pub present : Bool
  pub write : Bool
  pub user : Bool
  pub huge : Bool
  pub cow : Bool
  pub others : ℕ

-- `pt_entry_t`.
pub record Entry : Type 0 where
  pub addr : ℕ
  pub flags : Flags

abbrev pub no_flags : Flags
no_flags = record {
  present = false;
  write = false;
  user = false;
  huge = false;
  cow = false;
  others = 0;
}

-- An entry of 0.
abbrev pub no_entry : Entry
no_entry = record { addr = 0; flags = no_flags }

-- PAGE_PRESENT | PAGE_WRITE | PAGE_USER.
abbrev pub table_flags : Flags
table_flags = record no_flags { present = true; write = true; user = true }

-- PAGE_ADDR_MASK.
unfoldable pub page_addr_mask : ℕ → ℕ
page_addr_mask addr = addr / page_size * page_size % 2 ^ 52

pub record Vmm : Type 0 where
  pub pmm : Pmm
  pub cache : Bcache
  pub tables : ℕ → ℕ → Entry
  pub data_at : ℕ → ℕ → ℕ
  -- The table that CR3 holds.
  pub pml4 : ℕ

-- The indices of an address, PT_INDEX for level 1 to PML4_INDEX for level 4.
abbrev pub pt_index : ℕ → ℕ
pt_index addr = addr / 2 ^ 12 % 512

abbrev pub pd_index : ℕ → ℕ
pd_index addr = addr / 2 ^ 21 % 512

abbrev pub pdpt_index : ℕ → ℕ
pdpt_index addr = addr / 2 ^ 30 % 512

abbrev pub pml4_index : ℕ → ℕ
pml4_index addr = addr / 2 ^ 39 % 512

unfoldable pub set_entry : (table index : ℕ) → Entry → Vmm → Vmm
set_entry table index e s = record s {
  tables = update s.tables table (update (s.tables table) index e);
}

-- A frame from `pmm_alloc_page`, and 0 for none.
unfoldable pub take_frame : (locked : Bool) → Vmm → ℕ × Vmm
take_frame locked s =
    let (ptr, pmm, cache) = alloc_page locked s.pmm s.cache in
    (ptr, record s { pmm = pmm; cache = cache })

-- The 4 KiB entries for the region of a 2 MiB one.
unfoldable pub split_entries : Entry → ℕ → Entry
split_entries e i = record {
  addr = e.addr + i * page_size;
  flags = record e.flags { huge = false };
}

-- A frame becomes a table with these entries, and `table` refers to it.
unfoldable pub link : (table index frame : ℕ) → (ℕ → Entry) → Vmm → Vmm
unfolding set_entry
link table index frame entries s =
    set_entry table index (record { addr = frame; flags = table_flags })
      (record s { tables = update s.tables frame entries })

-- `get_next_table`: the table, or none for NULL.
unfoldable pub get_next_table : (locked alloc : Bool) → (table index : ℕ) → Vmm → Option ℕ × Vmm
unfolding take_frame link split_entries
get_next_table locked alloc table index s =
    let e = s.tables table index in
    let (frame, s') = take_frame locked s in
    if e.flags.present
    then (if e.flags.huge
        then (if frame == 0
            then (none, s')
            else (some frame, link table index frame (split_entries e) s'))
        else (some e.addr, s))
    else if not alloc
    then (none, s)
    else if frame == 0
    then (none, s')
    else (some frame, link table index frame (λ i. no_entry) s')

-- The way down the three tables above the last one, which all functions of the kernel take.
unfoldable pub find_pt : (locked alloc : Bool) → (virt_addr : ℕ) → Vmm → Option ℕ × Vmm
unfolding get_next_table
find_pt locked alloc virt_addr s =
    let (pdpt, s₁) = get_next_table locked alloc s.pml4 (pml4_index virt_addr) s in
    elim pdpt [
      | none ↦ (none, s₁)
      | some pdpt ↦
          let (pd, s₂) = get_next_table locked alloc pdpt (pdpt_index virt_addr) s₁ in
          elim pd [
            | none ↦ (none, s₂)
            | some pd ↦ get_next_table locked alloc pd (pd_index virt_addr) s₂
          ]
    ]

-- `vmm_map_page`, and whether it returns 0.
unfoldable pub vmm_map_page : (locked : Bool) → (phys_addr virt_addr : ℕ) → Flags → Vmm → Bool × Vmm
unfolding find_pt set_entry page_addr_mask
vmm_map_page locked phys_addr virt_addr flags s =
    let (pt, s') = find_pt locked true virt_addr s in
    elim pt [
      | none ↦ (false, s')
      | some pt ↦ (
        true,
        set_entry pt (pt_index virt_addr)
            (record { addr = page_addr_mask phys_addr; flags = flags }) s',
      )
    ]

unfoldable pub vmm_unmap_page : (locked : Bool) → (virt_addr : ℕ) → Vmm → Vmm
unfolding find_pt set_entry
vmm_unmap_page locked virt_addr s =
    let (pt, s') = find_pt locked false virt_addr s in
    elim pt [
      | none ↦ s'
      | some pt ↦
          if (s'.tables pt (pt_index virt_addr)).flags.present
          then set_entry pt (pt_index virt_addr) no_entry s'
          else s'
    ]

-- The walk of `vmm_virt_to_phys` through the tables.
unfoldable pub translate : (ℕ → ℕ → Entry) → (pml4 virt_addr : ℕ) → ℕ
translate tables pml4 virt_addr =
    let e₄ = tables pml4 (pml4_index virt_addr) in
    let e₃ = tables e₄.addr (pdpt_index virt_addr) in
    let e₂ = tables e₃.addr (pd_index virt_addr) in
    let e₁ = tables e₂.addr (pt_index virt_addr) in
    if not e₄.flags.present
    then 0
    else if not e₃.flags.present
    then 0
    else if e₃.flags.huge
    then e₃.addr / 2 ^ 30 * 2 ^ 30 + virt_addr % 2 ^ 30
    else if not e₂.flags.present
    then 0
    else if e₂.flags.huge
    then e₂.addr / 2 ^ 21 * 2 ^ 21 + virt_addr % 2 ^ 21
    else if not e₁.flags.present
    then 0
    else e₁.addr + virt_addr % 2 ^ 12

unfoldable pub vmm_virt_to_phys : (virt_addr : ℕ) → Vmm → ℕ
unfolding translate
vmm_virt_to_phys virt_addr s = if virt_addr == 0 then 0 else translate s.tables s.pml4 virt_addr

-- The byte of a program at an address that is mapped.
unfoldable pub load_user : Vmm → ℕ → ℕ
unfolding translate
load_user s v = let off = v % page_size in s.data_at (translate s.tables s.pml4 v - off) off
