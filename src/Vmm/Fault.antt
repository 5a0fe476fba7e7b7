-- ===== src/Vmm/Fault.antt =====
-- The copy on write of kernel/mm/vmm.c.
pub mod Copy
pub mod Keep
pub mod Fresh
pub mod Resolve
use eter_os.Base.{
  ℕ, ◌/◌, ◌%◌, ◌^◌, ◌-◌, Bool, true, false, not, ◌&&◌, Option, none, some, ◌==◌, if◌then◌else◌,
  update,
}
use eter_os.Pmm.{page_size, get_ref_count, unref_page}
use eter_os.Vmm.{Flags, Entry, Vmm, take_frame, set_entry, find_pt, pt_index, translate}

-- The entry after the fault: writable, and no longer shared.
unfoldable pub own : (addr : ℕ) → Flags → Entry
own addr flags = record { addr = addr; flags = record flags { cow = false; write = true } }

-- `memcpy` of a whole frame.
unfoldable pub copy_page : (to from : ℕ) → Vmm → Vmm
copy_page to from s = record s { data_at = update s.data_at to (s.data_at from) }

-- `vmm_resolve_cow`, and whether it returns 1.
unfoldable pub vmm_resolve_cow : (locked : Bool) → (pt pt_idx : ℕ) → Vmm → Bool × Vmm
unfolding take_frame set_entry own copy_page
vmm_resolve_cow locked pt pt_idx s =
    let e = s.tables pt pt_idx in
    let (new_phys, s₁) = take_frame locked s in
    let s₂ = set_entry pt pt_idx (own new_phys e.flags) (copy_page new_phys e.addr s₁) in
    if not e.flags.cow
    then (false, s)
    else if get_ref_count e.addr s.pmm == 1
    then (true, set_entry pt pt_idx (own e.addr e.flags) s)
    else if new_phys == 0
    then (false, s₁)
    else (true, record s₂ { pmm = (unref_page e.addr s₂.pmm).1 })

-- `vmm_handle_page_fault`.
unfoldable pub vmm_handle_page_fault : (locked : Bool) → (addr error_code : ℕ) → Vmm → Bool × Vmm
unfolding find_pt vmm_resolve_cow
vmm_handle_page_fault locked addr error_code s =
    let present = error_code % 2 == 1 in
    let write = error_code / 2 % 2 == 1 in
    let user = error_code / 4 % 2 == 1 in
    let (pt, s') = find_pt locked false addr s in
    if present && write && user
    then elim pt [ none ↦ (false, s') | some pt ↦ vmm_resolve_cow locked pt (pt_index addr) s' ]
    else (false, s)
