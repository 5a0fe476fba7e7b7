-- ===== src/Vmm/Clone.antt =====
-- The copy of an address space in kernel/mm/vmm.c.
pub mod Kept
pub mod Copy
mod Tests
use eter_os.Base.{
  ℕ, zero, suc, ◌+◌, ◌%◌, ◌^◌, Bool, true, false, not, ◌&&◌, ◌||◌, ◌==◌, ltb, if◌then◌else◌, update,
}
use eter_os.Pmm.{ref_page}
use eter_os.Vmm.{Flags, Entry, Vmm, no_entry, take_frame, set_entry}
use eter_os.Vmm.Fault.{copy_page}

-- `memset` of a new table.
unfoldable pub clear_table : ℕ → Vmm → Vmm
clear_table n s = record s { tables = update s.tables n (λ i. no_entry) }

-- The flags in the lowest 12 bits of an entry.
unfoldable pub low_flags : Flags → Flags
low_flags flags = record flags { others = flags.others % 2 ^ 12 }

-- The page is shared: both entries lose the right to write, and the frame gets a reference.
unfoldable pub share_page : (dest src i : ℕ) → Vmm → Vmm
unfolding set_entry
share_page dest src i s =
    let e = s.tables src i in
    let shared = record e { flags = record e.flags { cow = true; write = false } } in
    let s' = set_entry dest i shared (set_entry src i shared s) in
    record s' { pmm = ref_page e.addr s'.pmm }

-- A page with a frame of its own, if there is one.
unfoldable pub deep_copy : (locked : Bool) → (dest src i : ℕ) → Vmm → Vmm
unfolding take_frame copy_page set_entry
deep_copy locked dest src i s =
    let e = s.tables src i in
    let (new_page, s') = take_frame locked s in
    if new_page == 0
    then s'
    else set_entry dest i (record { addr = new_page; flags = e.flags })
        (copy_page new_page e.addr s')

-- An entry of level 1.
unfoldable pub clone_page : (locked cow : Bool) → (dest src i : ℕ) → Vmm → Vmm
unfolding share_page deep_copy set_entry
clone_page locked cow dest src i s =
    let e = s.tables src i in
    if not e.flags.user
    then set_entry dest i e s
    else if cow
    then share_page dest src i s
    else deep_copy locked dest src i s

-- The loop of `clone_pt_recursive`, with `child` for the call on a table of the next level.
unfoldable pub clone_loop :
    (locked cow : Bool)
    → (child : (dest src : ℕ) → Vmm → Vmm) → (level left i dest src : ℕ) → Vmm
    → Vmm
unfolding clone_page take_frame clear_table low_flags set_entry
clone_loop locked cow child level zero i dest src s = s
clone_loop locked cow child level (suc left) i dest src s =
    let go : Vmm → Vmm = clone_loop locked cow child level left (i + 1) dest src in
    let e = s.tables src i in
    let (new_table, s₁) = take_frame locked s in
    let s₂ = child new_table e.addr (clear_table new_table s₁) in
    let flags = low_flags (s₂.tables src i).flags in
    if not e.flags.present
    then go s
    else if ((level == 4) && not (i == 0)) || ((level == 3) && ltb i 8)
    then go (set_entry dest i e s)
    else if ltb 1 level
    then (if new_table == 0
        then s₁
        else go (set_entry dest i (record { addr = new_table; flags = flags }) s₂))
    else go (clone_page locked cow dest src i s)

-- `clone_pt_recursive`.
unfoldable pub clone_pt : (locked cow : Bool) → (level dest src : ℕ) → Vmm → Vmm
unfolding clone_loop
clone_pt locked cow zero dest src s = s
clone_pt locked cow (suc level) dest src s =
    clone_loop locked cow (clone_pt locked cow level) (suc level) 512 0 dest src s

-- `vmm_clone_pml4`: the new table, or 0.
unfoldable pub vmm_clone_pml4 : (locked cow : Bool) → Vmm → ℕ × Vmm
unfolding take_frame clear_table clone_pt
vmm_clone_pml4 locked cow s =
    let (new_pml4, s') = take_frame locked s in
    if new_pml4 == 0
    then (0, s')
    else (new_pml4, clone_pt locked cow 4 new_pml4 s'.pml4 (clear_table new_pml4 s'))
