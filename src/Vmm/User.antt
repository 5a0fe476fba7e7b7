-- ===== src/Vmm/User.antt =====
-- The checks of kernel/mm/vmm.c on pointers from programs.
pub mod Access
pub mod Strings
mod Tests
use eter_os.Base.{
  ℕ, zero, suc, ◌+◌, ◌-◌, ◌*◌, ◌/◌, ◌%◌, ◌^◌, Bool, true, false, not, ◌&&◌, ◌||◌, Option, none,
  some, ◌==◌, ltb, leb, if◌then◌else◌, update, add64, sub64,
}
use eter_os.Pmm.{page_size}
use eter_os.Pmm.Init.{page_align_up}
use eter_os.Vmm.{Flags, Entry, Vmm, load_user, pt_index, pd_index, pdpt_index, pml4_index}
use eter_os.Vmm.Fault.{vmm_resolve_cow}

abbrev pub user_base : ℕ
user_base = 2 ^ 33

abbrev pub user_limit : ℕ
user_limit = 2 ^ 47 - 1

unfoldable pub vmm_validate_user_ptr : (addr size : ℕ) → Bool
vmm_validate_user_ptr addr size =
    let end = add64 addr size in
    if ltb end addr || ltb (add64 (sub64 user_limit addr) 1) size
    then false
    else if ltb addr user_base
    then false
    else not (ltb (user_limit + 1) end)

-- PAGE_PRESENT and PAGE_USER.
abbrev pub is_user : Entry → Bool
is_user e = e.flags.present && e.flags.user

unfoldable pub vmm_is_user_page : (virt_addr : ℕ) → Vmm → Bool
vmm_is_user_page virt_addr s =
    let e₄ = s.tables s.pml4 (pml4_index virt_addr) in
    let e₃ = s.tables e₄.addr (pdpt_index virt_addr) in
    let e₂ = s.tables e₃.addr (pd_index virt_addr) in
    let e₁ = s.tables e₂.addr (pt_index virt_addr) in
    if not (is_user e₄)
    then false
    else if not (is_user e₃)
    then false
    else if e₃.flags.huge
    then true
    else if not (is_user e₂)
    then false
    else if e₂.flags.huge
    then true
    else is_user e₁

-- A round of the loop of `vmm_verify_user_access`: whether it goes on.
unfoldable pub verify_page : (locked write : Bool) → ℕ → Vmm → Bool × Vmm
unfolding vmm_resolve_cow
verify_page locked write v s =
    let e₄ = s.tables s.pml4 (pml4_index v) in
    let e₃ = s.tables e₄.addr (pdpt_index v) in
    let e₂ = s.tables e₃.addr (pd_index v) in
    let e₁ = s.tables e₂.addr (pt_index v) in
    if not (is_user e₄)
    then (false, s)
    else if not (is_user e₃)
    then (false, s)
    else if not (is_user e₂)
    then (false, s)
    else if not (is_user e₁)
    then (false, s)
    else if not write || e₁.flags.write
    then (true, s)
    else if e₁.flags.cow
    then vmm_resolve_cow locked e₂.addr (pt_index v) s
    else (false, s)

unfoldable pub verify_loop : (locked write : Bool) → (pages v : ℕ) → Vmm → Bool × Vmm
unfolding verify_page
verify_loop locked write zero v s = (true, s)
verify_loop locked write (suc pages) v s =
    let (ok, s') = verify_page locked write v s in
    let rest = verify_loop locked write pages (v + page_size) s' in if ok then rest else (false, s')

-- The pages of a range.
abbrev pub first_page : ℕ → ℕ
first_page addr = addr / page_size * page_size

abbrev pub page_count : (addr size : ℕ) → ℕ
page_count addr size = (page_align_up (addr + size) - first_page addr) / page_size

unfoldable pub vmm_verify_user_access : (locked write : Bool) → (addr size : ℕ) → Vmm → Bool × Vmm
unfolding vmm_validate_user_ptr verify_loop
vmm_verify_user_access locked write addr size s =
    if vmm_validate_user_ptr addr size
    then verify_loop locked write (page_count addr size) (first_page addr) s
    else (false, s)

-- A byte of a string is read after a check at the first byte and at each start of a page.
unfoldable pub checked : (locked : Bool) → (ptr i : ℕ) → Vmm → Bool
unfolding vmm_verify_user_access
checked locked ptr i s =
    let addr = add64 ptr i in
    if (i == 0) || (addr % page_size == 0)
    then (vmm_verify_user_access locked false addr 1 s).0
    else true

unfoldable pub string_loop : (locked : Bool) → (ptr left i : ℕ) → Vmm → Bool
unfolding checked load_user
string_loop locked ptr zero i s = false
string_loop locked ptr (suc left) i s =
    let rest = string_loop locked ptr left (i + 1) s in
    if not (checked locked ptr i s)
    then false
    else if load_user s (add64 ptr i) == 0
    then true
    else rest

unfoldable pub vmm_check_user_string : (locked : Bool) → (str max_len : ℕ) → Vmm → Bool
unfolding string_loop vmm_validate_user_ptr
vmm_check_user_string locked str max_len s =
    let remaining = user_limit - str + 1 in
    if str == 0
    then false
    else if not (vmm_validate_user_ptr str 1)
    then false
    else string_loop locked str (if ltb remaining max_len then remaining else max_len) 0 s

-- What `vmm_strncpy_from_user` returns: a count, cast to an `int` and given as its 32-bit word, or an
-- error.
pub data Copied : Type 0 where
  bytes : ℕ → Copied
  einval efault : Copied

unfoldable pub strncpy_loop :
    (locked : Bool) → (max src left copied : ℕ) → (ℕ → ℕ) → Vmm → Copied × (ℕ → ℕ)
unfolding checked load_user
strncpy_loop locked max src zero copied dst s = (bytes (max % 2 ^ 32), update dst (max - 1) 0)
strncpy_loop locked max src (suc left) copied dst s =
    let c = load_user s (add64 src copied) in
    let dst' = update dst copied c in
    let rest = strncpy_loop locked max src left (copied + 1) dst' s in
    if not (checked locked src copied s)
    then (efault, dst)
    else if c == 0
    then (bytes ((copied + 1) % 2 ^ 32), dst')
    else rest

-- `vmm_strncpy_from_user` for a `dst` that is not NULL.
unfoldable pub vmm_strncpy_from_user :
    (locked : Bool) → (src max : ℕ) → (ℕ → ℕ) → Vmm → Copied × (ℕ → ℕ)
unfolding strncpy_loop
vmm_strncpy_from_user locked src max dst s =
    if (src == 0) || (max == 0) then (einval, dst) else strncpy_loop locked max src max 0 dst s
