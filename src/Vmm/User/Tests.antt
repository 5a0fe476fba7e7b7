-- ===== src/Vmm/User/Tests.antt =====
-- A program with one page, at the first address that it may use.
use eter_os.Base.{
  ◌*◌, ltb, ℕ, ◌+◌, ◌^◌, ◌≤◌, ◌<◌, ◌≡◌, ◌↔◌, refl, true, false, ◌==◌, ◌&&◌, arith, if◌then◌else◌,
}
use eter_os.Pmm.Init.{page_align_up}
use eter_os.Bcache.{bcache_init}
use eter_os.Vmm.{Entry, Vmm, no_entry, table_flags, translate, load_user}
use eter_os.Vmm.User.{
  user_base, user_limit, vmm_validate_user_ptr, vmm_is_user_page, verify_page, verify_loop,
  first_page, vmm_verify_user_access, checked, string_loop, vmm_check_user_string, bytes, efault,
  strncpy_loop, vmm_strncpy_from_user,
}
use eter_os.Vmm.User.Access.{Small, vmm_verify_user_access_iff}
use eter_os.Vmm.User.Strings.{Outcome, vmm_strncpy_from_user-Outcome}

abbrev start : ℕ
start = 2 ^ 33

abbrev entry : ℕ → Entry
entry addr = record { addr = addr; flags = table_flags }

abbrev program_tables : ℕ → ℕ → Entry
program_tables x i =
    if (x == 4096) && (i == 0)
    then entry 8192
    else if (x == 8192) && (i == 8)
    then entry 12288
    else if (x == 12288) && (i == 0)
    then entry 20480
    else if (x == 20480) && (i == 0)
    then entry 16384
    else if (x == 8192) && ltb i 4
    then entry 24576
    else if x == 24576
    then record { addr = i * 2097152; flags = record table_flags { huge = true } }
    else no_entry

-- The page holds the string A. The first 4 GiB are mapped in large pages that a program may use.
abbrev program : Vmm
program = record {
  pmm = record {
    bitmap = λ k. true;
    ref_counts = λ k. 1;
    total_ram = 32768;
    used_ram = 32768;
    total_pages = 8;
    last_free_idx = 0;
  };
  cache = bcache_init;
  tables = program_tables;
  data_at = λ x i. if (x == 16384) && (i == 0) then 65 else 0;
  pml4 = 4096;
}

program-Small : Small program
program-Small v low high = ground (arith, low, high)

vmm_verify_user_access_iff_example :
    ((vmm_verify_user_access false false start 5000 program).0 ≡ true) ↔ (
      (user_base ≤ start)
      × (start + 5000 ≤ user_limit + 1)
      × ((v : ℕ)
          → first_page start ≤ v
          → v < page_align_up (start + 5000)
          → vmm_is_user_page v program ≡ true))
vmm_verify_user_access_iff_example =
    vmm_verify_user_access_iff false start 5000 program program-Small (omega arith) (omega arith)

vmm_strncpy_from_user-Outcome_example :
    Outcome false program start 8 (λ i. 9) (vmm_strncpy_from_user false start 8 (λ i. 9) program)
vmm_strncpy_from_user-Outcome_example =
    vmm_strncpy_from_user-Outcome false start 8 (λ i. 9) program (omega arith) (omega arith)
      (omega arith)

-- The page is accepted, and the one behind it is not.
one_page : (vmm_verify_user_access false false start 4096 program).0 ≡ true
unfolding vmm_verify_user_access vmm_validate_user_ptr verify_loop verify_page
one_page = refl

two_pages : (vmm_verify_user_access false false start 4097 program).0 ≡ false
unfolding vmm_verify_user_access vmm_validate_user_ptr verify_loop verify_page
two_pages = refl

copied : (vmm_strncpy_from_user false start 8 (λ i. 9) program).0 ≡ bytes 2
unfolding vmm_strncpy_from_user strncpy_loop checked vmm_verify_user_access vmm_validate_user_ptr
    verify_loop verify_page load_user translate
copied = refl

below : (vmm_strncpy_from_user false 4096 8 (λ i. 9) program).0 ≡ efault
unfolding vmm_strncpy_from_user strncpy_loop checked vmm_verify_user_access vmm_validate_user_ptr
    verify_loop verify_page load_user translate
below = refl

string : vmm_check_user_string false start 8 program ≡ true
unfolding vmm_check_user_string string_loop checked vmm_verify_user_access vmm_validate_user_ptr
    verify_loop verify_page load_user translate
string = refl
