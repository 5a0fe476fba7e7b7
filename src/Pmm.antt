-- ===== src/Pmm.antt =====
-- kernel/mm/pmm.c, the physical memory manager: a bitmap of 4 KB frames with reference counts.
--
-- The state is that of an initialised manager, so the tests of `pmm_bitmap` and `pmm_ref_counts`
-- against NULL, which pass then, are left out. The bitmap is read as its bits: `bitmap n` is bit
-- n % 8 of byte n / 8, which is bit n % 64 of the 64-bit word n / 64 that the allocator scans (the
-- machine is little endian). The bits from `total_pages` on are those of whatever memory follows.
-- The spinlock makes each function atomic, and the messages to the serial port are left out.
pub mod Accounting
pub mod Alloc
pub mod Init
pub mod Mark
pub mod Reach
pub mod Regions
pub mod Reserved
pub mod Search
mod Tests
use eter_os.Base.{
  ℕ, zero, suc, ◌+◌, ◌-◌, ◌*◌, ◌/◌, ◌%◌, Bool, true, false, Option, none, some, ltb, leb, ◌==◌,
  if◌then◌else◌, update, add64, sub64, mul64,
}

abbrev pub page_size : ℕ
page_size = 4096

pub record Pmm : Type 0 where
  pub bitmap : ℕ → Bool
  pub ref_counts : ℕ → ℕ
  pub total_ram : ℕ
  pub used_ram : ℕ
  pub total_pages : ℕ
  pub last_free_idx : ℕ

-- `bitmap_set` of a frame that was clear, with the accounting that goes with it.
unfoldable pub claim : ℕ → Pmm → Pmm
claim page p = record p {
  bitmap = update p.bitmap page true;
  used_ram = add64 p.used_ram page_size;
}

-- `bitmap_unset` of a frame that was set, with the accounting that goes with it.
unfoldable pub release : ℕ → Pmm → Pmm
release page p = record p {
  bitmap = update p.bitmap page false;
  used_ram = sub64 p.used_ram page_size;
}

-- The loop of `pmm_mark_region_used`, by the rounds left and the page of this round.
unfoldable pub mark_used_loop : ℕ → ℕ → Pmm → Pmm
mark_used_loop zero page p = p
mark_used_loop (suc n) page p =
    let rest = mark_used_loop n (page + 1) (if p.bitmap page then p else claim page p) in
    if ltb page p.total_pages then rest else p

unfoldable pub mark_region_used : ℕ → ℕ → Pmm → Pmm
unfolding mark_used_loop
mark_region_used base size p =
    let start_page = base / page_size in
    let num_pages = add64 size (page_size - 1) / page_size in
    if size == 0
    then p
    else if leb p.total_pages start_page
    then p
    else mark_used_loop num_pages start_page p

-- The loop of `pmm_mark_region_free`.
unfoldable pub mark_free_loop : ℕ → ℕ → Pmm → Pmm
mark_free_loop zero page p = p
mark_free_loop (suc n) page p =
    let rest = mark_free_loop n (page + 1) (if p.bitmap page then release page p else p) in
    if ltb page p.total_pages then rest else p

unfoldable pub mark_region_free : ℕ → ℕ → Pmm → Pmm
unfolding mark_free_loop
mark_region_free base size p =
    let start_page = base / page_size in
    let num_pages = size / page_size in
    if size == 0
    then p
    else if leb p.total_pages start_page
    then p
    else mark_free_loop num_pages start_page p

-- The lowest clear bit among `n` bits of a word from `bit` on: `__builtin_ctzll` of the inverted
-- and masked word, or the bit by bit scan of a partial word; `none` if all are set.
unfoldable pub first_clear : (ℕ → Bool) → ℕ → ℕ → Option ℕ
first_clear word zero bit = none
first_clear word (suc n) bit =
    let rest = first_clear word n (bit + 1) in if word bit then rest else some bit

-- A pass over `n` words from word `i` on, of which the bits from `lo` up to `hi` count. A clear bit
-- that lies past the last page ends the pass (`goto check_wrap`, `return NULL`).
unfoldable pub scan_words : Pmm → (lo hi : ℕ → ℕ) → ℕ → ℕ → Option ℕ
unfolding first_clear
scan_words p lo hi zero i = none
scan_words p lo hi (suc n) i =
    let rest = scan_words p lo hi n (i + 1) in
    elim (first_clear (λ bit. p.bitmap (i * 64 + bit)) (hi i - lo i) (lo i)) [
      | none ↦ rest
      | some bit ↦ if ltb (i * 64 + bit) p.total_pages then some (i * 64 + bit) else none
    ]

-- The first pass, from the rover to the end.
unfoldable pub pass_one : Pmm → Option ℕ
unfolding scan_words
pass_one p =
    let word_idx = p.last_free_idx / 64 in
    let bit_idx = p.last_free_idx % 64 in
    let total_words = add64 p.total_pages 63 / 64 in
    scan_words p (λ i. if i == word_idx then bit_idx else 0) (λ i. 64) (total_words - word_idx)
      word_idx

-- The second pass, from the start to the rover.
unfoldable pub pass_two : Pmm → Option ℕ
unfolding scan_words
pass_two p =
    let word_idx = p.last_free_idx / 64 in
    let bit_idx = p.last_free_idx % 64 in
    scan_words p (λ i. 0) (λ i. if i == word_idx then bit_idx else 64) (word_idx + 1) 0

unfoldable pub find_page : Pmm → Option ℕ
unfolding pass_one pass_two
find_page p = elim (pass_one p) [ none ↦ pass_two p | some page ↦ some page ]

-- What both passes do with the page that they found.
unfoldable pub take_page : ℕ → Pmm → Pmm
take_page page p = record p {
  bitmap = update p.bitmap page true;
  ref_counts = update p.ref_counts page 1;
  used_ram = add64 p.used_ram page_size;
  last_free_idx = if leb p.total_pages (add64 page 1) then 0 else add64 page 1;
}

-- The overflow check on the rover.
unfoldable pub reset_rover : Pmm → Pmm
reset_rover p = if leb p.total_pages p.last_free_idx then record p { last_free_idx = 0 } else p

-- `pmm_alloc_page_impl`: the address of the page, or 0 for NULL.
unfoldable pub alloc_page_impl : Pmm → ℕ × Pmm
alloc_page_impl p =
    let q = reset_rover p in
    elim (find_page q) [ none ↦ (0, q) | some page ↦ (mul64 page page_size, take_page page q) ]

-- `pmm_free_page` with what it reports: an ASSERT that fails is an error of its own.
pub data Freed : Type 0 where
  done out_of_range invalid_unref double_free : Freed

unfoldable pub free_page : ℕ → Pmm → Freed × Pmm
unfolding release
free_page addr p =
    let page = addr / page_size in
    let count = p.ref_counts page in
    let q = record p { ref_counts = update p.ref_counts page (count - 1) } in
    if leb p.total_pages page
    then (out_of_range, p)
    else if count == 0
    then (invalid_unref, p)
    else if ltb 0 (count - 1)
    then (done, q)
    else if p.bitmap page
    then (done, release page q)
    else (double_free, q)

-- `pmm_ref_page`; the count stays at 65535, where the ASSERT fails.
unfoldable pub ref_page : ℕ → Pmm → Pmm
ref_page addr p =
    let page = addr / page_size in
    if leb p.total_pages page
    then p
    else if ltb (p.ref_counts page) 65535
    then record p { ref_counts = update p.ref_counts page (p.ref_counts page + 1) }
    else p

-- `pmm_unref_page`.
unfoldable pub unref_page : ℕ → Pmm → Freed × Pmm
unfolding free_page
unref_page addr p = free_page addr p

unfoldable pub get_ref_count : ℕ → Pmm → ℕ
get_ref_count addr p =
    let page = addr / page_size in if leb p.total_pages page then 0 else p.ref_counts page

unfoldable pub get_free_ram : Pmm → ℕ
get_free_ram p = sub64 p.total_ram p.used_ram
