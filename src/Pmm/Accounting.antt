-- ===== src/Pmm/Accounting.antt =====
-- The RAM accounting of kernel/mm/pmm.c: `used_ram` and the clear bits of the bitmap.
use eter_os.Base.{
  update, ℕ, zero, suc, ◌+◌, ◌*◌, ◌/◌, ◌^◌, ◌≤◌, ◌<◌, ◌≡◌, refl, inl, inr, Bool, true, false, arith,
  if◌then◌else◌, Bool-cases, dec_lt, not_lt→ltb, lt→ltb, add64,
}
use eter_os.Pmm.{
  Pmm, page_size, claim, release, mark_used_loop, mark_region_used, mark_free_loop,
  mark_region_free, free_page, ref_page, get_free_ram,
}

-- The number of clear bits below `n`.
unfoldable pub count_free : (ℕ → Bool) → ℕ → ℕ
count_free f zero = 0
count_free f (suc n) = count_free f n + (if f n then 0 else 1)

-- What every operation keeps.
pub record IsValid (p : Pmm) : Type 0 where
  pub small : p.total_ram < 2 ^ 64
  pub pages : p.total_pages ≡ p.total_ram / page_size
  pub accounting : p.used_ram + page_size * count_free p.bitmap p.total_pages ≡ p.total_ram

count_free_above :
    (f : ℕ → Bool) (page : ℕ) (b : Bool) (n : ℕ)
    → n ≤ page
    → count_free (update f page b) n ≡ count_free f n
unfolding count_free
count_free_above f page b zero h = refl
count_free_above f page b (suc n) h = ground (arith, count_free_above f page b n)

pub count_free_set :
    (f : ℕ → Bool) (page n : ℕ)
    → f page ≡ false
    → page < n
    → count_free (update f page true) n + 1 ≡ count_free f n
unfolding count_free
count_free_set f page zero c h = absurd (omega arith)
count_free_set f page (suc n) c h =
    ground (arith, count_free_set f page n c, count_free_above f page true n)

pub count_free_unset :
    (f : ℕ → Bool) (page n : ℕ)
    → f page ≡ true
    → page < n
    → count_free (update f page false) n ≡ count_free f n + 1
unfolding count_free
count_free_unset f page zero c h = absurd (omega arith)
count_free_unset f page (suc n) c h =
    ground (arith, count_free_unset f page n c, count_free_above f page false n)

pub claim-IsValid :
    (page : ℕ) {p : Pmm}
    → IsValid p
    → page < p.total_pages
    → p.bitmap page ≡ false
    → IsValid (claim page p)
unfolding claim
claim-IsValid page {p} v h c = omega (arith, count_free_set p.bitmap page p.total_pages c h)

count_free-le : (f : ℕ → Bool) (n : ℕ) → count_free f n ≤ n
unfolding count_free
count_free-le f zero = omega arith
count_free-le f (suc n) = ground (arith, count_free-le f n)

pub release-IsValid :
    (page : ℕ) {p : Pmm}
    → IsValid p
    → page < p.total_pages
    → p.bitmap page ≡ true
    → IsValid (release page p)
unfolding release
release-IsValid page {p} v h c = omega (
  arith,
  count_free_unset p.bitmap page p.total_pages c h,
  count_free-le (update p.bitmap page false) p.total_pages,
)

mark_used_loop-IsValid : (n page : ℕ) {p : Pmm} → IsValid p → IsValid (mark_used_loop n page p)
unfolding mark_used_loop
mark_used_loop-IsValid zero page v = v
mark_used_loop-IsValid (suc n) page {p} v = elim (dec_lt page p.total_pages) [
  | no h ↦ rw (not_lt→ltb _ _ h) v
  | yes h ↦ rw (lt→ltb _ _ h) (elim (Bool-cases (p.bitmap page)) [
    | inl c ↦ rw c (mark_used_loop-IsValid n (page + 1) v)
    | inr c ↦ rw c (mark_used_loop-IsValid n (page + 1) (claim-IsValid page v h c))
  ])
]

mark_free_loop-IsValid : (n page : ℕ) {p : Pmm} → IsValid p → IsValid (mark_free_loop n page p)
unfolding mark_free_loop
mark_free_loop-IsValid zero page v = v
mark_free_loop-IsValid (suc n) page {p} v = elim (dec_lt page p.total_pages) [
  | no h ↦ rw (not_lt→ltb _ _ h) v
  | yes h ↦ rw (lt→ltb _ _ h) (elim (Bool-cases (p.bitmap page)) [
    | inl c ↦ rw c (mark_free_loop-IsValid n (page + 1) (release-IsValid page v h c))
    | inr c ↦ rw c (mark_free_loop-IsValid n (page + 1) v)
  ])
]

pub mark_region_used-IsValid :
    (base size : ℕ) {p : Pmm} → IsValid p → IsValid (mark_region_used base size p)
unfolding mark_region_used
mark_region_used-IsValid base size {p} v =
    ground (arith, mark_used_loop-IsValid (add64 size 4095 / page_size) (base / page_size) v)

pub mark_region_free-IsValid :
    (base size : ℕ) {p : Pmm} → IsValid p → IsValid (mark_region_free base size p)
unfolding mark_region_free
mark_region_free-IsValid base size {p} v =
    ground (arith, mark_free_loop-IsValid (size / page_size) (base / page_size) v)

pub free_page-IsValid : (addr : ℕ) {p : Pmm} → IsValid p → IsValid (free_page addr p).1
unfolding free_page
free_page-IsValid addr {p} v = ground (
  arith,
  count_free_unset p.bitmap (addr / page_size) p.total_pages,
  count_free-le (update p.bitmap (addr / page_size) false) p.total_pages,
)

pub ref_page-IsValid : (addr : ℕ) {p : Pmm} → IsValid p → IsValid (ref_page addr p)
unfolding ref_page
ref_page-IsValid addr {p} v = ground arith

-- What `pmm_get_free_ram` reports is the clear bits of the bitmap, in bytes.
pub get_free_ram-eq :
    {p : Pmm} → IsValid p → get_free_ram p ≡ page_size * count_free p.bitmap p.total_pages
unfolding get_free_ram
get_free_ram-eq v = omega arith
