-- ===== src/Pmm/Mark.antt =====
-- `pmm_mark_region_used` and `pmm_mark_region_free`: which frames they change.
use eter_os.Base.{
  ◌↔◌, ℕ, zero, suc, ◌+◌, ◌-◌, ◌*◌, ◌/◌, ◌%◌, ◌^◌, ◌≤◌, ◌<◌, ◌≡◌, refl, ◌⊎◌, Bool, true, false,
  ◌&&◌, arith, ltb, leb, if◌then◌else◌, add64,
}
use eter_os.Pmm.{
  Pmm, page_size, claim, release, mark_used_loop, mark_region_used, mark_free_loop,
  mark_region_free,
}

-- `k` is one of the `n` pages from `page` on, and a page of the machine.
abbrev pub in_range : Pmm → ℕ → ℕ → ℕ → Bool
in_range p page n k = leb page k && ltb k (page + n) && ltb k p.total_pages

pub total_pages-mark_used_loop :
    (n page : ℕ) (p : Pmm) → (mark_used_loop n page p).total_pages ≡ p.total_pages
unfolding mark_used_loop claim
total_pages-mark_used_loop zero page p = refl
total_pages-mark_used_loop (suc n) page p = ground (
  arith,
  total_pages-mark_used_loop n (page + 1) p,
  total_pages-mark_used_loop n (page + 1) (claim page p),
)

pub mark_used_loop-bitmap :
    (n page : ℕ) (p : Pmm) (k : ℕ)
    → (mark_used_loop n page p).bitmap k ≡ (if in_range p page n k then true else p.bitmap k)
unfolding mark_used_loop claim
mark_used_loop-bitmap zero page p k = ground arith
mark_used_loop-bitmap (suc n) page p k = ground (
  arith,
  mark_used_loop-bitmap n (page + 1) p k,
  mark_used_loop-bitmap n (page + 1) (claim page p) k,
)

pub total_pages-mark_free_loop :
    (n page : ℕ) (p : Pmm) → (mark_free_loop n page p).total_pages ≡ p.total_pages
unfolding mark_free_loop release
total_pages-mark_free_loop zero page p = refl
total_pages-mark_free_loop (suc n) page p = ground (
  arith,
  total_pages-mark_free_loop n (page + 1) p,
  total_pages-mark_free_loop n (page + 1) (release page p),
)

pub mark_free_loop-bitmap :
    (n page : ℕ) (p : Pmm) (k : ℕ)
    → (mark_free_loop n page p).bitmap k ≡ (if in_range p page n k then false else p.bitmap k)
unfolding mark_free_loop release
mark_free_loop-bitmap zero page p k = ground arith
mark_free_loop-bitmap (suc n) page p k = ground (
  arith,
  mark_free_loop-bitmap n (page + 1) p k,
  mark_free_loop-bitmap n (page + 1) (release page p) k,
)

pub mark_region_used-bitmap :
    (base size : ℕ) (p : Pmm) (k : ℕ)
    → (mark_region_used base size p).bitmap k
      ≡ (if in_range p (base / page_size) (add64 size 4095 / page_size) k then true else p.bitmap k)
unfolding mark_region_used
mark_region_used-bitmap base size p k =
    ground (arith, mark_used_loop-bitmap (add64 size 4095 / page_size) (base / page_size) p k)

pub mark_region_free-bitmap :
    (base size : ℕ) (p : Pmm) (k : ℕ)
    → (mark_region_free base size p).bitmap k
      ≡ (if in_range p (base / page_size) (size / page_size) k then false else p.bitmap k)
unfolding mark_region_free
mark_region_free-bitmap base size p k =
    ground (arith, mark_free_loop-bitmap (size / page_size) (base / page_size) p k)

pub total_pages-mark_region_used :
    (base size : ℕ) (p : Pmm) → (mark_region_used base size p).total_pages ≡ p.total_pages
unfolding mark_region_used
total_pages-mark_region_used base size p =
    ground (arith, total_pages-mark_used_loop (add64 size 4095 / page_size) (base / page_size) p)

pub total_pages-mark_region_free :
    (base size : ℕ) (p : Pmm) → (mark_region_free base size p).total_pages ≡ p.total_pages
unfolding mark_region_free
total_pages-mark_region_free base size p =
    ground (arith, total_pages-mark_free_loop (size / page_size) (base / page_size) p)

-- Unless `size + 4095` overflows, `pmm_mark_region_used` leaves a frame of the memory in use exactly
-- when it was, or is one of the `size` bytes' pages, rounded up, from the frame of `base` on.
pub mark_region_used_exact :
    (base size : ℕ) (p : Pmm) (k : ℕ)
    → size + 4095 < 2 ^ 64
    → k < p.total_pages
    → ((mark_region_used base size p).bitmap k ≡ true) ↔ (
        (p.bitmap k ≡ true)
        ⊎ ((base / page_size ≤ k) × (k < base / page_size + (size + 4095) / page_size)))
mark_region_used_exact base size p k small h = ground (arith, mark_region_used-bitmap base size p k)

pub mark_region_free_exact :
    (base size : ℕ) (p : Pmm) (k : ℕ)
    → k < p.total_pages
    → ((mark_region_free base size p).bitmap k ≡ false) ↔ (
        (p.bitmap k ≡ false) ⊎ ((base / page_size ≤ k) × (k < base / page_size + size / page_size)))
mark_region_free_exact base size p k h = ground (arith, mark_region_free-bitmap base size p k)

-- Unless `size + 4095` overflows, the frame of the last byte of a region is left as it was where
-- the region starts inside a frame and ends past the whole pages that `size` alone makes.
pub mark_region_used_misses :
    (base size : ℕ) (p : Pmm)
    → 0 < size
    → size + 4095 < 2 ^ 64
    → (size + 4095) / page_size * page_size < base % page_size + size
    → (mark_region_used base size p).bitmap ((base + size - 1) / page_size)
      ≡ p.bitmap ((base + size - 1) / page_size)
mark_region_used_misses base size p pos small short =
    ground (arith, mark_region_used-bitmap base size p ((base + size - 1) / page_size))
