-- ===== src/Pmm/Alloc.antt =====
-- `pmm_alloc_page_impl` and its companions against the frames that are in use.
use eter_os.Base.{
  ℕ, ◌+◌, ◌*◌, ◌/◌, ◌^◌, ◌<◌, ◌≡◌, refl, ◌∙◌, ◌⊎◌, inl, inr, true, false, arith, Option-cases,
  mul64, ap,
}
use eter_os.Pmm.{
  Pmm, page_size, take_page, find_page, reset_rover, alloc_page_impl, done, free_page,
  get_ref_count,
}
use eter_os.Pmm.Accounting.{IsValid, count_free_set}
use eter_os.Pmm.Search.{NextFit, find_page-NextFit, find_page-none}

reset_rover-IsValid : {p : Pmm} → IsValid p → IsValid (reset_rover p)
unfolding reset_rover
reset_rover-IsValid v = ground arith

pub bitmap-reset_rover : (p : Pmm) → (reset_rover p).bitmap ≡ p.bitmap
unfolding reset_rover
bitmap-reset_rover p = ground arith

pub ref_counts-reset_rover : (p : Pmm) → (reset_rover p).ref_counts ≡ p.ref_counts
unfolding reset_rover
ref_counts-reset_rover p = ground arith

used_ram-reset_rover : (p : Pmm) → (reset_rover p).used_ram ≡ p.used_ram
unfolding reset_rover
used_ram-reset_rover p = ground arith

pub total_pages-reset_rover : (p : Pmm) → (reset_rover p).total_pages ≡ p.total_pages
unfolding reset_rover
total_pages-reset_rover p = ground arith

pages_small : {p : Pmm} → IsValid p → p.total_pages + 63 < 2 ^ 64
pages_small v = omega arith

take_page-IsValid :
    (page : ℕ) {p : Pmm}
    → IsValid p
    → page < p.total_pages
    → p.bitmap page ≡ false
    → IsValid (take_page page p)
unfolding take_page
take_page-IsValid page {p} v h c = ground (arith, count_free_set p.bitmap page p.total_pages c h)

-- An allocation keeps the accounting.
pub alloc_page_impl-IsValid : {p : Pmm} → IsValid p → IsValid (alloc_page_impl p).1
unfolding alloc_page_impl
alloc_page_impl-IsValid {p} v = elim (Option-cases (find_page (reset_rover p))) [
  | inl e ↦ rw (e, alloc_page_impl) (reset_rover-IsValid v)
  | inr (page, e) ↦
      let found : NextFit (reset_rover p) page =
        find_page-NextFit _ (pages_small (reset_rover-IsValid v)) e in
      rw (e, alloc_page_impl)
        (take_page-IsValid page (reset_rover-IsValid v) found.inside found.free)
]

-- What an allocation does: it takes the next free page, or all pages are in use and it changes
-- nothing but the rover.
pub record Takes (p : Pmm) (r : ℕ × Pmm) (page : ℕ) : Type 0 where
  pub next_fit : NextFit (reset_rover p) page
  pub addr : r.0 ≡ page * page_size
  pub state : r.1 ≡ take_page page (reset_rover p)

pub record Exhausted (p : Pmm) (r : ℕ × Pmm) : Type 0 where
  pub full : (k : ℕ) → k < p.total_pages → p.bitmap k ≡ true
  pub null : r.0 ≡ 0
  pub state : r.1 ≡ reset_rover p

pub alloc_page_impl_cases :
    {p : Pmm}
    → IsValid p
    → ((page : ℕ) × Takes p (alloc_page_impl p) page) ⊎ Exhausted p (alloc_page_impl p)
unfolding alloc_page_impl
alloc_page_impl_cases {p} v = elim (Option-cases (find_page (reset_rover p))) [
  | inl e ↦ inr (record {
    full = λ k h. full k h (find_page-none _ small e k);
    null = rw (e, alloc_page_impl) refl;
    state = rw (e, alloc_page_impl) refl;
  })
  | inr (page, e) ↦
      let found : NextFit (reset_rover p) page = find_page-NextFit _ small e in
      inl (
        page,
        record {
          next_fit = found;
          addr = rw (e, alloc_page_impl) (address page found.inside);
          state = rw (e, alloc_page_impl) refl;
        },
      )
]
  where
    small : (reset_rover p).total_pages + 63 < 2 ^ 64
    small = pages_small (reset_rover-IsValid v)

    full :
        (k : ℕ)
        → k < p.total_pages
        → (k < (reset_rover p).total_pages → (reset_rover p).bitmap k ≡ true)
        → p.bitmap k ≡ true
    full k h f = ground (arith, bitmap-reset_rover p, total_pages-reset_rover p, f)

    address :
        (page : ℕ) → page < (reset_rover p).total_pages → mul64 page page_size ≡ page * page_size
    address page h = omega (arith, total_pages-reset_rover p)

-- The three lemmas below are about the state that `take_page` leaves.
module _ {q : Pmm} (v : IsValid q) (page : ℕ) (inside : page < q.total_pages)
    (free : q.bitmap page ≡ false) where
  get_ref_count-take_page : get_ref_count (page * page_size) (take_page page q) ≡ 1
  unfolding get_ref_count take_page
  get_ref_count-take_page =
      let e : page * page_size / page_size ≡ page = omega arith in rw e (ground arith)

  used_ram-take_page : (take_page page q).used_ram ≡ q.used_ram + page_size
  unfolding take_page
  used_ram-take_page = omega (arith, count_free_set q.bitmap page q.total_pages free inside)

  free_page-take_page :
      let (r, s) = free_page (page * page_size) (take_page page q) in
      (r ≡ done)
      × ((k : ℕ) → s.bitmap k ≡ q.bitmap k)
      × (s.used_ram ≡ q.used_ram)
      × (s.ref_counts page ≡ 0)
  unfolding free_page take_page
  free_page-take_page =
      let e : page * page_size / page_size ≡ page = omega arith in
      rw e (
        ground arith,
        λ k. ground arith,
        ground (arith, count_free_set q.bitmap page q.total_pages free inside),
        ground arith,
      )

module _ {p : Pmm} (v : IsValid p) where
  -- In a valid state, the frame that an allocation takes was free, has one reference afterwards,
  -- and one page more is in use.
  pub alloc_page_impl_fresh :
      {page : ℕ}
      → Takes p (alloc_page_impl p) page
      → let (addr, q) = alloc_page_impl p in
        (page < p.total_pages)
        × (p.bitmap page ≡ false)
        × (get_ref_count addr q ≡ 1)
        × (q.used_ram ≡ p.used_ram + page_size)
  alloc_page_impl_fresh {page} t =
      let inside = t.next_fit.inside in
      let free = t.next_fit.free in
      let w = reset_rover-IsValid v in
      (
        rw total_pages-reset_rover at inside,
        rw bitmap-reset_rover at free,
        rw (t.addr, t.state) (get_ref_count-take_page w page inside free),
        rw t.state (
            used_ram-take_page w page inside free
            ∙ ap (λ n. n + page_size) (used_ram-reset_rover p)),
      )

  -- In a valid state, to free the frame that was just allocated gives it back: the bitmap and the
  -- used RAM are those before the allocation, and no reference is left.
  pub free_page-alloc_page_impl :
      {page : ℕ}
      → Takes p (alloc_page_impl p) page
      → let (addr, q) = alloc_page_impl p in
        let (r, s) = free_page addr q in
        (r ≡ done)
        × ((k : ℕ) → s.bitmap k ≡ p.bitmap k)
        × (s.used_ram ≡ p.used_ram)
        × (s.ref_counts page ≡ 0)
  free_page-alloc_page_impl {page} t =
      let w = reset_rover-IsValid v in
      let f = free_page-take_page w page t.next_fit.inside t.next_fit.free in
      rw (t.addr, t.state)
        (f.0, λ k. f.1 k ∙ ap (λ g. g k) (bitmap-reset_rover p), f.2 ∙ used_ram-reset_rover p, f.3)
