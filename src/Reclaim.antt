-- ===== src/Reclaim.antt =====
-- `pmm_alloc_page` of kernel/mm/pmm.c, which on failure empties the block cache and tries again.
pub mod Effect
mod Tests
use eter_os.Base.{
  ℕ, zero, suc, ◌+◌, ◌*◌, ◌≤◌, ◌<◌, ◌≡◌, refl, ◌∙◌, ◌≢◌, ◌⊎◌, inl, inr, ◌↔◌, Bool, true, false,
  arith, ◌==◌, if◌then◌else◌, ℕ_discrete, ap, sym,
}
use eter_os.Pmm.{Pmm, page_size, alloc_page_impl, take_page, reset_rover}
use eter_os.Pmm.Accounting.{IsValid}
use eter_os.Pmm.Alloc.{
  bitmap-reset_rover, total_pages-reset_rover, alloc_page_impl_cases, alloc_page_impl-IsValid,
  alloc_page_impl_fresh, Takes, Exhausted,
}
use eter_os.Bcache.{Bcache, invalidate_all}

-- `locked`: whether another processor holds the cache's lock, so that `spin_trylock` fails.
unfoldable pub alloc_page : (locked : Bool) → Pmm → Bcache → ℕ × Pmm × Bcache
alloc_page locked p c =
    let (ptr, q) = alloc_page_impl p in
    let (ptr', r) = alloc_page_impl q in
    if ptr == 0 then (ptr', r, invalidate_all locked c) else (ptr, q, c)

module _ {p : Pmm} (v : IsValid p) where
  -- With frame 0 in use, the frame that an allocation takes does not have the address NULL.
  pub taken_not_null :
      {page : ℕ} → p.bitmap 0 ≡ true → Takes p (alloc_page_impl p) page → (alloc_page_impl p).0 ≢ 0
  taken_not_null {page} used t e =
      let null : page ≡ 0 = omega (arith, t.addr, e) in
      cc (ap p.bitmap null, (alloc_page_impl_fresh v t).1, used)

  pub full_not_taken :
      {page : ℕ}
      → ((k : ℕ) → k < p.total_pages → p.bitmap k ≡ true)
      → ¬ (Takes p (alloc_page_impl p) page)
  full_not_taken {page} full t =
      let fresh = alloc_page_impl_fresh v t in cc (full page fresh.0, fresh.1)

  -- In a full machine the allocation fails.
  full_null : ((k : ℕ) → k < p.total_pages → p.bitmap k ≡ true) → (alloc_page_impl p).0 ≡ 0
  full_null full = elim (alloc_page_impl_cases v) [
    | inl (page, t) ↦ absurd (full_not_taken full t)
    | inr e ↦ e.null
  ]

module _ (locked : Bool) (c : Bcache) {p : Pmm} (v : IsValid p) where
  -- From a valid state with frame 0 in use, and whatever the block cache holds, `pmm_alloc_page`
  -- returns NULL exactly when no frame is free.
  pub alloc_page_fails :
      p.bitmap 0 ≡ true
      → ((alloc_page locked p c).0 ≡ 0) ↔ ((k : ℕ) → k < p.total_pages → p.bitmap k ≡ true)
  unfolding alloc_page
  alloc_page_fails used = (fails, full)
    where
      again : Exhausted p (alloc_page_impl p) → (alloc_page_impl (alloc_page_impl p).1).0 ≡ 0
      again e =
          full_null (alloc_page_impl-IsValid v)
            (rw e.state (λ k h. rw bitmap-reset_rover (e.full k (rw total_pages-reset_rover at h))))

      fails : (alloc_page locked p c).0 ≡ 0 → (k : ℕ) → k < p.total_pages → p.bitmap k ≡ true
      fails null k h = elim (alloc_page_impl_cases v) [
        | inl (page, t) ↦ absurd (taken_not_null v used t (ground arith))
        | inr e ↦ e.full k h
      ]

      full : ((k : ℕ) → k < p.total_pages → p.bitmap k ≡ true) → (alloc_page locked p c).0 ≡ 0
      full all = elim (alloc_page_impl_cases v) [
        | inl (page, t) ↦ absurd (full_not_taken v all t)
        | inr e ↦ ground (arith, e.null, again e)
      ]
