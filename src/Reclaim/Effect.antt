-- ===== src/Reclaim/Effect.antt =====
-- What `pmm_alloc_page` of kernel/mm/pmm.c does to the frames.
use eter_os.Base.{
  ℕ, ◌/◌, ◌%◌, ◌≡◌, ◌<◌, subst, ◌≢◌, ◌∙◌, Bool, true, false, ◌==◌, arith, ap, sym, Bool-cases, inl,
  inr, ==_iff, update,
}
use eter_os.Pmm.{Pmm, page_size, take_page, alloc_page_impl}
use eter_os.Pmm.Accounting.{IsValid}
use eter_os.Pmm.Alloc.{
  alloc_page_impl_cases, alloc_page_impl-IsValid, alloc_page_impl_fresh, bitmap-reset_rover,
  total_pages-reset_rover, ref_counts-reset_rover, Takes, Exhausted,
}
use eter_os.Bcache.{Bcache}
use eter_os.Reclaim.{alloc_page, taken_not_null}

-- What `pmm_alloc_page` does where frame 0 is in use.
pub record Allocates (p : Pmm) (ptr : ℕ) (q : Pmm) : Type 0 where
  pub valid : IsValid q
  pub aligned : ptr % page_size ≡ 0
  pub fresh : ptr ≢ 0 → p.bitmap (ptr / page_size) ≡ false
  pub taken : ptr ≢ 0 → q.bitmap (ptr / page_size) ≡ true
  pub kept : (k : ℕ) → p.bitmap k ≡ true → q.bitmap k ≡ true
  pub pages : q.total_pages ≡ p.total_pages
  pub within : ptr ≢ 0 → ptr / page_size < p.total_pages
  pub single : ptr ≢ 0 → q.ref_counts (ptr / page_size) ≡ 1
  pub counts : (k : ℕ) → k ≢ ptr / page_size → q.ref_counts k ≡ p.ref_counts k

Takes-Allocates :
    {p : Pmm} (page : ℕ)
    → IsValid p
    → Takes p (alloc_page_impl p) page
    → Allocates p (alloc_page_impl p).0 (alloc_page_impl p).1
unfolding take_page
Takes-Allocates {p} page v t =
    let free = (alloc_page_impl_fresh v t).1 in
    let index : (alloc_page_impl p).0 / page_size ≡ page = omega (arith, t.addr) in
    let state : (k : ℕ) → (alloc_page_impl p).1.bitmap k ≡ update p.bitmap page true k = λ k.
      ground (arith, ap (λ (q : Pmm). q.bitmap k) t.state, ap (λ f. f k) (bitmap-reset_rover p)) in
    let count : (k : ℕ) → (alloc_page_impl p).1.ref_counts k ≡ update p.ref_counts page 1 k = λ k.
      ground (
        arith,
        ap (λ (q : Pmm). q.ref_counts k) t.state,
        ap (λ f. f k) (ref_counts-reset_rover p),
      ) in
    record {
      valid = alloc_page_impl-IsValid v;
      aligned = omega (arith, t.addr);
      fresh = λ h. rw index free;
      taken = λ h. rw index (ground (arith, state page));
      kept = λ k used. ground (arith, state k, used);
      pages = ap (λ (q : Pmm). q.total_pages) t.state ∙ total_pages-reset_rover p;
      within = λ h. rw index (alloc_page_impl_fresh v t).0;
      single = λ h. rw index (ground (arith, count page));
      counts = λ k h. ground (arith, count k, h, index);
    }

Exhausted-Allocates :
    {p : Pmm}
    → IsValid p
    → Exhausted p (alloc_page_impl p)
    → Allocates p (alloc_page_impl p).0 (alloc_page_impl p).1
Exhausted-Allocates {p} v e = record {
  valid = alloc_page_impl-IsValid v;
  aligned = omega (arith, e.null);
  fresh = λ h. absurd (h e.null);
  taken = λ h. absurd (h e.null);
  kept =
      λ k used. ap (λ (q : Pmm). q.bitmap k) e.state ∙ ap (λ f. f k) (bitmap-reset_rover p) ∙ used;
  pages = ap (λ (q : Pmm). q.total_pages) e.state ∙ total_pages-reset_rover p;
  within = λ h. absurd (h e.null);
  single = λ h. absurd (h e.null);
  counts =
      λ k h. ap (λ (q : Pmm). q.ref_counts k) e.state ∙ ap (λ f. f k) (ref_counts-reset_rover p);
}

alloc_page_impl-Allocates :
    {p : Pmm} → IsValid p → Allocates p (alloc_page_impl p).0 (alloc_page_impl p).1
alloc_page_impl-Allocates v = elim (alloc_page_impl_cases v) [
  | inl (page, t) ↦ Takes-Allocates page v t
  | inr e ↦ Exhausted-Allocates v e
]

-- A second attempt comes after one that changed no frame.
Allocates-trans :
    {p q r : Pmm} {ptr ptr' : ℕ}
    → ptr ≡ 0
    → ((k : ℕ) → q.bitmap k ≡ p.bitmap k)
    → ((k : ℕ) → q.ref_counts k ≡ p.ref_counts k)
    → Allocates p ptr q
    → Allocates q ptr' r
    → Allocates p ptr' r
Allocates-trans {ptr' = ptr'} null same unchanged a b = record {
  valid = b.valid;
  aligned = b.aligned;
  fresh = λ h. sym (same _) ∙ b.fresh h;
  taken = b.taken;
  kept = λ k used. b.kept k (same k ∙ used);
  pages = b.pages ∙ a.pages;
  within = λ h. subst (λ n. ptr' / page_size < n) a.pages (b.within h);
  single = b.single;
  counts = λ k h. b.counts k h ∙ unchanged k;
}

pub alloc_page-Allocates :
    (locked : Bool) {p : Pmm} (c : Bcache)
    → IsValid p
    → p.bitmap 0 ≡ true
    → Allocates p (alloc_page locked p c).0 (alloc_page locked p c).1
unfolding alloc_page
alloc_page-Allocates locked {p} c v used = elim (Bool-cases ((alloc_page_impl p).0 == 0)) [
  | inl null ↦ elim (alloc_page_impl_cases v) [
    | inl (page, t) ↦ absurd (taken_not_null v used t ((==_iff _ _).0 null))
    | inr e ↦ rw null (
        Allocates-trans e.null
          (λ k. ap (λ (q : Pmm). q.bitmap k) e.state ∙ ap (λ f. f k) (bitmap-reset_rover p))
          (λ k. ap (λ (q : Pmm). q.ref_counts k) e.state ∙ ap (λ f. f k) (ref_counts-reset_rover p))
          (Exhausted-Allocates v e) (alloc_page_impl-Allocates (alloc_page_impl-IsValid v)))
  ]
  | inr there ↦ rw there (alloc_page_impl-Allocates v)
]
