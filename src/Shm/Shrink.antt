-- ===== src/Shm/Shrink.antt =====
-- The first pages of an object of kernel/fs/shmfs.c, without those that `shmfs_truncate` frees.
use eter_os.Base.{
  ℕ, zero, suc, ◌+◌, ◌/◌, ◌%◌, ◌<◌, ◌≡◌, ◌≢◌, refl, ◌∙◌, true, List, [], ◌∷◌, get_or, take, drop,
  ltb, ◌==◌, if◌then◌else◌, arith, ap, sym, Bool-cases, inl, inr, if_true, if_false, ltb→lt,
}
use eter_os.Pmm.{Pmm, page_size, free_page, release}
use eter_os.Pmm.Accounting.{IsValid, free_page-IsValid}
use eter_os.Shm.{Ram, page_addr, free_pages}
use eter_os.Shm.Contents.{byte_at}
use eter_os.Shm.Grow.{Owns, page_addr_lem}

get_or-take :
    (n : ℕ) (pages : List ℕ) (i : ℕ)
    → get_or (take n pages) i 0 ≡ (if ltb i n then get_or pages i 0 else 0)
get_or-take zero pages i = ground arith
get_or-take (suc n) [] i = ground arith
get_or-take (suc n) (p ∷ pages) zero = ground arith
get_or-take (suc n) (p ∷ pages) (suc i) = ground (arith, get_or-take n pages i)

get_or-drop : (n : ℕ) (pages : List ℕ) (i : ℕ) → get_or (drop n pages) i 0 ≡ get_or pages (n + i) 0
get_or-drop zero pages i = ap (λ k. get_or pages k 0) (omega arith)
get_or-drop (suc n) [] i = refl
get_or-drop (suc n) (p ∷ pages) i =
    let at : suc n + i ≡ suc (n + i) = omega arith in rw at (get_or-drop n pages i)

page_addr-take :
    (n : ℕ) (pages : List ℕ) (i : ℕ)
    → page_addr (take n pages) i ≡ (if ltb i n then page_addr pages i else 0)
page_addr-take n pages i =
    rw (page_addr_lem (take n pages) i, page_addr_lem pages i) (get_or-take n pages i)

page_addr-drop :
    (n : ℕ) (pages : List ℕ) (i : ℕ) → page_addr (drop n pages) i ≡ page_addr pages (n + i)
page_addr-drop n pages i =
    page_addr_lem (drop n pages) i ∙ get_or-drop n pages i ∙ sym (page_addr_lem pages (n + i))

-- No frame but the one that is freed becomes free.
free_page_other :
    (addr : ℕ) (p : Pmm) (k : ℕ)
    → k ≢ addr / page_size
    → p.bitmap k ≡ true
    → (free_page addr p).1.bitmap k ≡ true
unfolding free_page release
free_page_other addr p k h used = ground arith

module _ (k : ℕ) where
  -- The frame `k` is none of the pages.
  abbrev Spared : List ℕ → Type 0
  Spared [] = Unit
  Spared (page ∷ pages) = (page ≢ 0 → k ≢ page / page_size) × Spared pages

  free_pages-Spared :
      (pages : List ℕ) (p : Pmm)
      → Spared pages
      → p.bitmap k ≡ true
      → (free_pages pages p).bitmap k ≡ true
  unfolding free_pages
  free_pages-Spared [] p s used = used
  free_pages-Spared (page ∷ pages) p (s, rest) used = elim (Bool-cases (page == 0)) [
    | inl null ↦
        free_pages-Spared pages _ rest (ap (λ (q : Pmm). q.bitmap k) (if_true _ _ null) ∙ used)
    | inr there ↦ free_pages-Spared pages _ rest (
        ap (λ (q : Pmm). q.bitmap k) (if_false _ _ there)
        ∙ free_page_other page p k (s (ground (arith, there))) used)
  ]

  Spared-intro :
      (pages : List ℕ)
      → ((i : ℕ) → get_or pages i 0 ≢ 0 → k ≢ get_or pages i 0 / page_size)
      → Spared pages
  Spared-intro [] h = tt
  Spared-intro (page ∷ pages) h = (h 0, Spared-intro pages (λ i. h (suc i)))

pub free_pages-IsValid : (pages : List ℕ) {p : Pmm} → IsValid p → IsValid (free_pages pages p)
unfolding free_pages
free_pages-IsValid [] v = v
free_pages-IsValid (page ∷ pages) {p} v = elim (Bool-cases (page == 0)) [
  | inl null ↦ rw null (free_pages-IsValid pages v)
  | inr there ↦ rw there (free_pages-IsValid pages (free_page-IsValid page v))
]

-- The pages that are left are in use still.
pub take-Owns :
    (n : ℕ) {pages : List ℕ} {p : Pmm}
    → Owns pages p
    → Owns (take n pages) (free_pages (drop n pages) p)
take-Owns n {pages} {p} o = record {
  framed = record { aligned = aligned; distinct = distinct };
  used = used;
}
  where
    aligned : (i : ℕ) → page_addr (take n pages) i % page_size ≡ 0
    aligned i = rw (page_addr-take n pages i) (ground (arith, o.framed.aligned i))

    distinct :
        (i j : ℕ)
        → page_addr (take n pages) i ≢ 0
        → page_addr (take n pages) i ≡ page_addr (take n pages) j
        → i ≡ j
    distinct i j h e =
        let h' = rw (page_addr-take n pages i) at h in
        let e' = rw (page_addr-take n pages i, page_addr-take n pages j) at e in
        ground (arith, h', e', o.framed.distinct i j)

    spared :
        (i : ℕ)
        → i < n
        → page_addr pages i ≢ 0
        → (j : ℕ) → get_or (drop n pages) j 0 ≢ 0
        → page_addr pages i / page_size ≢ get_or (drop n pages) j 0 / page_size
    spared i small h j h' e =
        let at : get_or (drop n pages) j 0 ≡ page_addr pages (n + j) =
          sym (page_addr_lem (drop n pages) j) ∙ page_addr-drop n pages j in
        let frame = o.framed.aligned i in
        let frame' = o.framed.aligned (n + j) in
        let same = o.framed.distinct i (n + j) h (omega (arith, e, at, frame, frame')) in
        absurd (omega (arith, same, small))

    used :
        (i : ℕ)
        → page_addr (take n pages) i ≢ 0
        → (free_pages (drop n pages) p).bitmap (page_addr (take n pages) i / page_size) ≡ true
    used i h = elim (Bool-cases (ltb i n)) [
      | inl small ↦
          let at : page_addr (take n pages) i ≡ page_addr pages i =
            page_addr-take n pages i ∙ if_true _ _ small in
          let there : page_addr pages i ≢ 0 = λ z. h (at ∙ z) in
          rw at (
            free_pages-Spared _ (drop n pages) p
              (Spared-intro _ (drop n pages) (spared i (ltb→lt i n small) there)) (o.used i there))
      | inr large ↦ absurd (h (page_addr-take n pages i ∙ if_false _ _ large))
    ]

-- Frame 0 belongs to no object.
pub free_pages_zero :
    (n : ℕ) {pages : List ℕ} {p : Pmm}
    → Owns pages p
    → p.bitmap 0 ≡ true
    → (free_pages (drop n pages) p).bitmap 0 ≡ true
free_pages_zero n {pages} {p} o used =
    free_pages-Spared 0 (drop n pages) p (Spared-intro 0 (drop n pages) spared) used
  where
    spared : (j : ℕ) → get_or (drop n pages) j 0 ≢ 0 → 0 ≢ get_or (drop n pages) j 0 / page_size
    spared j h =
        let at : get_or (drop n pages) j 0 ≡ page_addr pages (n + j) =
          sym (page_addr_lem (drop n pages) j) ∙ page_addr-drop n pages j in
        let frame = o.framed.aligned (n + j) in omega (arith, at, frame, h)

pub byte_at-take :
    (n : ℕ) (pages : List ℕ) (ram : Ram) (i : ℕ)
    → byte_at (take n pages) ram i ≡ (if ltb (i / page_size) n then byte_at pages ram i else 0)
unfolding byte_at
byte_at-take n pages ram i = elim (Bool-cases (ltb (i / page_size) n)) [
  | inl small ↦ rw (page_addr-take n pages (i / page_size), small) refl
  | inr large ↦ rw (page_addr-take n pages (i / page_size), large) refl
]
