-- ===== src/Shm/Grow.antt =====
-- More pages for an object of kernel/fs/shmfs.c.
use eter_os.Base.{
  ℕ, zero, suc, ◌+◌, ◌/◌, ◌%◌, ◌≤◌, ◌≡◌, ◌≢◌, refl, ◌∙◌, Bool, true, false, List, [], ◌∷◌, ◌++◌,
  length, get_or, ◌==◌, if◌then◌else◌, arith, ap, Bool-cases, inl, inr, if_true, if_false, ==_iff,
  ==_ne, ℕ_discrete, length-append,
}
use eter_os.Pmm.{Pmm, page_size}
use eter_os.Pmm.Accounting.{IsValid}
use eter_os.Reclaim.{alloc_page}
use eter_os.Reclaim.Effect.{Allocates, alloc_page-Allocates}
use eter_os.Shm.{Ram, Machine, store, page_addr, new_page, grow}
use eter_os.Shm.Contents.{byte_at}
use eter_os.Shm.Store.{Framed, store_inside, store_outside}

pub page_addr_lem : (pages : List ℕ) (i : ℕ) → page_addr pages i ≡ get_or pages i 0
unfolding page_addr
page_addr_lem [] i = ground arith
page_addr_lem (p ∷ pages) zero = ground arith
page_addr_lem (p ∷ pages) (suc i) = ground (arith, page_addr_lem pages i)

get_or_snoc :
    (pages : List ℕ) (p i : ℕ)
    → get_or (pages ++ p ∷ []) i 0 ≡ (if i == length pages then p else get_or pages i 0)
get_or_snoc [] p zero = ground arith
get_or_snoc [] p (suc i) = ground arith
get_or_snoc (q ∷ pages) p zero = ground arith
get_or_snoc (q ∷ pages) p (suc i) = ground (arith, get_or_snoc pages p i)

-- The array with one entry more.
pub page_addr_snoc :
    (pages : List ℕ) (p i : ℕ)
    → page_addr (pages ++ p ∷ []) i ≡ (if i == length pages then p else page_addr pages i)
page_addr_snoc pages p i =
    rw (page_addr_lem (pages ++ p ∷ []) i, page_addr_lem pages i) (get_or_snoc pages p i)

pub page_addr_end : (pages : List ℕ) (i : ℕ) → length pages ≤ i → page_addr pages i ≡ 0
unfolding page_addr
page_addr_end pages i h = ground arith

-- The object has its pages: they are different frames that are in use.
pub record Owns (pages : List ℕ) (p : Pmm) : Type 0 where
  pub framed : Framed pages
  pub used : (i : ℕ) → page_addr pages i ≢ 0 → p.bitmap (page_addr pages i / page_size) ≡ true

-- The array with a page more that is free so far.
snoc-Owns :
    {pages : List ℕ} {p q : Pmm} {ptr : ℕ}
    → Owns pages p
    → Allocates p ptr q
    → Owns (pages ++ ptr ∷ []) q
snoc-Owns {pages} {p} {q} {ptr} o a = record {
  framed = record { aligned = aligned; distinct = distinct };
  used = used;
}
  where
    new_ne : (i : ℕ) → page_addr pages i ≢ 0 → page_addr pages i ≢ ptr
    new_ne i h e = cc (o.used i h, a.fresh (λ z. h (e ∙ z)), ap (λ x. p.bitmap (x / page_size)) e)

    aligned : (i : ℕ) → page_addr (pages ++ ptr ∷ []) i % page_size ≡ 0
    aligned i = rw (page_addr_snoc pages ptr i) (ground (arith, a.aligned, o.framed.aligned i))

    distinct :
        (i j : ℕ)
        → page_addr (pages ++ ptr ∷ []) i ≢ 0
        → page_addr (pages ++ ptr ∷ []) i ≡ page_addr (pages ++ ptr ∷ []) j
        → i ≡ j
    distinct i j h e =
        let h' = rw (page_addr_snoc pages ptr i) at h in
        let e' = rw (page_addr_snoc pages ptr i, page_addr_snoc pages ptr j) at e in
        ground (arith, h', e', new_ne i, new_ne j, o.framed.distinct i j)

    used :
        (i : ℕ)
        → page_addr (pages ++ ptr ∷ []) i ≢ 0
        → q.bitmap (page_addr (pages ++ ptr ∷ []) i / page_size) ≡ true
    used i h = elim (ℕ_discrete i (length pages)) [
      | yes end ↦
          let at : page_addr (pages ++ ptr ∷ []) i ≡ ptr =
            page_addr_snoc pages ptr i ∙ if_true _ _ ((==_iff _ _).1 end) in
          rw at (a.taken (λ z. h (at ∙ z)))
      | no other ↦
          let at : page_addr (pages ++ ptr ∷ []) i ≡ page_addr pages i =
            page_addr_snoc pages ptr i ∙ if_false _ _ (==_ne _ _ other) in
          rw at (a.kept _ (o.used i (λ z. h (at ∙ z))))
    ]

-- The new page is all zeros and none of the old ones, so the contents stay.
byte_at_snoc :
    (pages : List ℕ) (ptr : ℕ) (ram : Ram) (p : Pmm)
    → Owns pages p
    → ptr % page_size ≡ 0
    → (ptr ≢ 0 → p.bitmap (ptr / page_size) ≡ false)
    → (i : ℕ)
    → byte_at (pages ++ ptr ∷ []) (if ptr == 0 then ram else store ram ptr page_size (λ k. 0)) i
      ≡ byte_at pages ram i
unfolding byte_at
byte_at_snoc pages ptr ram p o aligned fresh i = elim (ℕ_discrete (i / page_size) (length pages)) [
  | yes end ↦
      let at : page_addr (pages ++ ptr ∷ []) (i / page_size) ≡ ptr =
        page_addr_snoc pages ptr (i / page_size) ∙ if_true _ _ ((==_iff _ _).1 end) in
      let none_yet = page_addr_end pages (i / page_size) (omega (arith, end)) in
      elim (Bool-cases (ptr == 0)) [
        | inl null ↦ rw (at, null, none_yet) refl
        | inr there ↦
            rw (at, there, none_yet)
              (store_inside ram ptr page_size (λ k. 0) (ptr + i % page_size) (omega arith)
                (omega arith))
      ]
  | no other ↦
      let at : page_addr (pages ++ ptr ∷ []) (i / page_size) ≡ page_addr pages (i / page_size) =
        page_addr_snoc pages ptr (i / page_size) ∙ if_false _ _ (==_ne _ _ other) in
      elim (Bool-cases (page_addr pages (i / page_size) == 0)) [
        | inl missing ↦ rw (at, missing) refl
        | inr present ↦ rw (at, present) (old_page present)
      ]
]
  where
    old_page :
        (page_addr pages (i / page_size) == 0) ≡ false
        → (if ptr == 0 then ram else store ram ptr page_size (λ k. 0))
            (page_addr pages (i / page_size) + i % page_size)
          ≡ ram (page_addr pages (i / page_size) + i % page_size)
    old_page present = elim (Bool-cases (ptr == 0)) [
      | inl null ↦
          ap (λ (r : Ram). r (page_addr pages (i / page_size) + i % page_size)) (if_true _ _ null)
      | inr there ↦
          let apart : page_addr pages (i / page_size) ≢ ptr = λ e. cc (
            o.used (i / page_size) (ground (arith, present)),
            fresh (ground (arith, there)),
            ap (λ x. p.bitmap (x / page_size)) e,
          ) in
          let frame = o.framed.aligned (i / page_size) in
          ap (λ (r : Ram). r (page_addr pages (i / page_size) + i % page_size)) (if_false _ _ there)
          ∙ store_outside ram ptr page_size (λ k. 0)
              (page_addr pages (i / page_size) + i % page_size)
              (λ r. omega (arith, apart, aligned, frame, r))
    ]

-- What growing by `count` pages does: the object owns them, and they are all zeros.
pub record Grows (count : ℕ) (pages : List ℕ) (m : Machine) (r : List ℕ × Machine) : Type 0 where
  pub longer : length r.0 ≡ length pages + count
  pub owns : Owns r.0 r.1.pmm
  pub contents : (i : ℕ) → byte_at r.0 r.1.ram i ≡ byte_at pages m.ram i
  pub valid : IsValid r.1.pmm
  pub used : r.1.pmm.bitmap 0 ≡ true

new_page-Grows :
    (locked : Bool) (pages : List ℕ) (m : Machine)
    → IsValid m.pmm
    → m.pmm.bitmap 0 ≡ true
    → Owns pages m.pmm
    → Grows 1 pages m (pages ++ (new_page locked m).0 ∷ [], (new_page locked m).1)
unfolding new_page
new_page-Grows locked pages m v used o =
    let a = alloc_page-Allocates locked m.cache v used in
    record {
      longer = length-append pages (_ ∷ []);
      owns = snoc-Owns o a;
      contents =
          byte_at_snoc pages (alloc_page locked m.pmm m.cache).0 m.ram m.pmm o a.aligned a.fresh;
      valid = a.valid;
      used = a.kept 0 used;
    }

pub grow-Grows :
    (locked : Bool) (count : ℕ) (pages : List ℕ) (m : Machine)
    → IsValid m.pmm
    → m.pmm.bitmap 0 ≡ true
    → Owns pages m.pmm
    → Grows count pages m (grow locked count pages m)
unfolding grow
grow-Grows locked zero pages m v used o = record {
  longer = omega arith;
  owns = o;
  contents = λ i. refl;
  valid = v;
  used = used;
}
grow-Grows locked (suc count) pages m v used o =
    let first = new_page-Grows locked pages m v used o in
    let rest =
      grow-Grows locked count (pages ++ (new_page locked m).0 ∷ []) (new_page locked m).1
        first.valid first.used first.owns in
    record {
      longer = omega (arith, rest.longer, first.longer);
      owns = rest.owns;
      contents = λ i. rest.contents i ∙ first.contents i;
      valid = rest.valid;
      used = rest.used;
    }
