-- ===== src/Heap/Reach.antt =====
-- Any sequence of calls of kernel/mm/heap.c after `mm_init`.
use eter_os.Base.{
  Bool, ℕ, ◌+◌, ◌-◌, ◌*◌, ◌/◌, ◌%◌, ◌^◌, ◌≤◌, ◌≡◌, refl, ◌∙◌, inl, inr, ◌&&◌, some, List, [], ◌∷◌,
  ◌==◌, arith, Bool-cases, Option-cases, subst, leb, ltb, add64, min, max,
}
use eter_os.Pmm.{Pmm}
use eter_os.Pmm.Init.{E820Entry, page_align_up, e820_usable}
use eter_os.Heap.{Heap, header_size, locate, kmalloc, kfree, grant, release}
use eter_os.Heap.FreeLists.{count-add}
use eter_os.Heap.Valid.{IsValid}
use eter_os.Heap.Grant.{kmalloc-IsValid}
use eter_os.Heap.Release.{kfree-IsValid}
use eter_os.Heap.Api.{
  best_region, candidate_addr, heap_region, initial_block, initial_heap, mm_init, kcalloc, krealloc,
  max_heap_size,
}

-- One call, by any processor: the lock makes calls atomic.
pub data Step (h : Heap) : Heap → Type 0 where
  kmallocs : (size : ℕ) → Step h (kmalloc size h).1
  kfrees : (footer : Bool) (ptr : ℕ) → Step h (kfree footer ptr h).1
  kcallocs : (num size : ℕ) → Step h (kcalloc num size h).1
  kreallocs : (footer : Bool) (ptr size : ℕ) → Step h (krealloc footer ptr size h).1

pub data Reach (h : Heap) : Heap → Type 0 where
  here : Reach h h
  next : {g k : Heap} → Reach h g → Step g k → Reach h k

kcalloc-IsValid : (num size : ℕ) {h : Heap} → IsValid h → IsValid (kcalloc num size h).1
unfolding kcalloc
kcalloc-IsValid num size {h} v = elim (Bool-cases (ltb 0 num && ltb ((2 ^ 64 - 1) / num) size)) [
  | inl wraps ↦ rw wraps v
  | inr small ↦ rw small (kmalloc-IsValid (num * size) v)
]

krealloc-IsValid :
    (footer : Bool) (ptr size : ℕ) {h : Heap} → IsValid h → IsValid (krealloc footer ptr size h).1
unfolding krealloc
krealloc-IsValid footer ptr size {h} v = elim (Bool-cases (ptr == 0)) [
  | inl null ↦ rw null (kmalloc-IsValid size v)
  | inr p ↦ elim (Bool-cases (size == 0)) [
    | inl frees ↦ rw (p, frees) (kfree-IsValid footer ptr v)
    | inr s ↦ elim (Option-cases (locate (ptr - header_size) [] h.blocks)) [
      | inl missing ↦ rw (p, s, missing) v
      | inr (place, found) ↦ elim (Bool-cases (leb size place.block.size)) [
        | inl fits ↦ rw (p, s, found, fits) v
        | inr small ↦ elim (Bool-cases ((kmalloc size h).0 == 0)) [
          | inl full ↦ rw (p, s, found, small, full) (kmalloc-IsValid size v)
          | inr granted ↦
              rw (p, s, found, small, granted) (kfree-IsValid footer ptr (kmalloc-IsValid size v))
        ]
      ]
    ]
  ]
]

Step-IsValid : {h g : Heap} → IsValid h → Step h g → IsValid g
Step-IsValid v (kmallocs size) = kmalloc-IsValid size v
Step-IsValid v (kfrees footer ptr) = kfree-IsValid footer ptr v
Step-IsValid v (kcallocs num size) = kcalloc-IsValid num size v
Step-IsValid v (kreallocs footer ptr size) = krealloc-IsValid footer ptr size v

pub Reach-IsValid : {h g : Heap} → IsValid h → Reach h g → IsValid g
Reach-IsValid v here = v
Reach-IsValid v (next r s) = Step-IsValid (Reach-IsValid v r) s

initial_heap-IsValid :
    (start size : ℕ) → 48 ≤ size → start % 8 ≡ 0 → IsValid (initial_heap start size)
unfolding initial_heap initial_block
initial_heap-IsValid start size big aligned = record {
  tiles = (refl, omega (arith, big), omega (arith, big));
  apart = (refl, tt);
  used = refl;
  aligned = omega (arith, aligned);
  lists = λ k a. omega (arith, count-add (initial_block start size) (λ bucket. []) k a);
}

candidate_addr-aligned : (kernel_end : ℕ) → candidate_addr kernel_end % 4096 ≡ 0
unfolding candidate_addr
candidate_addr-aligned kernel_end = ground arith

-- A region that a heap may have.
abbrev pub Usable : ℕ × ℕ → Type 0
Usable r = (48 ≤ r.1) × (r.0 % 8 ≡ 0)

max-aligned : (a b : ℕ) → a % 4096 ≡ 0 → b % 4096 ≡ 0 → max a b % 8 ≡ 0
max-aligned a b ha hb = ground arith

best_region-Usable :
    (candidate : ℕ) (map : List E820Entry) {r : ℕ × ℕ}
    → candidate % 4096 ≡ 0
    → best_region candidate map ≡ some r
    → Usable r
unfolding best_region
best_region-Usable candidate [] aligned h = cc h
best_region-Usable candidate (e ∷ es) {r} aligned h =
    let region_end = min (add64 e.base_addr e.length) (2 ^ 32) in
    let region_start = max (page_align_up e.base_addr) candidate in
    let region : ℕ × ℕ = (region_start, min ((region_end - region_start) * 3 / 4) max_heap_size) in
    elim (Bool-cases (e.kind == e820_usable && leb (region_start + 1024 * 1024) region_end)) [
      | inr skip ↦ best_region-Usable candidate es aligned (rw (skip, best_region) at h)
      | inl fits ↦
          let large : region_start + 1024 * 1024 ≤ region_end = ground (arith, fits) in
          let same : region ≡ r = cc (rw (fits, best_region) at h) in
          subst Usable same (
            omega (arith, large),
            max-aligned (page_align_up e.base_addr) candidate (omega arith) aligned,
          )
    ]

pub heap_region-Usable :
    (kernel_end : ℕ) (map : List E820Entry) → Usable (heap_region kernel_end map)
unfolding heap_region
heap_region-Usable kernel_end map =
    elim (Option-cases (best_region (candidate_addr kernel_end) map)) [
      | inl nothing ↦ rw (nothing, heap_region) (omega arith, omega arith)
      | inr (r, found) ↦
          rw (found, heap_region)
            (best_region-Usable (candidate_addr kernel_end) map (candidate_addr-aligned kernel_end)
              found)
    ]

-- After `mm_init` and any calls, the blocks tile the heap from its start to its end without gaps or
-- overlaps, no two free blocks are neighbours, `memory_used` is the size of the blocks in use with
-- their headers, each block is aligned to 8 bytes, and each free list has the free blocks of its
-- sizes, each once.
pub mm_init-Reach :
    (kernel_end : ℕ) (map : List E820Entry) (p : Pmm) {h : Heap}
    → Reach (mm_init kernel_end map p).0 h
    → IsValid h
unfolding mm_init
mm_init-Reach kernel_end map p r =
    let (big, aligned) = heap_region-Usable kernel_end map in
    Reach-IsValid
      (initial_heap-IsValid (heap_region kernel_end map).0 (heap_region kernel_end map).1 big
        aligned)
      r

-- A call moves neither end of the heap.
abbrev pub Same : Heap → Heap → Type 0
Same h g = (g.heap_start ≡ h.heap_start) × (g.memory_total ≡ h.memory_total)

kmalloc-Same : (size : ℕ) (h : Heap) → Same h (kmalloc size h).1
unfolding kmalloc grant
kmalloc-Same size h = (ground arith, ground arith)

kfree-Same : (footer : Bool) (ptr : ℕ) (h : Heap) → Same h (kfree footer ptr h).1
unfolding kfree release
kfree-Same footer ptr h = (ground arith, ground arith)

kcalloc-Same : (num size : ℕ) (h : Heap) → Same h (kcalloc num size h).1
unfolding kcalloc
kcalloc-Same num size h = ground (arith, kmalloc-Same (num * size) h)

krealloc-Same : (footer : Bool) (ptr size : ℕ) (h : Heap) → Same h (krealloc footer ptr size h).1
unfolding krealloc
krealloc-Same footer ptr size h =
    ground (
      arith,
      kmalloc-Same size h,
      kfree-Same footer ptr h,
      kfree-Same footer ptr (kmalloc size h).1,
    )

Step-Same : {h g : Heap} → Step h g → Same h g
Step-Same {h} (kmallocs size) = kmalloc-Same size h
Step-Same {h} (kfrees footer ptr) = kfree-Same footer ptr h
Step-Same {h} (kcallocs num size) = kcalloc-Same num size h
Step-Same {h} (kreallocs footer ptr size) = krealloc-Same footer ptr size h

pub Reach-Same : {h g : Heap} → Reach h g → Same h g
Reach-Same here = (refl, refl)
Reach-Same (next r s) = let (a, b) = Reach-Same r in let (c, d) = Step-Same s in (c ∙ a, d ∙ b)
