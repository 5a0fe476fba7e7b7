-- ===== src/Heap/Search.antt =====
-- The search of kernel/mm/heap.c through the free lists.
use eter_os.Base.{
  ℕ, zero, suc, ◌+◌, ◌-◌, ◌≤◌, ◌<◌, ◌≡◌, refl, ◌∙◌, ◌≢◌, ◌⊎◌, inl, inr, true, false, ◌&&◌, none,
  some, List, [], ◌∷◌, arith, Bool-cases, Option-cases, ap, subst, leb, ==_iff, ==_ne, ℕ_discrete,
  dec_lt,
}
use eter_os.Heap.{
  Block, Heap, Place, header_size, num_buckets, get_bucket_index, locate, first_fit, find_fit,
}
use eter_os.Heap.Blocks.{total, listed, Tiles}
use eter_os.Heap.FreeLists.{count}
use eter_os.Heap.Valid.{IsValid, listed_self}

-- A block is one of the list.
abbrev pub Among : Block → List Block → Type 0
Among b [] = ⊥
Among b (x ∷ xs) = (x ≡ b) ⊎ Among b xs

Among-addr :
    (start end : ℕ) (bs : List Block) (b : Block) → Tiles start bs end → Among b bs → start ≤ b.addr
Among-addr start end [] b t m = elim m [ ]
Among-addr start end (x ∷ xs) b (e, s, t) (inl same) = omega (arith, e, ap (λ b. b.addr) same)
Among-addr start end (x ∷ xs) b (e, s, t) (inr later) =
    omega (arith, Among-addr (start + header_size + x.size) end xs b t later)

-- A block is found at its address.
pub locate-Among :
    (start end : ℕ) (before bs : List Block) (b : Block)
    → Tiles start bs end
    → Among b bs
    → (p : Place) × (locate b.addr before bs ≡ some p) × (p.block ≡ b)
unfolding locate
locate-Among start end before [] b t m = elim m [ ]
locate-Among start end before (x ∷ xs) b t (inl same) = (
  record { before = before; block = x; after = xs },
  rw ((==_iff x.addr b.addr).1 (ap (λ b. b.addr) same)) refl,
  same,
)
locate-Among start end before (x ∷ xs) b (e, s, t) (inr later) =
    let other : x.addr ≢ b.addr =
      λ same. omega (arith, same, e, Among-addr (start + header_size + x.size) end xs b t later) in
    let (p, found, same) =
      locate-Among (start + header_size + x.size) end (x ∷ before) xs b t later in
    (p, rw (==_ne x.addr b.addr other, locate) found, same)

-- What is listed is a block.
listed-Among :
    (k a : ℕ) (bs : List Block)
    → 1 ≤ total (listed k a) bs
    → (b : Block) × Among b bs × (b.addr ≡ a)
listed-Among k a [] h = absurd (omega (arith, h))
listed-Among k a (x ∷ xs) h = elim (ℕ_discrete x.addr a) [
  | yes e ↦ (x, inl refl, e)
  | no e ↦ let (b, m, same) = listed-Among k a xs (ground arith) in (b, inr m, same)
]

total-Among : (f : Block → ℕ) (bs : List Block) (b : Block) → Among b bs → f b ≤ total f bs
total-Among f [] b m = elim m [ ]
total-Among f (x ∷ xs) b (inl same) = omega (arith, ap f same)
total-Among f (x ∷ xs) b (inr later) = omega (arith, total-Among f xs b later)

-- What the search hands over.
pub record Fit (h : Heap) (n : ℕ) (p : Place) : Type 0 where
  pub at : ℕ
  pub located : locate at [] h.blocks ≡ some p
  pub free : p.block.is_free ≡ true
  pub big : n ≤ p.block.size

first_fit-Fit :
    (h : Heap) (n : ℕ) (addrs : List ℕ) {p : Place}
    → first_fit h.blocks n addrs ≡ some p
    → Fit h n p
unfolding first_fit
first_fit-Fit h n [] e = cc e
first_fit-Fit h n (a ∷ rest) {p} e = elim (Option-cases (locate a [] h.blocks)) [
  | inl missing ↦ cc (rw (missing, first_fit) at e)
  | inr (q, found) ↦ elim (Bool-cases (q.block.is_free && leb n q.block.size)) [
    | inr no_fit ↦ first_fit-Fit h n rest (simp (found, no_fit, first_fit) at e)
    | inl fits ↦
        let same : q ≡ p = cc (simp (found, fits, first_fit) at e) in
        subst (Fit h n) same
          (record { at = a; located = found; free = ground arith; big = ground arith })
  ]
]

pub find_fit-Fit :
    (h : Heap) (n fuel bucket : ℕ) {p : Place} → find_fit h n fuel bucket ≡ some p → Fit h n p
unfolding find_fit
find_fit-Fit h n zero bucket e = cc e
find_fit-Fit h n (suc fuel) bucket e =
    elim (Option-cases (first_fit h.blocks n (h.free_buckets bucket))) [
      | inl none_here ↦ find_fit-Fit h n fuel (bucket + 1) (rw (none_here, find_fit) at e)
      | inr (q, found) ↦
          first_fit-Fit h n (h.free_buckets bucket) (found ∙ (rw (found, find_fit) at e))
    ]

get_bucket_index_mono : (m n : ℕ) → m ≤ n → get_bucket_index m ≤ get_bucket_index n
unfolding get_bucket_index
get_bucket_index_mono m n h = ground arith

get_bucket_index-lt : (n : ℕ) → get_bucket_index n < num_buckets
unfolding get_bucket_index
get_bucket_index-lt n = ground arith

-- No node of a list that was searched in vain fits.
first_fit-none :
    (blocks : List Block) (n : ℕ) (addrs : List ℕ)
    → ((a : ℕ) → 1 ≤ count a addrs → (p : Place) × (locate a [] blocks ≡ some p))
    → first_fit blocks n addrs ≡ none
    → (a : ℕ) {p : Place} → 1 ≤ count a addrs
    → locate a [] blocks ≡ some p
    → (p.block.is_free && leb n p.block.size) ≡ false
unfolding first_fit
first_fit-none blocks n [] all e a h found = absurd (omega (arith, h))
first_fit-none blocks n (x ∷ rest) all e a {p} h found =
    let (q, here) = all x (ground arith) in
    elim (Bool-cases (q.block.is_free && leb n q.block.size)) [
      | inl fits ↦ cc (simp (here, fits, first_fit) at e)
      | inr no_fit ↦ elim (ℕ_discrete x a) [
        | yes same ↦
            let place : q ≡ p = cc (here, found, same) in
            subst (λ p. (p.block.is_free && leb n p.block.size) ≡ false) place no_fit
        | no other ↦
            first_fit-none blocks n rest (λ b m. all b (ground arith))
              (simp (here, no_fit, first_fit) at e) a (ground arith) found
      ]
    ]

find_fit-none :
    (h : Heap) (n fuel bucket k : ℕ)
    → find_fit h n fuel bucket ≡ none
    → bucket ≤ k
    → k < bucket + fuel
    → first_fit h.blocks n (h.free_buckets k) ≡ none
unfolding find_fit
find_fit-none h n zero bucket k e lo hi = absurd (omega (arith, lo, hi))
find_fit-none h n (suc fuel) bucket k e lo hi =
    elim (Option-cases (first_fit h.blocks n (h.free_buckets bucket))) [
      | inr (q, found) ↦ cc (rw (found, find_fit) at e)
      | inl none_here ↦ elim (ℕ_discrete k bucket) [
        | yes same ↦ rw same none_here
        | no other ↦
            find_fit-none h n fuel (bucket + 1) k (rw (none_here, find_fit) at e)
              (omega (arith, lo, other)) (omega (arith, hi))
      ]
    ]

listed_located :
    {h : Heap}
    → IsValid h
    → (k a : ℕ) → 1 ≤ count a (h.free_buckets k)
    → (p : Place) × (locate a [] h.blocks ≡ some p)
listed_located {h} v k a c =
    let (b, m, e) = listed-Among k a h.blocks (omega (arith, v.lists k a)) in
    let (p, found, same) =
      locate-Among h.heap_start (h.heap_start + h.memory_total) [] h.blocks b v.tiles m in
    (p, rw e at found)

-- The lists from the one of size `n` on are all that can have a block of `n` bytes.
pub find_fit_complete :
    {h : Heap} (n : ℕ) (b : Block)
    → IsValid h
    → find_fit h n (num_buckets - get_bucket_index n) (get_bucket_index n) ≡ none
    → Among b h.blocks
    → b.is_free ≡ true
    → b.size < n
find_fit_complete {h} n b v e m free = elim (dec_lt b.size n) [
  | yes small ↦ small
  | no big ↦
      let k = get_bucket_index b.size in
      let (p, found, same) =
        locate-Among h.heap_start (h.heap_start + h.memory_total) [] h.blocks b v.tiles m in
      let nothing =
        find_fit-none h n (num_buckets - get_bucket_index n) (get_bucket_index n) k e
          (get_bucket_index_mono n b.size (omega (arith, big)))
          (omega (arith, get_bucket_index-lt n, get_bucket_index-lt b.size)) in
      let misfit =
        first_fit-none h.blocks n (h.free_buckets k) (listed_located v k) nothing b.addr
          (omega (
            arith,
            v.lists k b.addr,
            total-Among (listed k b.addr) h.blocks b m,
            listed_self b free,
          ))
          found in
      let misfit' : (b.is_free && leb n b.size) ≡ false =
        subst (λ c. (c.is_free && leb n c.size) ≡ false) same misfit in
      absurd (ground (arith, misfit'))
]
