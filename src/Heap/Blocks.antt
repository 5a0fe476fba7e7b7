-- ===== src/Heap/Blocks.antt =====
-- Lists of blocks of kernel/mm/heap.c: sums over them, and how they tile the heap.
use eter_os.Base.{
  ℕ, ◌+◌, ◌%◌, ◌≤◌, ◌≡◌, refl, Bool, false, ◌&&◌, some, List, [], ◌∷◌, ◌==◌, if◌then◌else◌, arith,
  ==_iff, ==_ne, ℕ_discrete, subst, ap,
}
use eter_os.Heap.{Block, Place, header_size, get_bucket_index, locate, chain}

-- A sum over the blocks.
abbrev pub total : {A : Type 0} → (A → ℕ) → List A → ℕ
total f [] = 0
total f (b ∷ bs) = f b + total f bs

-- The bytes of the blocks in use.
abbrev pub used_bytes : Block → ℕ
used_bytes b = if b.is_free then 0 else b.size + header_size

-- How far its address is from a multiple of 8.
abbrev pub skew : Block → ℕ
skew b = b.addr % 8

-- Whether the block is the free one at `addr` with list `bucket`, as a number.
abbrev pub listed : (bucket addr : ℕ) → Block → ℕ
listed bucket addr b =
    if b.is_free
    then (if get_bucket_index b.size == bucket then (if b.addr == addr then 1 else 0) else 0)
    else 0

pub total-chain :
    (f : Block → ℕ) (before bs : List Block)
    → total f (chain before bs) ≡ total f before + total f bs
unfolding chain
total-chain f [] bs = omega arith
total-chain f (b ∷ before) bs = omega (arith, total-chain f before (b ∷ bs))

-- The blocks follow each other without gaps from `start` to `end`, and none is smaller than 16.
abbrev pub Tiles : ℕ → List Block → ℕ → Type 0
Tiles start [] end = start ≡ end
Tiles start (b ∷ bs) end =
    (b.addr ≡ start) × (16 ≤ b.size) × Tiles (start + header_size + b.size) bs end

-- The same for the blocks in front of a place, the nearest first.
abbrev pub TilesBack : ℕ → List Block → ℕ → Type 0
TilesBack start [] end = start ≡ end
TilesBack start (b ∷ before) end =
    (b.addr + header_size + b.size ≡ end) × (16 ≤ b.size) × TilesBack start before b.addr

pub Tiles-chain :
    (start mid end : ℕ) (before bs : List Block)
    → TilesBack start before mid
    → Tiles mid bs end
    → Tiles start (chain before bs) end
unfolding chain
Tiles-chain start mid end [] bs back t = rw back t
Tiles-chain start mid end (b ∷ before) bs (e, s, back) t =
    Tiles-chain start b.addr end before (b ∷ bs) back (refl, s, rw e t)

-- What `locate` finds, in a list that starts at `mid`.
pub record Located (start end addr : ℕ) (whole : List Block) (p : Place) : Type 0 where
  pub at_addr : p.block.addr ≡ addr
  pub back : TilesBack start p.before p.block.addr
  pub tail : Tiles p.block.addr (p.block ∷ p.after) end
  pub same : chain p.before (p.block ∷ p.after) ≡ whole

pub locate-Located :
    (start mid end addr : ℕ) (before bs : List Block) {p : Place}
    → TilesBack start before mid
    → Tiles mid bs end
    → locate addr before bs ≡ some p
    → Located start end addr (chain before bs) p
unfolding locate chain
locate-Located start mid end addr before [] back t h = cc h
locate-Located start mid end addr before (b ∷ bs) {p} back (e, s, t) h =
    elim (ℕ_discrete b.addr addr) [
      | yes same ↦
          let here : Place = record { before = before; block = b; after = bs } in
          let found : here ≡ p = cc (rw ((==_iff b.addr addr).1 same, locate) at h) in
          subst (Located start end addr (chain before (b ∷ bs))) found
            (record { at_addr = same; back = rw e back; tail = (refl, s, rw e t); same = refl })
      | no other ↦
          locate-Located start (mid + header_size + b.size) end addr (b ∷ before) bs
            (ap (λ a. a + header_size + b.size) e, s, rw e back) t
            (rw (==_ne b.addr addr other, locate) at h)
    ]

&&-comm_false : (a b : Bool) → (a && b) ≡ false → (b && a) ≡ false
&&-comm_false a b h = ground arith

abbrev pub head_free : List Block → Bool
head_free [] = false
head_free (b ∷ bs) = b.is_free

-- No two free blocks stand side by side.
abbrev pub Apart : List Block → Type 0
Apart [] = Unit
Apart (b ∷ bs) = ((b.is_free && head_free bs) ≡ false) × Apart bs

pub Apart-chain :
    (before bs : List Block)
    → Apart before
    → Apart bs
    → (head_free before && head_free bs) ≡ false
    → Apart (chain before bs)
unfolding chain
Apart-chain [] bs front rest joint = rest
Apart-chain (b ∷ before) bs (e, front) rest joint =
    Apart-chain before (b ∷ bs) front (joint, rest) (&&-comm_false b.is_free (head_free before) e)

-- What `locate` finds where no free blocks stand side by side.
pub record Separate (p : Place) : Type 0 where
  pub front : Apart p.before
  pub rest : Apart p.after
  pub with_front : (head_free p.before && p.block.is_free) ≡ false
  pub with_rest : (p.block.is_free && head_free p.after) ≡ false

pub locate-Separate :
    (addr : ℕ) (before bs : List Block) {p : Place}
    → Apart before
    → Apart bs
    → (head_free before && head_free bs) ≡ false
    → locate addr before bs ≡ some p
    → Separate p
unfolding locate
locate-Separate addr before [] front rest joint h = cc h
locate-Separate addr before (b ∷ bs) {p} front (e, rest) joint h = elim (ℕ_discrete b.addr addr) [
  | yes same ↦
      let here : Place = record { before = before; block = b; after = bs } in
      let found : here ≡ p = cc (rw ((==_iff b.addr addr).1 same, locate) at h) in
      subst Separate found
        (record { front = front; rest = rest; with_front = joint; with_rest = e })
  | no other ↦
      locate-Separate addr (b ∷ before) bs (&&-comm_false (head_free before) b.is_free joint, front)
        rest e (rw (==_ne b.addr addr other, locate) at h)
]
