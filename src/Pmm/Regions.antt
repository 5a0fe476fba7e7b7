-- ===== src/Pmm/Regions.antt =====
-- The frames that `pmm_init` counts as a region's, and the bytes of the region.
use eter_os.Base.{
  ◌%◌, ℕ, ◌+◌, ◌*◌, ◌/◌, ◌^◌, ◌≤◌, ◌<◌, ◌≡◌, ◌⊎◌, inl, inr, List, [], ◌∷◌, arith, add64,
}
use eter_os.Pmm.{page_size}
use eter_os.Pmm.Init.{E820Entry, e820_usable}

-- Frame `k` is one of the frames that a usable region gives, as the code counts them.
abbrev pub Counted : ℕ → List E820Entry → Type 0
Counted k [] = ⊥
Counted k (e ∷ es) =
    ((e.kind ≡ e820_usable)
      × (e.base_addr / page_size ≤ k)
      × (k < e.base_addr / page_size + e.length / page_size))
    ⊎ Counted k es

-- Frame `k` is none of the `n` frames from `page` on.
abbrev pub Outside : ℕ → ℕ → ℕ → Type 0
Outside page n k = (k < page) ⊎ (page + n ≤ k)

-- Frame `k` is in none of the regions.
abbrev pub OutsideAll : List (ℕ × ℕ) → ℕ → Type 0
OutsideAll [] k = Unit {0}
OutsideAll ((base, size) ∷ rs) k =
    Outside (base / page_size) (add64 size 4095 / page_size) k × OutsideAll rs k

-- The bytes of frame `k` end inside a usable region, and begin in it, or before it by no more than
-- the region's start lies behind a page boundary.
abbrev pub Usable : ℕ → List E820Entry → Type 0
Usable k [] = ⊥
Usable k (e ∷ es) =
    ((e.kind ≡ e820_usable)
      × (e.base_addr ≤ k * page_size + e.base_addr % page_size)
      × (k * page_size + page_size ≤ e.base_addr + e.length))
    ⊎ Usable k es

-- The bytes of frame `k` end before each region, or begin behind it, less the bytes by which its
-- start lies behind a page boundary.
abbrev pub Clear : List (ℕ × ℕ) → ℕ → Type 0
Clear [] k = Unit {0}
Clear ((base, size) ∷ rs) k =
    ((k * page_size + page_size ≤ base) ⊎ (base + size ≤ k * page_size + base % page_size))
    × Clear rs k

pub Counted-Usable : (k : ℕ) (map : List E820Entry) → Counted k map → Usable k map
Counted-Usable k [] h = h
Counted-Usable k (e ∷ es) (inl (kind, lo, hi)) = inl (kind, omega (arith, lo), omega (arith, hi))
Counted-Usable k (e ∷ es) (inr later) = inr (Counted-Usable k es later)

-- The sizes do not wrap when they are rounded up.
abbrev pub Fit : List (ℕ × ℕ) → Type 0
Fit [] = Unit {0}
Fit ((base, size) ∷ rs) = (size + 4095 < 2 ^ 64) × Fit rs

pub OutsideAll-Clear : (k : ℕ) (rs : List (ℕ × ℕ)) → Fit rs → OutsideAll rs k → Clear rs k
OutsideAll-Clear k [] fit h = tt
OutsideAll-Clear k ((base, size) ∷ rs) (small, fit) (inl before, h) =
    (inl (omega (arith, before)), OutsideAll-Clear k rs fit h)
OutsideAll-Clear k ((base, size) ∷ rs) (small, fit) (inr behind, h) =
    (inr (omega (arith, behind, small)), OutsideAll-Clear k rs fit h)
