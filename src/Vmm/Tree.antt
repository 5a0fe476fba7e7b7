-- ===== src/Vmm/Tree.antt =====
-- The tables of kernel/mm/vmm.c as a tree.
use eter_os.Base.{
  ℕ, ◌+◌, ◌*◌, ◌/◌, ◌%◌, ◌^◌, ◌<◌, ◌≡◌, refl, true, false, not, ◌&&◌, Option, none, some, List, [],
  ◌∷◌, length, if◌then◌else◌, arith,
}
use eter_os.Pmm.{page_size}
use eter_os.Pmm.Accounting.{IsValid}
use eter_os.Vmm.{Entry, Vmm, pt_index, pd_index, pdpt_index, pml4_index}

-- The table that an entry refers to.
unfoldable pub next_of : (ℕ → ℕ → Entry) → (table index : ℕ) → Option ℕ
next_of tables t i =
    let e = tables t i in if e.flags.present && not e.flags.huge then some e.addr else none

-- The table at the end of a path of indices, the last one first.
unfoldable pub node : (ℕ → ℕ → Entry) → (root : ℕ) → List ℕ → Option ℕ
unfolding next_of
node tables root [] = some root
node tables root (i ∷ p) = elim (node tables root p) [ none ↦ none | some t ↦ next_of tables t i ]

-- The three tables above the entries of pages are those with paths shorter than 4.
abbrev pub Short : List ℕ → Type 0
Short p = length p < 4

pub record IsTree (s : Vmm) : Type 0 where
  pub valid : IsValid s.pmm
  pub zero_used : s.pmm.bitmap 0 ≡ true
  pub used :
      (p : List ℕ) (t : ℕ)
      → Short p
      → node s.tables s.pml4 p ≡ some t
      → (s.pmm.bitmap (t / page_size) ≡ true) × (t % page_size ≡ 0)
  pub distinct :
      (p q : List ℕ) (t : ℕ)
      → Short p
      → Short q
      → node s.tables s.pml4 p ≡ some t
      → node s.tables s.pml4 q ≡ some t
      → p ≡ q
  pub small_above :
      (p : List ℕ) (t i : ℕ)
      → length p < 2
      → node s.tables s.pml4 p ≡ some t
      → (s.tables t i).flags.huge ≡ false
  pub large_aligned :
      (p : List ℕ) (t i : ℕ)
      → length p ≡ 2
      → node s.tables s.pml4 p ≡ some t
      → (s.tables t i).flags.huge ≡ true
      → (s.tables t i).addr % 2 ^ 21 ≡ 0

-- The frame that an entry of a last table names.
unfoldable pub page_of : Entry → Option ℕ
page_of e = if e.flags.present then some e.addr else none

-- The frame of page `i` in the 2 MiB that an entry names.
unfoldable pub large_page_of : Entry → ℕ → Option ℕ
large_page_of e i = if e.flags.present && e.flags.huge then some (e.addr + i * page_size) else none

-- The frame of the page with these indices, the last one first.
unfoldable pub frame_of : (ℕ → ℕ → Entry) → (root i₁ i₂ : ℕ) → List ℕ → Option ℕ
unfolding node page_of large_page_of
frame_of tables root i₁ i₂ p = elim (node tables root (i₂ ∷ p)) [
  | some pt ↦ page_of (tables pt i₁)
  | none ↦ elim (node tables root p) [ some pd ↦ large_page_of (tables pd i₂) i₁ | none ↦ none ]
]

-- The frame of the page of an address.
abbrev pub frame_at : Vmm → ℕ → Option ℕ
frame_at s v = frame_of s.tables s.pml4 (pt_index v) (pd_index v) (pdpt_index v ∷ pml4_index v ∷ [])

abbrev pub address_in : Option ℕ → ℕ → ℕ
address_in none v = 0
address_in (some a) v = a + v % page_size

-- One step down the tree.
module _ (tables : ℕ → ℕ → Entry) (root : ℕ) (p : List ℕ) where
  pub node_none : (i : ℕ) → node tables root p ≡ none → node tables root (i ∷ p) ≡ none
  unfolding node
  node_none i h = rw h refl

  pub node_lem :
      (i t : ℕ) → node tables root p ≡ some t → node tables root (i ∷ p) ≡ next_of tables t i
  unfolding node
  node_lem i t h = rw h refl

  pub frame_of-none : (i₁ i₂ : ℕ) → node tables root p ≡ none → frame_of tables root i₁ i₂ p ≡ none
  unfolding frame_of
  frame_of-none i₁ i₂ h = rw (node_none i₂ h, h, frame_of) refl

  pub frame_of_page :
      (i₁ i₂ pt : ℕ)
      → node tables root (i₂ ∷ p) ≡ some pt
      → frame_of tables root i₁ i₂ p ≡ page_of (tables pt i₁)
  unfolding frame_of
  frame_of_page i₁ i₂ pt h = rw (h, frame_of) refl

  pub frame_of_large :
      (i₁ i₂ pd : ℕ)
      → node tables root (i₂ ∷ p) ≡ none
      → node tables root p ≡ some pd
      → frame_of tables root i₁ i₂ p ≡ large_page_of (tables pd i₂) i₁
  unfolding frame_of
  frame_of_large i₁ i₂ pd h h' = rw (h, h', frame_of) refl

pub next_of_absent :
    (tables : ℕ → ℕ → Entry) (t i : ℕ)
    → (tables t i).flags.present ≡ false
    → next_of tables t i ≡ none
unfolding next_of
next_of_absent tables t i h = rw h refl

pub next_of_large :
    (tables : ℕ → ℕ → Entry) (t i : ℕ) → (tables t i).flags.huge ≡ true → next_of tables t i ≡ none
unfolding next_of
next_of_large tables t i h = ground (arith, h)

pub next_of_small :
    (tables : ℕ → ℕ → Entry) (t i : ℕ)
    → (tables t i).flags.present ≡ true
    → (tables t i).flags.huge ≡ false
    → next_of tables t i ≡ some (tables t i).addr
unfolding next_of
next_of_small tables t i h h' = rw (h, h') refl
