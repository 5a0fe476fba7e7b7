-- ===== src/Heap/Release.antt =====
-- `kfree` of kernel/mm/heap.c.
use eter_os.Base.{
  Bool, ℕ, ◌+◌, ◌-◌, ◌≤◌, ◌<◌, ◌≡◌, refl, ◌∙◌, inl, inr, true, false, ◌||◌, some, List, [], ◌∷◌,
  ◌==◌, arith, Bool-cases, Option-cases, ap, sym, subst, leb, ltb, ==_ne, if_true, if_false,
}
use eter_os.Heap.{
  Block, Heap, Place, header_size, locate, chain, merge_next, merge_prev, release, kfree, Freed,
  done,
}
use eter_os.Heap.Blocks.{Tiles}
use eter_os.Heap.Valid.{IsValid, Loose, place_lem, take_used}
use eter_os.Heap.Merge.{merge_next-Loose, merge_prev-Loose, put_back}
use eter_os.Heap.Search.{Among, locate-Among}

-- The bytes of `b` are bytes of `c`.
pub record Covers (c b : Block) : Type 0 where
  pub starts : c.addr ≤ b.addr
  pub ends : b.addr + b.size ≤ c.addr + c.size

merge_next-Covers :
    (b : Block) (after : List Block) (buckets : ℕ → List ℕ)
    → ((merge_next b after buckets).0.addr ≡ b.addr)
      × (b.size ≤ (merge_next b after buckets).0.size)
unfolding merge_next
merge_next-Covers b [] buckets = (refl, omega arith)
merge_next-Covers b (n ∷ after) buckets = (ground arith, ground arith)

merge_prev-Covers :
    {start end u : ℕ} (before : List Block) {b : Block} {after : List Block} {buckets : ℕ → List ℕ}
    → Loose start end u before b after buckets
    → ((merge_prev before b buckets).1.addr ≤ b.addr)
      × (b.addr + b.size
          ≤ (merge_prev before b buckets).1.addr + (merge_prev before b buckets).1.size)
unfolding merge_prev
merge_prev-Covers [] l = (omega arith, omega arith)
merge_prev-Covers (p ∷ before) l =
    let (e, s, back) = l.back in (ground (arith, e), ground (arith, e))

Among-chain : (b : Block) (before bs : List Block) → Among b bs → Among b (chain before bs)
unfolding chain
Among-chain b [] bs m = m
Among-chain b (x ∷ before) bs m = Among-chain b before (x ∷ bs) (inr m)

-- What `kfree` does with the block `b`: a free block has its bytes, and fewer bytes are in use.
pub record Frees (b : Block) (h : Heap) (r : Freed × Heap) : Type 0 where
  pub status : r.0 ≡ done
  pub accounting : r.1.memory_used ≡ h.memory_used - (b.size + header_size)
  pub whole : Block
  pub present : Among whole r.1.blocks
  pub free : whole.is_free ≡ true
  pub covers : Covers whole b
  pub valid : IsValid r.1

release-Frees :
    (addr : ℕ) {h : Heap} {p : Place}
    → IsValid h
    → locate addr [] h.blocks ≡ some p
    → p.block.is_free ≡ false
    → Frees p.block h (done, release p h)
unfolding release
release-Frees addr {h} {p} v found busy =
    let (l, s) = place_lem addr v found in
    let freed : Block = record p.block { is_free = true } in
    let next = merge_next freed p.after h.free_buckets in
    let prev = merge_prev p.before next.0 next.2 in
    let (loose, rest) = merge_next-Loose p.after (take_used v l s busy) in
    let (loose', front) = merge_prev-Loose p.before loose in
    let covers = merge_prev-Covers p.before loose in
    record {
      status = refl;
      accounting = refl;
      whole = prev.1;
      present = Among-chain prev.1 prev.0 (prev.1 ∷ next.1) (inl refl);
      free = loose'.free;
      covers = record {
        starts = omega (arith, covers.0, merge_next-Covers freed p.after h.free_buckets);
        ends = omega (arith, covers.1, merge_next-Covers freed p.after h.free_buckets);
      };
      valid = put_back h loose' front rest;
    }

Tiles-le : (start end : ℕ) (bs : List Block) → Tiles start bs end → start ≤ end
Tiles-le start end [] e = omega (arith, e)
Tiles-le start end (x ∷ xs) (e, s, t) =
    omega (arith, Tiles-le (start + header_size + x.size) end xs t)

Among-bounds :
    (start end : ℕ) (bs : List Block) (b : Block)
    → Tiles start bs end
    → Among b bs
    → (start ≤ b.addr) × (b.addr + header_size + b.size ≤ end)
Among-bounds start end [] b t m = elim m [ ]
Among-bounds start end (x ∷ xs) b (e, s, t) (inl same) =
    let fits = Tiles-le (start + header_size + x.size) end xs t in
    subst (λ c. (start ≤ c.addr) × (c.addr + header_size + c.size ≤ end)) same
      (omega (arith, e), omega (arith, e, fits))
Among-bounds start end (x ∷ xs) b (e, s, t) (inr later) =
    let (lo, hi) = Among-bounds (start + header_size + x.size) end xs b t later in
    (omega (arith, lo), hi)

kfree_lem :
    (ptr : ℕ) (h : Heap) {p : Place}
    → h.heap_start + header_size ≤ ptr
    → ptr - header_size < h.heap_start + h.memory_total
    → locate (ptr - header_size) [] h.blocks ≡ some p
    → p.block.is_free ≡ false
    → kfree true ptr h ≡ (done, release p h)
unfolding kfree
kfree_lem ptr h lo hi found busy =
    let not_null : (ptr == 0) ≡ false = ==_ne ptr 0 (λ z. omega (arith, z, lo)) in
    let inside : (ltb ptr (h.heap_start + header_size)
          || leb (h.heap_start + h.memory_total) (ptr - header_size))
        ≡ false =
      ground (arith, lo, hi) in
    rw (not_null, inside, found, kfree) (if_false _ _ busy)

-- In a valid heap, `kfree` of a block in use whose footer is intact frees it: a free block of the heap has its bytes, and
-- its bytes and its header are no longer counted as used.
pub kfree-Frees :
    {h : Heap} (b : Block)
    → IsValid h
    → Among b h.blocks
    → b.is_free ≡ false
    → Frees b h (kfree true (b.addr + header_size) h)
kfree-Frees {h} b v m busy =
    let (p, found, same) =
      locate-Among h.heap_start (h.heap_start + h.memory_total) [] h.blocks b v.tiles m in
    let (lo, hi) = Among-bounds h.heap_start (h.heap_start + h.memory_total) h.blocks b v.tiles m in
    let back : b.addr + header_size - header_size ≡ b.addr = omega arith in
    let found' : locate (b.addr + header_size - header_size) [] h.blocks ≡ some p = rw back found in
    let in_use : p.block.is_free ≡ false = ap (λ c. c.is_free) same ∙ busy in
    let freed : kfree true (b.addr + header_size) h ≡ (done, release p h) =
      kfree_lem (b.addr + header_size) h (omega (arith, lo)) (omega (arith, hi)) found' in_use in
    subst (λ c. Frees c h (kfree true (b.addr + header_size) h)) same
      (subst (Frees p.block h) (sym freed) (release-Frees b.addr v found in_use))

-- Whatever its arguments are, `kfree` keeps the invariant.
pub kfree-IsValid :
    (footer : Bool) (ptr : ℕ) {h : Heap} → IsValid h → IsValid (kfree footer ptr h).1
unfolding kfree
kfree-IsValid footer ptr {h} v = elim (Bool-cases (ptr == 0)) [
  | inl null ↦ rw null v
  | inr some_ptr ↦
      elim (Bool-cases (
        ltb ptr (h.heap_start + header_size)
        || leb (h.heap_start + h.memory_total) (ptr - header_size))) [
          | inl outside ↦ rw (some_ptr, outside) v
          | inr inside ↦ elim (Option-cases (locate (ptr - header_size) [] h.blocks)) [
            | inl missing ↦ rw (some_ptr, inside, missing) v
            | inr (p, found) ↦
                rw (some_ptr, inside, found)
                  (elim (Bool-cases p.block.is_free) [
                    | inl free ↦
                        subst (λ (r : Freed × Heap). IsValid r.1) (sym (if_true _ _ free)) v
                    | inr busy ↦
                        subst (λ (r : Freed × Heap). IsValid r.1) (sym (if_false _ _ busy))
                          (elim (Bool-cases footer) [
                            | inl intact ↦
                                rw intact (release-Frees (ptr - header_size) v found busy).valid
                            | inr broken ↦ rw broken v
                          ])
                  ])
          ]
        ]
]
