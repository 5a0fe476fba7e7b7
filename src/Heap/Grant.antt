-- ===== src/Heap/Grant.antt =====
-- `kmalloc` of kernel/mm/heap.c.
use eter_os.Base.{
  ℕ, ◌+◌, ◌-◌, ◌%◌, ◌^◌, ◌≤◌, ◌<◌, ◌≡◌, refl, ◌⊎◌, inl, inr, true, false, ◌&&◌, List, [], ◌∷◌, ◌++◌,
  ◌==◌, arith, Bool-cases, Option-cases, sym, leb, ltb, ltb→lt, ==_iff,
}
use eter_os.Heap.{
  Block, Heap, Place, header_size, num_buckets, align, get_bucket_index, chain, find_fit, split,
  grant, kmalloc,
}
use eter_os.Heap.Blocks.{skew}
use eter_os.Heap.Valid.{IsValid, place_lem, take_free, total-Located}
use eter_os.Heap.Search.{Among, Fit, find_fit-Fit, find_fit_complete}
use eter_os.Heap.Divide.{split-Divides, grant-IsValid}

-- What `kmalloc` does with a request of `size` bytes: a block that was free is in use at the same
-- address, with `size` bytes and the footer, and everything else is as it was; or nothing changes.
pub record Grants (size : ℕ) (h : Heap) (r : ℕ × Heap) : Type 0 where
  pub before : List Block
  pub after : List Block
  pub rest : List Block
  pub old : Block
  pub used : Block
  pub blocks : h.blocks ≡ chain before (old ∷ after)
  pub blocks' : r.1.blocks ≡ chain before ((used ∷ rest) ++ after)
  pub was_free : old.is_free ≡ true
  pub busy : used.is_free ≡ false
  pub room : size + 4 ≤ used.size
  pub same_addr : used.addr ≡ old.addr
  pub ptr : r.0 ≡ used.addr + header_size
  pub aligned : r.0 % 8 ≡ 0
  pub accounting : r.1.memory_used ≡ h.memory_used + (used.size + header_size)
  pub valid : IsValid r.1

align_lem : (n : ℕ) → (16 ≤ align n) × (n ≤ align n) × (align n % 8 ≡ 0)
unfolding align
align_lem n = (ground arith, ground arith, ground arith)

grant-Grants :
    (size : ℕ) {h : Heap} {p : Place}
    → IsValid h
    → Fit h (align (size + 4)) p
    → Grants size h (p.block.addr + header_size, grant (align (size + 4)) p h)
unfolding grant
grant-Grants size {h} {p} v f =
    let n = align (size + 4) in
    let (l, s) = place_lem f.at v f.located in
    let (d, room) =
      split-Divides n p.block (align_lem (size + 4)).0 (align_lem (size + 4)).2
        (omega (arith, v.aligned, total-Located skew l)) f.big in
    record {
      before = p.before;
      after = p.after;
      rest = (split n p.block).1;
      old = p.block;
      used = (split n p.block).0;
      blocks = sym l.same;
      blocks' = refl;
      was_free = f.free;
      busy = d.busy;
      room = omega (arith, room, align_lem (size + 4));
      same_addr = d.same_addr;
      ptr = omega (arith, d.same_addr);
      aligned = omega (arith, v.aligned, total-Located skew l);
      accounting = refl;
      valid =
          grant-IsValid h n p (take_free v l s f.free) (ground (arith, s.with_rest, f.free))
            (align_lem (size + 4)).0 (align_lem (size + 4)).2 f.big;
    }

-- No free block has `n` bytes.
abbrev pub NoRoom : ℕ → List Block → Type 0
NoRoom n [] = Unit
NoRoom n (b ∷ bs) = ((b.is_free && leb n b.size) ≡ false) × NoRoom n bs

NoRoom-intro :
    (n : ℕ) (bs : List Block)
    → ((b : Block) → Among b bs → b.is_free ≡ true → b.size < n)
    → NoRoom n bs
NoRoom-intro n [] h = tt
NoRoom-intro n (b ∷ bs) h =
    (ground (arith, h b (inl refl)), NoRoom-intro n bs (λ c m free. h c (inr m) free))

-- Why `kmalloc` may return NULL.
abbrev pub Refused : ℕ → Heap → Type 0
Refused size h =
    (size ≡ 0)
    ⊎ ((2 ^ 64 - 1 - 8 - header_size < size)
        ⊎ ((h.memory_total < size) ⊎ NoRoom (align (size + 4)) h.blocks))

pub kmalloc-cases :
    (size : ℕ) {h : Heap}
    → IsValid h
    → Grants size h (kmalloc size h) ⊎ ((kmalloc size h ≡ (0, h)) × Refused size h)
unfolding kmalloc
kmalloc-cases size {h} v =
    let n = align (size + 4) in
    let k = get_bucket_index n in
    elim (Bool-cases (size == 0)) [
      | inl z ↦ inr (rw z refl, inl ((==_iff size 0).0 z))
      | inr z ↦ elim (Bool-cases (ltb (2 ^ 64 - 1 - 8 - header_size) size)) [
        | inl wraps ↦ inr (rw (z, wraps) refl, inr (inl (ltb→lt _ _ wraps)))
        | inr w ↦ elim (Bool-cases (ltb h.memory_total size)) [
          | inl large ↦ inr (rw (z, w, large) refl, inr (inr (inl (ltb→lt _ _ large))))
          | inr l ↦ elim (Option-cases (find_fit h n (num_buckets - k) k)) [
            | inl nothing ↦ inr (
              rw (z, w, l, nothing) refl,
              inr (
                  inr (
                    inr (
                      NoRoom-intro n h.blocks
                        (λ b m free. find_fit_complete n b v nothing m free)))),
            )
            | inr (p, found) ↦ inl (
                rw (z, w, l, found)
                  (grant-Grants size v (find_fit-Fit h n (num_buckets - k) k found)))
          ]
        ]
      ]
    ]

pub kmalloc-IsValid : (size : ℕ) {h : Heap} → IsValid h → IsValid (kmalloc size h).1
kmalloc-IsValid size {h} v = elim (kmalloc-cases size v) [ inl g ↦ g.valid | inr (e, _) ↦ rw e v ]
