-- ===== src/Heap/Valid.antt =====
-- The invariant of kernel/mm/heap.c, and a heap from which one free block has been taken out.
use eter_os.Base.{
  ℕ, ◌+◌, ◌-◌, ◌≤◌, ◌≡◌, refl, ◌∙◌, true, false, some, List, [], ◌∷◌, arith, ap, sym,
}
use eter_os.Heap.{
  Block, Heap, Place, header_size, get_bucket_index, locate, chain, remove_from_free_list,
}
use eter_os.Heap.Blocks.{
  total, total-chain, used_bytes, skew, listed, Tiles, TilesBack, Located, locate-Located, Apart,
  Separate, locate-Separate,
}
use eter_os.Heap.FreeLists.{count, count-remove}

-- The blocks tile the heap, no two free ones are neighbours, `memory_used` is the size of those in
-- use with their headers, each is aligned to 8 bytes, and each free block is in its list, once, and
-- nothing else is.
pub record IsValid (h : Heap) : Type 0 where
  pub tiles : Tiles h.heap_start h.blocks (h.heap_start + h.memory_total)
  pub apart : Apart h.blocks
  pub used : h.memory_used ≡ total used_bytes h.blocks
  pub aligned : total skew h.blocks ≡ 0
  pub lists : (k a : ℕ) → count a (h.free_buckets k) ≡ total (listed k a) h.blocks

-- A sum over the blocks of a place.
pub total-Located :
    {start end addr : ℕ} {whole : List Block} {p : Place} (f : Block → ℕ)
    → Located start end addr whole p
    → total f whole ≡ total f p.before + (f p.block + total f p.after)
total-Located {whole = whole} {p = p} f l =
    sym (ap (total f) l.same) ∙ total-chain f p.before (p.block ∷ p.after)

-- A free block out of its list, between its neighbours: the lists hold the other free blocks, and
-- `u` bytes are in use by the others.
pub record Loose (start end u : ℕ) (before : List Block) (b : Block) (after : List Block)
    (buckets : ℕ → List ℕ) : Type 0 where
  pub back : TilesBack start before b.addr
  pub tail : Tiles b.addr (b ∷ after) end
  pub free : b.is_free ≡ true
  pub front : Apart before
  pub rest : Apart after
  pub used : u ≡ total used_bytes before + total used_bytes after
  pub aligned : total skew before + (skew b + total skew after) ≡ 0
  pub lists : (k a : ℕ) → count a (buckets k) ≡ total (listed k a) before + total (listed k a) after

-- The place of a header in a valid heap.
pub place_lem :
    {h : Heap} (addr : ℕ) {p : Place}
    → IsValid h
    → locate addr [] h.blocks ≡ some p
    → Located h.heap_start (h.heap_start + h.memory_total) addr h.blocks p × Separate p
unfolding chain
place_lem {h} addr v e = (
  locate-Located h.heap_start h.heap_start (h.heap_start + h.memory_total) addr [] h.blocks refl
      v.tiles e,
  locate-Separate addr [] h.blocks tt v.apart refl e,
)

pub listed_self : (b : Block) → b.is_free ≡ true → listed (get_bucket_index b.size) b.addr b ≡ 1
listed_self b h = ground arith

-- To take a free block out of its list.
pub take_free :
    {h : Heap} {addr : ℕ} {p : Place}
    → IsValid h
    → Located h.heap_start (h.heap_start + h.memory_total) addr h.blocks p
    → Separate p
    → p.block.is_free ≡ true
    → Loose h.heap_start
        (h.heap_start + h.memory_total)
        h.memory_used
        p.before
        p.block
        p.after
        (remove_from_free_list p.block h.free_buckets)
take_free {h} {addr} {p} v l s free =
    let b = p.block in
    let present : 1 ≤ count b.addr (h.free_buckets (get_bucket_index b.size)) = omega (
      arith,
      v.lists (get_bucket_index b.size) b.addr,
      total-Located (listed (get_bucket_index b.size) b.addr) l,
      listed_self b free,
    ) in
    record {
      back = l.back;
      tail = l.tail;
      free = free;
      front = s.front;
      rest = s.rest;
      used = ground (arith, v.used, total-Located used_bytes l);
      aligned = omega (arith, v.aligned, total-Located skew l);
      lists = λ k a. omega (
        arith,
        v.lists k a,
        total-Located (listed k a) l,
        count-remove b h.free_buckets k a free present,
      );
    }

-- A block in use that is freed.
pub take_used :
    {h : Heap} {addr : ℕ} {p : Place}
    → IsValid h
    → Located h.heap_start (h.heap_start + h.memory_total) addr h.blocks p
    → Separate p
    → p.block.is_free ≡ false
    → Loose h.heap_start
        (h.heap_start + h.memory_total)
        (h.memory_used - (p.block.size + header_size))
        p.before
        (record p.block { is_free = true })
        p.after
        h.free_buckets
take_used {h} {addr} {p} v l s free = record {
  back = l.back;
  tail = l.tail;
  free = refl;
  front = s.front;
  rest = s.rest;
  used = ground (arith, v.used, total-Located used_bytes l);
  aligned = omega (arith, v.aligned, total-Located skew l);
  lists = λ k a. ground (arith, v.lists k a, total-Located (listed k a) l);
}
