-- ===== src/Heap/Merge.antt =====
-- Coalescing in kernel/mm/heap.c.
use eter_os.Base.{
  inl, inr, if_true, if_false, ℕ, ◌+◌, ◌≤◌, ◌≡◌, refl, true, false, List, [], ◌∷◌, arith,
  Bool-cases, sym, subst,
}
use eter_os.Heap.{
  Block, Heap, header_size, get_bucket_index, chain, remove_from_free_list, add_to_free_list,
  merge_next, merge_prev,
}
use eter_os.Heap.Blocks.{total-chain, used_bytes, skew, listed, Tiles-chain, head_free, Apart-chain}
use eter_os.Heap.FreeLists.{count, count-remove, count-add}
use eter_os.Heap.Valid.{IsValid, Loose, listed_self}

merge_next_free :
    (b n : Block) (after : List Block) (buckets : ℕ → List ℕ)
    → n.is_free ≡ true
    → ◌≡◌ {A = Block × List Block × (ℕ → List ℕ)} (merge_next b (n ∷ after) buckets) (
      record b { size = b.size + (header_size + n.size) },
      after,
      remove_from_free_list n buckets,
    )
unfolding merge_next
merge_next_free b n after buckets free = if_true _ _ free

merge_next_busy :
    (b n : Block) (after : List Block) (buckets : ℕ → List ℕ)
    → n.is_free ≡ false
    → ◌≡◌ {A = Block × List Block × (ℕ → List ℕ)}
        (merge_next b (n ∷ after) buckets)
        (b, n ∷ after, buckets)
unfolding merge_next
merge_next_busy b n after buckets busy = if_false _ _ busy

merge_prev_busy :
    (p : Block) (before : List Block) (b : Block) (buckets : ℕ → List ℕ)
    → p.is_free ≡ false
    → ◌≡◌ {A = List Block × Block × (ℕ → List ℕ)}
        (merge_prev (p ∷ before) b buckets)
        (p ∷ before, b, buckets)
unfolding merge_prev
merge_prev_busy p before b buckets busy = if_false _ _ busy

merge_prev_free :
    (p : Block) (before : List Block) (b : Block) (buckets : ℕ → List ℕ)
    → p.is_free ≡ true
    → ◌≡◌ {A = List Block × Block × (ℕ → List ℕ)} (merge_prev (p ∷ before) b buckets) (
      before,
      record p { size = p.size + (header_size + b.size) },
      remove_from_free_list p buckets,
    )
unfolding merge_prev
merge_prev_free p before b buckets free = if_true _ _ free

module _ {start end u : ℕ} where
  pub merge_next-Loose :
      {before : List Block} {b : Block} (after : List Block) {buckets : ℕ → List ℕ}
      → Loose start end u before b after buckets
      → let (b', after', buckets') = merge_next b after buckets in
        Loose start end u before b' after' buckets' × (head_free after' ≡ false)
  unfolding merge_next
  merge_next-Loose [] l = (l, refl)
  merge_next-Loose {before} {b} (n ∷ after) {buckets} l = elim (Bool-cases n.is_free) [
    | inr busy ↦
        subst (λ r. Loose start end u before r.0 r.1 r.2 × (head_free r.1 ≡ false))
          (sym (merge_next_busy b n after buckets busy)) (l, busy)
    | inl free ↦
        let (at_b, big, (at_n, big', tail)) = l.tail in
        let k = get_bucket_index n.size in
        let present : 1 ≤ count n.addr (buckets k) =
          omega (arith, l.lists k n.addr, listed_self n free) in
        let end_of : b.addr + header_size + b.size + header_size + n.size
            ≡ b.addr + header_size + (b.size + (header_size + n.size)) =
          omega arith in
        subst (λ r. Loose start end u before r.0 r.1 r.2 × (head_free r.1 ≡ false))
          (sym (merge_next_free b n after buckets free))
          (
            record {
              back = l.back;
              tail = (refl, omega (arith, big), rw end_of at tail);
              free = l.free;
              front = l.front;
              rest = l.rest.1;
              used = ground (arith, l.used);
              aligned = omega (arith, l.aligned);
              lists = λ k a. omega (arith, l.lists k a, count-remove n buckets k a free present);
            },
            ground (arith, l.rest.0),
          )
  ]

  pub merge_prev-Loose :
      (before : List Block) {b : Block} {after : List Block} {buckets : ℕ → List ℕ}
      → Loose start end u before b after buckets
      → let (before', b', buckets') = merge_prev before b buckets in
        Loose start end u before' b' after buckets' × (head_free before' ≡ false)
  unfolding merge_prev
  merge_prev-Loose [] l = (l, refl)
  merge_prev-Loose (p ∷ before) {b} {after} {buckets} l = elim (Bool-cases p.is_free) [
    | inr busy ↦
        subst (λ r. Loose start end u r.0 r.1 after r.2 × (head_free r.0 ≡ false))
          (sym (merge_prev_busy p before b buckets busy)) (l, busy)
    | inl free ↦
        let (at_b, big, tail) = l.tail in
        let (end_p, big', back) = l.back in
        let k = get_bucket_index p.size in
        let present : 1 ≤ count p.addr (buckets k) =
          omega (arith, l.lists k p.addr, listed_self p free) in
        let end_of : b.addr + header_size + b.size
            ≡ p.addr + header_size + (p.size + (header_size + b.size)) =
          omega (arith, end_p) in
        subst (λ r. Loose start end u r.0 r.1 after r.2 × (head_free r.0 ≡ false))
          (sym (merge_prev_free p before b buckets free))
          (
            record {
              back = back;
              tail = (refl, omega (arith, big), rw end_of at tail);
              free = free;
              front = l.front.1;
              rest = l.rest;
              used = ground (arith, l.used);
              aligned = omega (arith, l.aligned);
              lists = λ k a. omega (arith, l.lists k a, count-remove p buckets k a free present);
            },
            ground (arith, l.front.0),
          )
  ]

-- A free block that has no free neighbour goes back into its list.
pub put_back :
    (h : Heap) {u : ℕ} {before : List Block} {b : Block} {after : List Block} {buckets : ℕ → List ℕ}
    → Loose h.heap_start (h.heap_start + h.memory_total) u before b after buckets
    → head_free before ≡ false
    → head_free after ≡ false
    → IsValid (record h {
      blocks = chain before (b ∷ after);
      free_buckets = add_to_free_list b buckets;
      memory_used = u;
    })
put_back h {u} {before} {b} {after} {buckets} l front rest = record {
  tiles =
      Tiles-chain h.heap_start b.addr (h.heap_start + h.memory_total) before (b ∷ after) l.back
        l.tail;
  apart =
      Apart-chain before (b ∷ after) l.front (ground (arith, rest), l.rest) (ground (arith, front));
  used = ground (arith, l.used, total-chain used_bytes before (b ∷ after), l.free);
  aligned = omega (arith, l.aligned, total-chain skew before (b ∷ after));
  lists = λ k a.
      omega
        (arith, l.lists k a, count-add b buckets k a, total-chain (listed k a) before (b ∷ after));
}
