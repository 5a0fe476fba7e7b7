-- ===== src/Heap/Divide.antt =====
-- The split of kernel/mm/heap.c: the free block that `kmalloc` takes and what is left of it.
use eter_os.Base.{
  ℕ, ◌+◌, ◌-◌, ◌%◌, ◌≤◌, ◌<◌, ◌≡◌, refl, true, false, List, [], ◌∷◌, ◌++◌, arith, sym, subst,
  dec_le, leb, if_true, if_false,
}
use eter_os.Heap.{
  Block, Heap, Place, header_size, node_size, chain, split, grant, remove_from_free_list, add_all,
}
use eter_os.Heap.Blocks.{
  total, total-chain, used_bytes, skew, listed, Tiles, Tiles-chain, head_free, Apart, Apart-chain,
}
use eter_os.Heap.FreeLists.{count-add_all}
use eter_os.Heap.Valid.{IsValid, Loose}

-- The block `used`, with `rest` behind it, takes the place of the free block `b`.
pub record Divides (b used : Block) (rest : List Block) : Type 0 where
  pub same_addr : used.addr ≡ b.addr
  pub busy : used.is_free ≡ false
  pub enough : 16 ≤ used.size
  pub rest_aligned : total skew rest ≡ 0
  pub rest_used : total used_bytes rest ≡ 0
  pub tiling :
      (after : List Block) (end : ℕ)
      → Tiles (b.addr + header_size + b.size) after end
      → Tiles (used.addr + header_size + used.size) (rest ++ after) end
  pub total_rest :
      (f : Block → ℕ) (after : List Block) → total f (rest ++ after) ≡ total f rest + total f after
  pub apart : (after : List Block) → Apart after → head_free after ≡ false → Apart (rest ++ after)

split_big :
    (n : ℕ) (b : Block)
    → n + header_size + node_size ≤ b.size
    → ◌≡◌ {A = Block × List Block} (split n b) (
      record { addr = b.addr; size = n; is_free = false },
      record { addr = b.addr + header_size + n; size = b.size - n - header_size; is_free = true }
          ∷ [],
    )
unfolding split
split_big n b h = if_true {b = leb (n + header_size + node_size) b.size} _ _ (ground arith)

split_small :
    (n : ℕ) (b : Block)
    → b.size < n + header_size + node_size
    → ◌≡◌ {A = Block × List Block} (split n b) (record b { is_free = false }, [])
unfolding split
split_small n b h = if_false {b = leb (n + header_size + node_size) b.size} _ _ (ground arith)

pub split-Divides :
    (n : ℕ) (b : Block)
    → 16 ≤ n
    → n % 8 ≡ 0
    → skew b ≡ 0
    → n ≤ b.size
    → Divides b (split n b).0 (split n b).1 × (n ≤ (split n b).0.size)
split-Divides n b enough even straight fits = elim (dec_le (n + header_size + node_size) b.size) [
  | yes big ↦
      let size : b.addr + header_size + n + header_size + (b.size - n - header_size)
          ≡ b.addr + header_size + b.size =
        omega (arith, big) in
      subst (λ r. Divides b r.0 r.1 × (n ≤ r.0.size)) (sym (split_big n b big))
        (
          record {
            same_addr = refl;
            busy = refl;
            enough = enough;
            rest_aligned = omega (arith, even, straight);
            rest_used = omega arith;
            tiling = λ after end t. (refl, omega (arith, big), rw size t);
            total_rest = λ f after. omega arith;
            apart = λ after a front. (ground (arith, front), a);
          },
          omega arith,
        )
  | no small ↦
      subst (λ r. Divides b r.0 r.1 × (n ≤ r.0.size)) (sym (split_small n b (omega (arith, small))))
        (
          record {
            same_addr = refl;
            busy = refl;
            enough = omega (arith, enough, fits);
            rest_aligned = refl;
            rest_used = refl;
            tiling = λ after end t. t;
            total_rest = λ f after. omega arith;
            apart = λ after a front. a;
          },
          fits,
        )
]

divided-IsValid :
    (h : Heap) (p : Place) (used : Block) (rest : List Block)
    → Divides p.block used rest
    → Loose h.heap_start
        (h.heap_start + h.memory_total)
        h.memory_used
        p.before
        p.block
        p.after
        (remove_from_free_list p.block h.free_buckets)
    → head_free p.after ≡ false
    → IsValid (record h {
      blocks = chain p.before (used ∷ rest ++ p.after);
      free_buckets = add_all rest (remove_from_free_list p.block h.free_buckets);
      memory_used = h.memory_used + (used.size + header_size);
    })
divided-IsValid h p used rest d l front =
    let (at_b, big, tail) = l.tail in
    record {
      tiles =
          Tiles-chain h.heap_start p.block.addr (h.heap_start + h.memory_total) p.before
            ((used ∷ rest) ++ p.after) l.back
            (
              d.same_addr,
              d.enough,
              subst
                  (λ a.
                    Tiles (a + header_size + used.size) (rest ++ p.after)
                      (h.heap_start + h.memory_total))
                  d.same_addr (d.tiling p.after _ tail),
            );
      apart =
          Apart-chain p.before ((used ∷ rest) ++ p.after) l.front
            (ground (arith, d.busy), d.apart p.after l.rest front) (ground (arith, d.busy));
      used = ground (
        arith,
        l.used,
        d.busy,
        d.rest_used,
        d.total_rest used_bytes p.after,
        total-chain used_bytes p.before ((used ∷ rest) ++ p.after),
      );
      aligned = omega (
        arith,
        l.aligned,
        d.same_addr,
        d.rest_aligned,
        d.total_rest skew p.after,
        total-chain skew p.before ((used ∷ rest) ++ p.after),
      );
      lists = λ k a. ground (
        arith,
        l.lists k a,
        d.busy,
        d.total_rest (listed k a) p.after,
        total-chain (listed k a) p.before ((used ∷ rest) ++ p.after),
        count-add_all rest (remove_from_free_list p.block h.free_buckets) k a,
      );
    }

pub grant-IsValid :
    (h : Heap) (n : ℕ) (p : Place)
    → Loose h.heap_start
        (h.heap_start + h.memory_total)
        h.memory_used
        p.before
        p.block
        p.after
        (remove_from_free_list p.block h.free_buckets)
    → head_free p.after ≡ false
    → 16 ≤ n
    → n % 8 ≡ 0
    → n ≤ p.block.size
    → IsValid (grant n p h)
unfolding grant
grant-IsValid h n p l front enough even fits =
    divided-IsValid h p (split n p.block).0 (split n p.block).1
      (split-Divides n p.block enough even (omega (arith, l.aligned)) fits).0 l front
