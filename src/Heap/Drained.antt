-- ===== src/Heap/Drained.antt =====
-- A heap of kernel/mm/heap.c from which everything has been freed.
use eter_os.Base.{ℕ, ◌+◌, ◌<◌, ◌≡◌, ◌∙◌, List, [], ◌∷◌, arith, ap, ap₂, sym}
use eter_os.Pmm.{Pmm}
use eter_os.Pmm.Init.{E820Entry}
use eter_os.Heap.{Block, Heap}
use eter_os.Heap.Blocks.{total, used_bytes, Tiles, Apart}
use eter_os.Heap.Api.{initial_block, initial_heap, mm_init}
use eter_os.Heap.Reach.{Reach, Reach-Same, mm_init-Reach, heap_region-Usable}

Block-ext : {b c : Block} → b.addr ≡ c.addr → b.size ≡ c.size → b.is_free ≡ c.is_free → b ≡ c
Block-ext p q r = λ i. record { addr = p i; size = q i; is_free = r i }

-- Where no block is in use, the heap is one block, since free ones are no neighbours.
one_block :
    (start size : ℕ) (bs : List Block)
    → 0 < size
    → Tiles start bs (start + size)
    → Apart bs
    → total used_bytes bs ≡ 0
    → bs ≡ initial_block start size ∷ []
unfolding initial_block
one_block start size [] pos t a u = absurd (omega (arith, t, pos))
one_block start size (b ∷ []) pos (e, s, t) a u =
    ap (λ c. c ∷ []) (Block-ext e (omega (arith, t)) (ground arith))
one_block start size (b ∷ c ∷ bs) pos (e, s, t) (f, a) u = absurd (ground arith)

-- After `mm_init` and any calls, once no memory is in use the heap is one free block again, as large
-- as at the start: nothing is lost to fragments.
pub drained :
    (kernel_end : ℕ) (map : List E820Entry) (p : Pmm) {h : Heap}
    → Reach (mm_init kernel_end map p).0 h
    → h.memory_used ≡ 0
    → h.blocks ≡ (mm_init kernel_end map p).0.blocks
unfolding mm_init initial_heap
drained kernel_end map p {h} r empty =
    let v = mm_init-Reach kernel_end map p r in
    let (start, size) = Reach-Same r in
    one_block h.heap_start h.memory_total h.blocks
      (omega (arith, size, heap_region-Usable kernel_end map)) v.tiles v.apart (sym v.used ∙ empty)
    ∙ ap₂ (λ s t. initial_block s t ∷ []) start size
