-- ===== src/Heap.antt =====
-- kernel/mm/heap.c: `kmalloc` and `kfree`.
--
-- The chain of block headers through `next` and `prev` is a list of blocks, and each free list, with
-- its links inside the free blocks, a list of addresses. A header is found by its address, which
-- stands for its magic number, which no user of the heap overwrites; whether the footer of a block
-- that is freed still has its magic number is an argument of `kfree`. No sum of sizes here reaches
-- 2^64, since `kmalloc` refuses a size that is larger than the heap. `mm_init` has run, and the lock
-- makes each call atomic.
pub mod Blocks
pub mod FreeLists
pub mod Valid
pub mod Merge
pub mod Search
pub mod Divide
pub mod Grant
pub mod Release
pub mod Api
pub mod Reach
pub mod Drained
mod Tests
use eter_os.Base.{
  ℕ, zero, suc, ◌+◌, ◌-◌, ◌*◌, ◌/◌, ◌^◌, Bool, true, false, not, ◌&&◌, ◌||◌, Option, none, some,
  List, [], ◌∷◌, ◌++◌, ◌==◌, ltb, leb, if◌then◌else◌, update,
}

-- `sizeof(block_header_t)` and `sizeof(free_node_t)`.
abbrev pub header_size : ℕ
header_size = 32

abbrev pub node_size : ℕ
node_size = 16

abbrev pub num_buckets : ℕ
num_buckets = 10

pub record Block : Type 0 where
  pub addr : ℕ
  pub size : ℕ
  pub is_free : Bool

pub record Heap : Type 0 where
  pub heap_start : ℕ
  pub blocks : List Block
  pub free_buckets : ℕ → List ℕ
  pub memory_used : ℕ
  pub memory_total : ℕ

unfoldable pub align : ℕ → ℕ
align n = let aligned = (n + 7) / 8 * 8 in if ltb aligned node_size then node_size else aligned

unfoldable pub get_bucket_index : ℕ → ℕ
get_bucket_index size =
    if leb size 32
    then 0
    else if leb size 64
    then 1
    else if leb size 128
    then 2
    else if leb size 256
    then 3
    else if leb size 512
    then 4
    else if leb size 1024
    then 5
    else if leb size 2048
    then 6
    else if leb size 4096
    then 7
    else if leb size 8192
    then 8
    else 9

-- The block goes to the head of its list.
unfoldable pub add_to_free_list : Block → (ℕ → List ℕ) → ℕ → List ℕ
add_to_free_list b buckets =
    let bucket = get_bucket_index b.size in
    if b.is_free then update buckets bucket (b.addr ∷ buckets bucket) else buckets

-- A list without the node of the block at `addr`.
unfoldable pub unlink : ℕ → List ℕ → List ℕ
unlink addr [] = []
unlink addr (a ∷ rest) = if a == addr then rest else a ∷ unlink addr rest

unfoldable pub remove_from_free_list : Block → (ℕ → List ℕ) → ℕ → List ℕ
unfolding unlink
remove_from_free_list b buckets =
    let bucket = get_bucket_index b.size in
    if b.is_free then update buckets bucket (unlink b.addr (buckets bucket)) else buckets

-- The blocks in front of one, the nearest first, the block, and the blocks behind it.
pub record Place : Type 0 where
  pub before : List Block
  pub block : Block
  pub after : List Block

-- The place of the header at `addr`.
unfoldable pub locate : ℕ → (before blocks : List Block) → Option Place
locate addr before [] = none
locate addr before (b ∷ bs) =
    let later = locate addr (b ∷ before) bs in
    if b.addr == addr then some (record { before = before; block = b; after = bs }) else later

-- All blocks in their order again.
unfoldable pub chain : (before blocks : List Block) → List Block
chain [] blocks = blocks
chain (b ∷ before) blocks = chain before (b ∷ blocks)

-- The loop over one free list for a block of at least `n` bytes.
unfoldable pub first_fit : List Block → (n : ℕ) → List ℕ → Option Place
unfolding locate
first_fit blocks n [] = none
first_fit blocks n (a ∷ rest) =
    let later = first_fit blocks n rest in
    elim (locate a [] blocks) [
      | none ↦ none
      | some p ↦ if p.block.is_free && leb n p.block.size then some p else later
    ]

-- The loop over the `fuel` lists from list `bucket` on.
unfoldable pub find_fit : Heap → (n fuel bucket : ℕ) → Option Place
unfolding first_fit
find_fit h n zero bucket = none
find_fit h n (suc fuel) bucket =
    let later = find_fit h n fuel (bucket + 1) in
    elim (first_fit h.blocks n (h.free_buckets bucket)) [ none ↦ later | some p ↦ some p ]

-- The block that is handed out, and the free one that may be split off behind it.
unfoldable pub split : ℕ → Block → Block × List Block
split n b =
    if leb (n + header_size + node_size) b.size
    then (
      record { addr = b.addr; size = n; is_free = false },
      record { addr = b.addr + header_size + n; size = b.size - n - header_size; is_free = true }
          ∷ [],
    )
    else (record b { is_free = false }, [])

unfoldable pub add_all : List Block → (ℕ → List ℕ) → ℕ → List ℕ
unfolding add_to_free_list
add_all [] buckets = buckets
add_all (b ∷ bs) buckets = add_all bs (add_to_free_list b buckets)

-- What `_kmalloc_impl` does with the block that fits.
unfoldable pub grant : ℕ → Place → Heap → Heap
unfolding chain split remove_from_free_list add_all
grant n p h =
    let (used, rest) = split n p.block in
    record h {
      blocks = chain p.before (used ∷ rest ++ p.after);
      free_buckets = add_all rest (remove_from_free_list p.block h.free_buckets);
      memory_used = h.memory_used + (used.size + header_size);
    }

-- `kmalloc`: the pointer, 0 for NULL, and the heap.
unfoldable pub kmalloc : ℕ → Heap → ℕ × Heap
unfolding align find_fit grant get_bucket_index
kmalloc size h =
    let n = align (size + 4) in
    let bucket = get_bucket_index n in
    if size == 0
    then (0, h)
    else if ltb (2 ^ 64 - 1 - 8 - header_size) size
    then (0, h)
    else if ltb h.memory_total size
    then (0, h)
    else elim (find_fit h n (num_buckets - bucket) bucket) [
      | none ↦ (0, h)
      | some p ↦ (p.block.addr + header_size, grant n p h)
    ]

-- The block with the next one, if that is free, and the blocks and the lists that are left.
unfoldable pub merge_next : Block → List Block → (ℕ → List ℕ) → Block × List Block × (ℕ → List ℕ)
unfolding remove_from_free_list
merge_next b [] buckets = (b, [], buckets)
merge_next b (n ∷ after) buckets =
    if n.is_free
    then (
      record b { size = b.size + (header_size + n.size) },
      after,
      remove_from_free_list n buckets,
    )
    else (b, n ∷ after, buckets)

-- The previous block, if that is free, with the block.
unfoldable pub merge_prev : List Block → Block → (ℕ → List ℕ) → List Block × Block × (ℕ → List ℕ)
unfolding remove_from_free_list
merge_prev [] b buckets = ([], b, buckets)
merge_prev (p ∷ before) b buckets =
    if p.is_free
    then (
      before,
      record p { size = p.size + (header_size + b.size) },
      remove_from_free_list p buckets,
    )
    else (p ∷ before, b, buckets)

-- `_kfree_impl` from the update of the block on.
unfoldable pub release : Place → Heap → Heap
unfolding merge_next merge_prev chain add_to_free_list
release p h =
    let freed = record p.block { is_free = true } in
    let (b, after, buckets) = merge_next freed p.after h.free_buckets in
    let (before, b', buckets') = merge_prev p.before b buckets in
    record h {
      blocks = chain before (b' ∷ after);
      free_buckets = add_to_free_list b' buckets';
      memory_used = h.memory_used - (p.block.size + header_size);
    }

-- `kfree` with what it reports.
pub data Freed : Type 0 where
  done out_of_bounds bad_magic double_free bad_footer : Freed

-- `footer` tells whether the footer of the block has its magic number.
unfoldable pub kfree : (footer : Bool) → ℕ → Heap → Freed × Heap
unfolding locate release
kfree footer ptr h =
    let block = ptr - header_size in
    if ptr == 0
    then (done, h)
    else if ltb ptr (h.heap_start + header_size) || leb (h.heap_start + h.memory_total) block
    then (out_of_bounds, h)
    else elim (locate block [] h.blocks) [
      | none ↦ (bad_magic, h)
      | some p ↦
          if p.block.is_free
          then (double_free, h)
          else if footer
          then (done, release p h)
          else (bad_footer, h)
    ]
