-- ===== src/Shm/Contents.antt =====
-- What a shared memory object of kernel/fs/shmfs.c contains, and what `shmfs_read` returns.
use eter_os.Base.{
  ℕ, zero, suc, ◌+◌, ◌/◌, ◌%◌, ◌^◌, ◌≤◌, ◌<◌, List, [], ◌∷◌, ◌==◌, if◌then◌else◌, arith,
}
use eter_os.Pmm.{page_size}
use eter_os.Shm.{Ram, page_addr, chunk}

-- The byte of the object at `i`, 0 where it has no page.
unfoldable pub byte_at : List ℕ → Ram → ℕ → ℕ
byte_at pages ram i =
    let page = page_addr pages (i / page_size) in
    if page == 0 then 0 else ram (page + i % page_size)

unfoldable pub slice : (ℕ → ℕ) → (start n : ℕ) → List ℕ
slice f start zero = []
slice f start (suc n) = f start ∷ slice f (start + 1) n

-- What one round needs to know of the positions.
pub chunk_lem :
    (page_off done size : ℕ)
    → size + page_size ≤ 2 ^ 32
    → done < size
    → page_off < page_size
    → (0 < chunk page_off done size)
      × (page_off + chunk page_off done size ≤ page_size)
      × (done + chunk page_off done size ≤ size)
unfolding chunk
chunk_lem page_off done size small more off = (ground arith, ground arith, ground arith)
