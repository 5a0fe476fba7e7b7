-- ===== src/Shm/Write.antt =====
-- `shmfs_write` of kernel/fs/shmfs.c against the contents of the object.
use eter_os.Base.{ℕ, ◌+◌, ◌-◌, ◌≤◌, ◌<◌, ◌≡◌, ◌≢◌, List, min, ◌⊎◌}
use eter_os.Pmm.{page_size}
use eter_os.Shm.{Ram, Object, page_addr}
use eter_os.Shm.Contents.{byte_at}
use eter_os.Shm.Store.{patched}

-- An address that lies in no page of the object.
abbrev pub Outside : List ℕ → ℕ → Type 0
Outside pages a =
    (i : ℕ) → page_addr pages i ≢ 0 → (a < page_addr pages i) ⊎ (page_addr pages i + page_size ≤ a)

-- What a write does: it reports as many bytes as were given or as the object has from `offset` on,
-- stores those of them whose page is there, and changes no other memory.
pub record Writes (obj : Object) (buffer : ℕ → ℕ) (offset size : ℕ) (ram : Ram) (r : ℕ × Ram)
    : Type 0 where
  pub count : r.0 ≡ min size (obj.size - offset)
  pub contents :
      (i : ℕ)
      → byte_at obj.pages r.1 i
        ≡ patched obj.pages ram (λ j. buffer (j - offset)) offset (offset + r.0) i
  pub others : (a : ℕ) → Outside obj.pages a → r.1 a ≡ ram a
