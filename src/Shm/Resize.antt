-- ===== src/Shm/Resize.antt =====
-- `shmfs_truncate` of kernel/fs/shmfs.c against the contents of the object and the frames.
use eter_os.Base.{
  ℕ, ◌+◌, ◌-◌, ◌/◌, ◌^◌, ◌≤◌, ◌<◌, subst, ◌≡◌, refl, ◌∙◌, ◌⊎◌, Bool, true, false, List, length,
  drop, ltb, if◌then◌else◌, arith, sym, Bool-cases, inl, inr, if_true, length-take, ltb→lt,
}
use eter_os.Pmm.{page_size}
use eter_os.Pmm.Accounting.{IsValid}
use eter_os.Shm.{
  Ram, Object, Machine, page_addr, count_pages, Truncated, done, no_memory, shmfs_truncate,
}
use eter_os.Shm.Contents.{byte_at}
use eter_os.Shm.Grow.{Owns, page_addr_end, grow-Grows}
use eter_os.Shm.Shrink.{take-Owns, free_pages_zero, byte_at-take, free_pages-IsValid}

-- Behind the old pages there are no bytes.
grown_bytes :
    (n : ℕ) (pages : List ℕ) (ram : Ram) (i : ℕ)
    → length pages < n
    → byte_at pages ram i ≡ (if ltb (i / page_size) n then byte_at pages ram i else 0)
unfolding byte_at
grown_bytes n pages ram i h = elim (Bool-cases (ltb (i / page_size) n)) [
  | inl small ↦ sym (if_true _ _ small)
  | inr large ↦
      let missing : page_addr pages (i / page_size) ≡ 0 =
        page_addr_end pages _ (ground (arith, large)) in
      rw (missing, large) refl
]

-- What a change of the size does. Either the object has its new size and `n` pages, and all bytes that are within the old pages and the new ones are as they were, while all
-- others are 0; or `kmalloc` found no memory, and nothing changes. In both cases the object owns its
-- pages.
pub record Truncates (n : ℕ) (array : Bool) (new_length : ℕ) (obj : Object) (m : Machine)
    (r : Truncated × Object × Machine) : Type 0 where
  pub outcome :
      ((r.0 ≡ done)
        × (r.1.size ≡ new_length)
        × (length r.1.pages ≡ n)
        × ((i : ℕ)
            → byte_at r.1.pages r.2.ram i
              ≡ (if ltb (i / page_size) n then byte_at obj.pages m.ram i else 0)))
      ⊎ ((array ≡ false) × (r ≡ (no_memory, obj, m)))
  pub owns : Owns r.1.pages r.2.pmm
  pub valid : IsValid r.2.pmm
  pub used : r.2.pmm.bitmap 0 ≡ true

truncate_lem :
    (locked array : Bool) (new_length : ℕ) (obj : Object) (m : Machine)
    → IsValid m.pmm
    → m.pmm.bitmap 0 ≡ true
    → Owns obj.pages m.pmm
    → Truncates
        (count_pages new_length)
        array
        new_length
        obj
        m
        (shmfs_truncate locked array new_length obj m)
unfolding shmfs_truncate
truncate_lem locked array new_length obj m v used o =
    let n = count_pages new_length in
    let k = length obj.pages in
    elim (Bool-cases (ltb k n)) [
      | inl more ↦ elim (Bool-cases array) [
        | inl memory ↦
            let g = grow-Grows locked (n - k) obj.pages m v used o in
            rw (more, memory)
              (record {
                outcome = inl (
                  refl,
                  refl,
                  omega (arith, g.longer, ltb→lt k n more),
                  λ i. g.contents i ∙ grown_bytes n obj.pages m.ram i (ltb→lt k n more),
                );
                owns = g.owns;
                valid = g.valid;
                used = g.used;
              })
        | inr full ↦
            rw (more, full)
              (record { outcome = inr (refl, refl); owns = o; valid = v; used = used })
      ]
      | inr less ↦ rw less (record {
        outcome = inl (
          refl,
          refl,
          length-take n obj.pages ∙ ground (arith, less),
          byte_at-take n obj.pages m.ram,
        );
        owns = take-Owns n o;
        valid = free_pages-IsValid (drop n obj.pages) v;
        used = free_pages_zero n o used;
      })
    ]

count_pages_lem : (n : ℕ) → n + page_size ≤ 2 ^ 32 → count_pages n ≡ (n + 4095) / 4096
unfolding count_pages
count_pages_lem n h = omega (arith, h)

-- Where the manager of the frames is valid, frame 0 is in use, the object owns its pages, and the new
-- size is 4 GiB less a page at most, a change of the size either is refused for want of memory and
-- changes nothing, or gives the object the new size and as many pages of 4096 bytes as cover it: the
-- bytes within the old pages and the new ones stay, and all others are 0. In both cases the pages are
-- different frames in use afterwards.
pub shmfs_truncate-Truncates :
    (locked array : Bool) (new_length : ℕ) (obj : Object) (m : Machine)
    → new_length + page_size ≤ 2 ^ 32
    → IsValid m.pmm
    → m.pmm.bitmap 0 ≡ true
    → Owns obj.pages m.pmm
    → Truncates
        ((new_length + 4095) / 4096)
        array
        new_length
        obj
        m
        (shmfs_truncate locked array new_length obj m)
shmfs_truncate-Truncates locked array new_length obj m small v used o =
    subst (λ n. Truncates n array new_length obj m (shmfs_truncate locked array new_length obj m))
      (count_pages_lem new_length small) (truncate_lem locked array new_length obj m v used o)
