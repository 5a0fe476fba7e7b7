-- ===== src/Shm/Store.antt =====
-- One round of `shmfs_write` of kernel/fs/shmfs.c against the contents of the object.
use eter_os.Base.{
  ℕ, ◌+◌, ◌-◌, ◌*◌, ◌/◌, ◌%◌, ◌≤◌, ◌<◌, ◌≡◌, ◌≢◌, refl, ◌∙◌, true, false, ◌&&◌, List, ltb, leb,
  ◌==◌, if◌then◌else◌, arith, ap, sym, Bool-cases, inl, inr, if_true, if_false, ℕ_discrete,
}
use eter_os.Pmm.{page_size}
use eter_os.Shm.{Ram, store, page_addr}
use eter_os.Shm.Contents.{byte_at}

-- The pages of an object are frames, and no two of them are the same.
pub record Framed (pages : List ℕ) : Type 0 where
  pub aligned : (i : ℕ) → page_addr pages i % page_size ≡ 0
  pub distinct : (i j : ℕ) → page_addr pages i ≢ 0 → page_addr pages i ≡ page_addr pages j → i ≡ j

-- The byte at `i` once those of `source` have been stored from `start` to `end`. A byte of a page
-- that is missing stays 0.
unfoldable pub patched : List ℕ → Ram → (source : ℕ → ℕ) → (start end i : ℕ) → ℕ
patched pages ram source start end i =
    if page_addr pages (i / page_size) == 0
    then 0
    else if leb start i && ltb i end
    then source i
    else byte_at pages ram i

-- `patched` with the two cases as equations.
module _ (pages : List ℕ) (ram : Ram) (source : ℕ → ℕ) (start end i : ℕ) where
  patched_missing :
      (page_addr pages (i / page_size) == 0) ≡ true → patched pages ram source start end i ≡ 0
  unfolding patched
  patched_missing z = if_true _ _ z

  patched_present :
      (page_addr pages (i / page_size) == 0) ≡ false
      → patched pages ram source start end i
        ≡ (if leb start i && ltb i end then source i else byte_at pages ram i)
  unfolding patched
  patched_present z = if_false _ _ z

pub patched_empty :
    (pages : List ℕ) (ram : Ram) (source : ℕ → ℕ) (start end i : ℕ)
    → end ≤ start
    → byte_at pages ram i ≡ patched pages ram source start end i
unfolding patched byte_at
patched_empty pages ram source start end i h = ground arith

pub patched-patched :
    (pages : List ℕ) (ram ram' : Ram) (source : ℕ → ℕ) (start mid end i : ℕ)
    → start ≤ mid
    → mid ≤ end
    → byte_at pages ram' i ≡ patched pages ram source start mid i
    → patched pages ram' source mid end i ≡ patched pages ram source start end i
unfolding patched
patched-patched pages ram ram' source start mid end i h h' e = ground arith

pub store_inside :
    (ram : Ram) (addr n : ℕ) (buffer : ℕ → ℕ) (a : ℕ)
    → addr ≤ a
    → a < addr + n
    → store ram addr n buffer a ≡ buffer (a - addr)
unfolding store
store_inside ram addr n buffer a h h' = ground arith

pub store_outside :
    (ram : Ram) (addr n : ℕ) (buffer : ℕ → ℕ) (a : ℕ)
    → ¬ ((addr ≤ a) × (a < addr + n))
    → store ram addr n buffer a ≡ ram a
unfolding store
store_outside ram addr n buffer a h = ground arith

-- One round stores within one page.
module _ (pages : List ℕ) (ram : Ram) (source buffer : ℕ → ℕ) (page_idx page_off n : ℕ)
    (f : Framed pages) (there : page_addr pages page_idx ≢ 0) (h : page_off + n ≤ page_size)
    (b : (k : ℕ) → k < n → buffer k ≡ source (page_idx * page_size + page_off + k)) where
  -- A byte of another page stays.
  store_other :
      (i : ℕ)
      → i / page_size ≢ page_idx
      → page_addr pages (i / page_size) ≢ 0
      → store ram
          (page_addr pages page_idx + page_off)
          n
          buffer
          (page_addr pages (i / page_size) + i % page_size)
        ≡ ram (page_addr pages (i / page_size) + i % page_size)
  store_other i other present =
      let apart : page_addr pages (i / page_size) ≢ page_addr pages page_idx =
        λ e. other (f.distinct _ _ present e) in
      let frame = f.aligned page_idx in
      let frame' = f.aligned (i / page_size) in
      store_outside _ _ _ _ _ (λ r. omega (arith, apart, frame, frame', h, r))

  store_same :
      (i : ℕ)
      → i / page_size ≡ page_idx
      → store ram
          (page_addr pages page_idx + page_off)
          n
          buffer
          (page_addr pages page_idx + i % page_size)
        ≡ (if leb (page_idx * page_size + page_off) i && ltb i (page_idx * page_size + page_off + n)
            then source i
            else ram (page_addr pages page_idx + i % page_size))
  store_same i same =
      elim (Bool-cases
        (leb (page_idx * page_size + page_off) i && ltb i (page_idx * page_size + page_off + n))) [
          | inl in_range ↦
              let k = i % page_size - page_off in
              let small : k < n = ground (arith, in_range) in
              let at : page_idx * page_size + page_off + k ≡ i = ground (arith, in_range) in
              let off : page_addr pages page_idx
                    + i % page_size
                    - (page_addr pages page_idx + page_off)
                  ≡ k =
                omega arith in
              store_inside _ _ _ _ _ (ground (arith, in_range)) (omega (arith, small))
              ∙ ap buffer off
              ∙ b k small
              ∙ ap source at
              ∙ sym (if_true _ _ in_range)
          | inr out ↦ store_outside _ _ _ _ _ (λ r. ground (arith, out, r)) ∙ sym (if_false _ _ out)
        ]

  pub store-patched :
      (i : ℕ)
      → byte_at pages (store ram (page_addr pages page_idx + page_off) n buffer) i
        ≡ patched pages ram source
            (page_idx * page_size + page_off)
            (page_idx * page_size + page_off + n)
            i
  unfolding patched byte_at
  store-patched i = elim (ℕ_discrete (i / page_size) page_idx) [
    | yes same ↦ rw same (ground (arith, store_same i same, there))
    | no other ↦ elim (Bool-cases (page_addr pages (i / page_size) == 0)) [
      | inl missing ↦ rw missing refl
      | inr present ↦ rw present (ground (arith, store_other i other))
    ]
  ]
