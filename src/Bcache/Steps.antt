-- ===== src/Bcache/Steps.antt =====
-- Every operation of kernel/fs/bcache.c keeps the cache in step with the disk.
use eter_os.Base.{
  ℕ, ◌-◌, ◌^◌, ◌<◌, ◌≡◌, refl, ◌≢◌, ◌⊎◌, inl, inr, true, false, none, some, List, set, length,
  add64, arith, Option-cases, ap,
}
use eter_os.Bcache.{Entry, Bcache, hits, find_hit, find_victim, read, write, invalidate}
use eter_os.Bcache.Lookup.{
  at, find_hit-none, find_hit-at, AllValid, NotBelow, find_victim-some, find_victim-none,
}
use eter_os.Bcache.Coherence.{Disk, put, Tracks, only, Tracks-weaken, Tracks-write, Tracks-put}

-- An entry that holds the sector keeps its name and validity under a write.
stored_entry :
    {vol sec now : ℕ} {buffer : List ℕ} (e : Entry)
    → hits vol sec e ≡ true
    → record e { bytes = buffer; last_access = now }
      ≡ record { volume_id = vol; sector = sec; bytes = buffer; valid = true; last_access = now }
unfolding hits
stored_entry e h = ground arith

module _ (vol sec : ℕ) (c : Bcache) where
  -- `bcache_read` returns the data of the disk or misses, and keeps the cache in step.
  pub read-Tracks : {d : Disk} → Tracks d c.entries → Tracks d (read vol sec c).1.entries
  unfolding hits read
  read-Tracks t = elim (Option-cases (find_hit vol sec c.entries 0)) [
    | inl e ↦ rw (e, read) t
    | inr (j, e) ↦
        let (lt, h) = find_hit-at vol sec c.entries e in
        rw (e, read) (Tracks-weaken t j _ lt (λ v s g. g) refl)
  ]

  pub read_hit :
      {d : Disk}
      → Tracks d c.entries
      → ((read vol sec c).0 ≡ none) ⊎ ((read vol sec c).0 ≡ some (d vol sec))
  unfolding read
  read_hit t = elim (Option-cases (find_hit vol sec c.entries 0)) [
    | inl e ↦ inl (rw (e, read) refl)
    | inr (j, e) ↦
        let (lt, h) = find_hit-at vol sec c.entries e in
        inr (rw (e, read) (ap some (t.holds vol sec j lt h)))
  ]

  pub invalidate-Tracks : {d : Disk} → Tracks d c.entries → Tracks d (invalidate vol sec c).entries
  unfolding hits invalidate
  invalidate-Tracks t = elim (Option-cases (find_hit vol sec c.entries 0)) [
    | inl e ↦ rw (e, invalidate) t
    | inr (j, e) ↦
        let (lt, h) = find_hit-at vol sec c.entries e in
        rw (e, invalidate) (Tracks-weaken t j _ lt (λ v s g. cc) refl)
  ]

  -- What a write does: it overwrites the entry that holds the sector, or else an invalid entry, or
  -- else one that was accessed least recently; or all access numbers are used up.
  pub record Writes (buffer : List ℕ) (c' : Bcache) (j : ℕ) : Type 0 where
    pub inside : j < length c.entries
    pub stored :
        c'.entries
        ≡ set c.entries j (record {
          volume_id = vol;
          sector = sec;
          bytes = buffer;
          valid = true;
          last_access = add64 c.access_counter 1;
        })
    pub others : (i : ℕ) → i < length c.entries → i ≢ j → hits vol sec (at c.entries i) ≡ false
    pub place :
        (hits vol sec (at c.entries j) ≡ true)
        ⊎ ((at c.entries j).valid ≡ false)
        ⊎ (AllValid c.entries × NotBelow (at c.entries j).last_access c.entries)

  write_hit :
      {d : Disk} (buffer : List ℕ) (j : ℕ)
      → Tracks d c.entries
      → find_hit vol sec c.entries 0 ≡ some j
      → Writes buffer (write vol sec buffer c) j
  unfolding write
  write_hit buffer j t e =
      let (lt, h) = find_hit-at vol sec c.entries e in
      record {
        inside = lt;
        stored = rw (e, write) (ap (set c.entries j) (stored_entry (at c.entries j) h));
        others = λ i l ne. only t vol sec j i lt h l ne;
        place = inl h;
      }

  write_miss :
      (buffer : List ℕ) (j : ℕ)
      → find_hit vol sec c.entries 0 ≡ none
      → find_victim c.entries 0 none (2 ^ 64 - 1) ≡ some j
      → Writes buffer (write vol sec buffer c) j
  unfolding write
  write_miss buffer j e f =
      let (lt, place) = find_victim-some c.entries (2 ^ 64 - 1) f in
      record {
        inside = lt;
        stored = rw (e, write) (rw (f, write) refl);
        others = λ i l ne. find_hit-none vol sec c.entries 0 e i l;
        place = inr place;
      }

  pub write_cases :
      {d : Disk} (buffer : List ℕ)
      → Tracks d c.entries
      → ((j : ℕ) × Writes buffer (write vol sec buffer c) j)
        ⊎ ((write vol sec buffer c ≡ c)
            × NotBelow (2 ^ 64 - 1) c.entries
            × ((i : ℕ) → i < length c.entries → hits vol sec (at c.entries i) ≡ false))
  unfolding write
  write_cases buffer t = elim (Option-cases (find_hit vol sec c.entries 0)) [
    | inr (j, e) ↦ inl (j, write_hit buffer j t e)
    | inl e ↦ elim (Option-cases (find_victim c.entries 0 none (2 ^ 64 - 1))) [
      | inr (j, f) ↦ inl (j, write_miss buffer j e f)
      | inl f ↦ inr (
        rw (e, write) (rw (f, write) refl),
        find_victim-none c.entries _ f,
        find_hit-none vol sec c.entries 0 e,
      )
    ]
  ]

  pub write-Tracks :
      (buffer : List ℕ) {d : Disk}
      → Tracks d c.entries
      → Tracks (put d vol sec buffer) (write vol sec buffer c).entries
  unfolding hits
  write-Tracks buffer t = elim (write_cases buffer t) [
    | inl (j, w) ↦
        rw w.stored
          (Tracks-write t vol sec buffer j _ w.inside w.others (λ v s g. ground arith) refl)
    | inr (same, full, miss) ↦ rw same (Tracks-put t vol sec buffer miss)
  ]
