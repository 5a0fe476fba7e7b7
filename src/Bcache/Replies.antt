-- ===== src/Bcache/Replies.antt =====
-- What `bcache_read` answers after the other operations of kernel/fs/bcache.c.
use eter_os.Base.{
  ℕ, zero, suc, ◌-◌, ◌^◌, ◌<◌, ◌≡◌, refl, ◌∙◌, ◌≢◌, ◌⊎◌, inl, inr, true, false, none, some, List,
  [], ◌∷◌, map, get_or-set, set, length, length-set, arith, Option-cases, ℕ_discrete, ap, add64,
}
use eter_os.Bcache.{
  Entry, Bcache, cleared, hits, find_hit, forget, read, write, invalidate, invalidate_all, entry_at,
}
use eter_os.Bcache.Lookup.{at, find_hit-none, find_hit-at, AllValid, NotBelow}
use eter_os.Bcache.Coherence.{Disk, put, Tracks, only}
use eter_os.Bcache.Steps.{write-Tracks, write_cases}

module _ (vol sec : ℕ) (c : Bcache) where
  -- A sector that some entry holds is found.
  read_found :
      {d : Disk} (k : ℕ)
      → Tracks d c.entries
      → k < length c.entries
      → hits vol sec (at c.entries k) ≡ true
      → (read vol sec c).0 ≡ some (d vol sec)
  unfolding read
  read_found k t lt h = elim (Option-cases (find_hit vol sec c.entries 0)) [
    | inl e ↦ cc (find_hit-none vol sec c.entries 0 e k lt, h)
    | inr (j, e) ↦
        let (l, g) = find_hit-at vol sec c.entries e in
        rw (e, read) (ap some (t.holds vol sec j l g))
  ]

  read_missed :
      ((k : ℕ) → k < length c.entries → hits vol sec (at c.entries k) ≡ false)
      → (read vol sec c).0 ≡ none
  unfolding read
  read_missed miss = elim (Option-cases (find_hit vol sec c.entries 0)) [
    | inl e ↦ rw (e, read) refl
    | inr (j, e) ↦ let (l, g) = find_hit-at vol sec c.entries e in cc (miss j l, g)
  ]

put_self : (d : Disk) (vol sec : ℕ) (buffer : List ℕ) → put d vol sec buffer vol sec ≡ buffer
unfolding put
put_self d vol sec buffer = ground arith

hits_stored :
    (vol sec : ℕ) (buffer : List ℕ) (now : ℕ)
    → hits vol sec
        (record { volume_id = vol; sector = sec; bytes = buffer; valid = true; last_access = now })
      ≡ true
unfolding hits
hits_stored vol sec buffer now = ground arith

hits-forget : (vol sec : ℕ) (e : Entry) → hits vol sec (forget e) ≡ false
unfolding hits
hits-forget vol sec e = refl

pub hits-map : (vol sec : ℕ) (es : List Entry) (k : ℕ) → hits vol sec (at (map forget es) k) ≡ false
unfolding hits
hits-map vol sec [] k = refl
hits-map vol sec (e ∷ es) zero = refl
hits-map vol sec (e ∷ es) (suc k) = hits-map vol sec es k

at-set_ne :
    (es : List Entry) (j k : ℕ) (e : Entry) → j < length es → k ≢ j → at (set es j e) k ≡ at es k
at-set_ne es j k e lt p = ground (arith, get_or-set es j k e cleared lt)

at-set_self : (es : List Entry) (j : ℕ) (e : Entry) → j < length es → at (set es j e) j ≡ e
at-set_self es j e lt = ground (arith, get_or-set es j j e cleared lt)

module _ (vol sec : ℕ) (es : List Entry) (j k : ℕ) (e : Entry) (lt : j < length es) where
  hits-set_self : k ≡ j → hits vol sec (at (set es j e) k) ≡ hits vol sec e
  hits-set_self p = ap (hits vol sec) (ap (at (set es j e)) p ∙ at-set_self es j e lt)

  hits-set_ne : k ≢ j → hits vol sec (at (set es j e) k) ≡ hits vol sec (at es k)
  hits-set_ne p = ap (hits vol sec) (at-set_ne es j k e lt p)

module _ (vol sec : ℕ) (c : Bcache) {d : Disk} (t : Tracks d c.entries) where
  -- In a cache that tracks a disk, what was just written is found, where some entry has less than
  -- the largest access number.
  pub read-write :
      (buffer : List ℕ) (i : ℕ)
      → i < length c.entries
      → (at c.entries i).last_access < 2 ^ 64 - 1
      → (read vol sec (write vol sec buffer c)).0 ≡ some buffer
  read-write buffer i lt small = elim (write_cases vol sec c buffer t) [
    | inr (same, full, miss) ↦ absurd (omega (arith, full i lt))
    | inl (j, w) ↦
        read_found vol sec (write vol sec buffer c) j (write-Tracks vol sec c buffer t)
          (rw (w.stored, length-set) w.inside)
          (rw w.stored
            (hits-set_self vol sec c.entries j j _ w.inside refl ∙ hits_stored vol sec buffer _))
        ∙ ap some (put_self d vol sec buffer)
  ]

  -- In a cache that tracks a disk, the sector is not found after `bcache_invalidate`.
  pub read-invalidate : (read vol sec (invalidate vol sec c)).0 ≡ none
  unfolding invalidate
  read-invalidate = elim (Option-cases (find_hit vol sec c.entries 0)) [
    | inl e ↦ rw (e, invalidate) (read_missed vol sec c (find_hit-none vol sec c.entries 0 e))
    | inr (j, e) ↦
        let (lt, h) = find_hit-at vol sec c.entries e in
        rw (e, invalidate)
          (read_missed vol sec _ (λ k l. elim (ℕ_discrete k j) [
            | yes p ↦
                hits-set_self vol sec c.entries j k _ lt p ∙ hits-forget vol sec (entry_at c j)
            | no p ↦
                hits-set_ne vol sec c.entries j k _ lt p
                ∙ only t vol sec j k lt h (rw length-set at l) p
          ]))
  ]

-- After `bcache_invalidate_all` with the lock free nothing is found.
pub read-invalidate_all :
    (vol sec : ℕ) (c : Bcache) → (read vol sec (invalidate_all false c)).0 ≡ none
unfolding invalidate_all
read-invalidate_all vol sec c = read_missed vol sec _ (λ k l. hits-map vol sec c.entries k)

-- On a miss in a full cache that tracks a disk, where some entry has less than the largest access
-- number, a write gives one entry, which was accessed least recently, the sector and its bytes, and
-- changes no other.
pub write_evicts :
    (vol sec : ℕ) (buffer : List ℕ) (c : Bcache) {d : Disk}
    → Tracks d c.entries
    → AllValid c.entries
    → (read vol sec c).0 ≡ none
    → (i : ℕ) → i < length c.entries
    → (at c.entries i).last_access < 2 ^ 64 - 1
    → (j : ℕ) × (j < length c.entries)
      × NotBelow (at c.entries j).last_access c.entries
      × (at (write vol sec buffer c).entries j ≡ record {
        volume_id = vol;
        sector = sec;
        bytes = buffer;
        valid = true;
        last_access = add64 c.access_counter 1;
      })
      × ((k : ℕ) → k ≢ j → at (write vol sec buffer c).entries k ≡ at c.entries k)
write_evicts vol sec buffer c t full miss i lt small = elim (write_cases vol sec c buffer t) [
  | inr (same, top, none') ↦ absurd (omega (arith, top i lt))
  | inl (j, w) ↦ (
    j,
    w.inside,
    oldest j w.inside w.place,
    rw w.stored (at-set_self c.entries j _ w.inside),
    λ k ne. rw w.stored (at-set_ne c.entries j k _ w.inside ne),
  )
]
  where
    oldest :
        (j : ℕ)
        → j < length c.entries
        → (hits vol sec (at c.entries j) ≡ true)
          ⊎ ((at c.entries j).valid ≡ false)
          ⊎ (AllValid c.entries × NotBelow (at c.entries j).last_access c.entries)
        → NotBelow (at c.entries j).last_access c.entries
    oldest j l (inl h) = cc (read_found vol sec c j t l h)
    oldest j l (inr (inl h)) = cc (full j l)
    oldest j l (inr (inr (a, n))) = n
