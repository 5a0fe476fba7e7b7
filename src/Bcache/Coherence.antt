-- ===== src/Bcache/Coherence.antt =====
-- A hit of kernel/fs/bcache.c returns the data that was last written for the sector.
use eter_os.Base.{
  ℕ, ◌<◌, ◌≡◌, refl, sym, ◌∙◌, ◌≢◌, inl, inr, true, false, ◌&&◌, List, ◌==◌, if◌then◌else◌,
  get_or-set, set, length, length-set, arith, Bool-cases, ℕ_discrete,
}
use eter_os.Bcache.{Entry, cleared, hits}
use eter_os.Bcache.Lookup.{at}

-- What the disk holds, sector by sector.
abbrev pub Disk : Type 0
Disk = ℕ → ℕ → List ℕ

unfoldable pub put : Disk → ℕ → ℕ → List ℕ → Disk
put d vol sec buffer v s = if v == vol && s == sec then buffer else d v s

-- Each sector is held at most once, and with the data of `d`.
pub record Tracks (d : Disk) (es : List Entry) : Type 0 where
  pub distinct :
      (v s i j : ℕ)
      → i < length es
      → j < length es
      → hits v s (at es i) ≡ true
      → hits v s (at es j) ≡ true
      → i ≡ j
  pub holds : (v s i : ℕ) → i < length es → hits v s (at es i) ≡ true → (at es i).bytes ≡ d v s

-- Replacing entry `i`.
module _ {d : Disk} {es : List Entry} (t : Tracks d es) (d' : Disk) (i : ℕ) (e : Entry)
    (lt : i < length es) (right : (v s : ℕ) → hits v s e ≡ true → e.bytes ≡ d' v s)
    (alone : (v s j : ℕ) → j < length es → j ≢ i → hits v s e ≡ true → hits v s (at es j) ≡ false)
    (kept : (v s j : ℕ) → j < length es → j ≢ i → hits v s (at es j) ≡ true → d v s ≡ d' v s) where
  at-set : (j : ℕ) → at (set es i e) j ≡ (if j == i then e else at es j)
  at-set j = get_or-set es i j e cleared lt

  at-set_self : (j : ℕ) → j ≡ i → at (set es i e) j ≡ e
  at-set_self j p = ground (arith, at-set j)

  at-set_ne : (j : ℕ) → j ≢ i → at (set es i e) j ≡ at es j
  at-set_ne j p = ground (arith, at-set j)

  Tracks-set : Tracks d' (set es i e)
  Tracks-set = record { distinct = same; holds = data' }
    where
      data' :
          (v s j : ℕ)
          → j < length (set es i e)
          → hits v s (at (set es i e) j) ≡ true
          → (at (set es i e) j).bytes ≡ d' v s
      data' v s j l h = elim (ℕ_discrete j i) [
        | yes p ↦ rw (at-set_self j p) (right v s (rw (at-set_self j p) at h))
        | no p ↦
            let l' : j < length es = rw length-set at l in
            let h' : hits v s (at es j) ≡ true = rw (at-set_ne j p) at h in
            rw (at-set_ne j p) (t.holds v s j l' h' ∙ kept v s j l' p h')
      ]

      same :
          (v s a b : ℕ)
          → a < length (set es i e)
          → b < length (set es i e)
          → hits v s (at (set es i e) a) ≡ true
          → hits v s (at (set es i e) b) ≡ true
          → a ≡ b
      same v s a b la lb ha hb = elim (ℕ_discrete a i) [
        | yes p ↦ elim (ℕ_discrete b i) [
          | yes q ↦ p ∙ sym q
          | no q ↦ cc (
            alone v s b (rw length-set at lb) q (rw (at-set_self a p) at ha),
            rw (at-set_ne b q) at hb,
          )
        ]
        | no p ↦ elim (ℕ_discrete b i) [
          | yes q ↦ cc (
            alone v s a (rw length-set at la) p (rw (at-set_self b q) at hb),
            rw (at-set_ne a p) at ha,
          )
          | no q ↦
              t.distinct v s a b (rw length-set at la) (rw length-set at lb)
                (rw (at-set_ne a p) at ha) (rw (at-set_ne b q) at hb)
        ]
      ]

module _ {d : Disk} {es : List Entry} (t : Tracks d es) where
  -- Where entry `i` holds the sector, no other entry does.
  pub only :
      (v s i j : ℕ)
      → i < length es
      → hits v s (at es i) ≡ true
      → j < length es
      → j ≢ i
      → hits v s (at es j) ≡ false
  only v s i j li h lj ne = elim (Bool-cases (hits v s (at es j))) [
    | inl g ↦ absurd (ne (t.distinct v s j i lj li g h))
    | inr g ↦ g
  ]

  -- An entry may be replaced by one that holds the same sector and data, or none.
  pub Tracks-weaken :
      (i : ℕ) (e : Entry)
      → i < length es
      → ((v s : ℕ) → hits v s e ≡ true → hits v s (at es i) ≡ true)
      → e.bytes ≡ (at es i).bytes
      → Tracks d (set es i e)
  Tracks-weaken i e lt sub bytes =
      Tracks-set t d i e lt (λ v s h. bytes ∙ t.holds v s i lt (sub v s h))
        (λ v s j l ne h. only v s i j lt (sub v s h) l ne) (λ v s j l ne h. refl)

  module _ (vol sec : ℕ) (buffer : List ℕ) where
    put_ne :
        (v s : ℕ) (e : Entry)
        → hits vol sec e ≡ false
        → hits v s e ≡ true
        → d v s ≡ put d vol sec buffer v s
    unfolding hits put
    put_ne v s e miss h = ground arith

    -- A write over entry `i`: no other entry holds the sector.
    pub Tracks-write :
        (i : ℕ) (e : Entry)
        → i < length es
        → ((j : ℕ) → j < length es → j ≢ i → hits vol sec (at es j) ≡ false)
        → ((v s : ℕ) → hits v s e ≡ true → (v ≡ vol) × (s ≡ sec))
        → e.bytes ≡ buffer
        → Tracks (put d vol sec buffer) (set es i e)
    unfolding put
    Tracks-write i e lt others key bytes =
        Tracks-set t (put d vol sec buffer) i e lt (λ v s h. ground (arith, key v s h))
          (λ v s j l ne h. rw ((key v s h).0, (key v s h).1) (others j l ne))
          (λ v s j l ne h. put_ne v s (at es j) (others j l ne) h)

    -- A write that found no victim.
    pub Tracks-put :
        ((j : ℕ) → j < length es → hits vol sec (at es j) ≡ false)
        → Tracks (put d vol sec buffer) es
    Tracks-put miss = record {
      distinct = t.distinct;
      holds = λ v s i l h. t.holds v s i l h ∙ put_ne v s (at es i) (miss i l) h;
    }
