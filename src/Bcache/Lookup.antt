-- ===== src/Bcache/Lookup.antt =====
-- The two scans of kernel/fs/bcache.c: for the entry of a sector and for the victim.
use eter_os.Base.{
  ℕ, zero, suc, ◌+◌, ◌≤◌, ◌<◌, ◌≡◌, refl, ◌∙◌, ◌⊎◌, inl, inr, Bool, true, false, Option, none, some,
  List, [], ◌∷◌, ltb, if◌then◌else◌, get_or, length, arith, Bool-cases, ap, ltb→lt,
}
use eter_os.Bcache.{Entry, cleared, hits, find_hit, find_victim}

abbrev pub at : List Entry → ℕ → Entry
at es k = get_or es k cleared

module _ (vol sec : ℕ) where
  pub find_hit-none :
      (es : List Entry) (i : ℕ)
      → find_hit vol sec es i ≡ none
      → (k : ℕ) → k < length es
      → hits vol sec (at es k) ≡ false
  unfolding find_hit
  find_hit-none [] i e k h = absurd (omega arith)
  find_hit-none (x ∷ es) i e zero h = ground arith
  find_hit-none (x ∷ es) i e (suc k) h = find_hit-none es (i + 1) (ground arith) k (omega arith)

  pub find_hit-some :
      (es : List Entry) (i : ℕ) {j : ℕ}
      → find_hit vol sec es i ≡ some j
      → (k : ℕ) × (j ≡ i + k) × (k < length es) × (hits vol sec (at es k) ≡ true)
  unfolding find_hit
  find_hit-some [] i e = cc
  find_hit-some (x ∷ es) i e = elim (Bool-cases (hits vol sec x)) [
    | inl h ↦ (0, ground arith, omega arith, h)
    | inr h ↦
        let (k, eq, lt, hit) = find_hit-some es (i + 1) (rw (h, find_hit) at e) in
        (suc k, omega (arith, eq), omega (arith, lt), hit)
  ]

  -- The lookup as the operations make it, from index 0.
  pub find_hit-at :
      (es : List Entry) {j : ℕ}
      → find_hit vol sec es 0 ≡ some j
      → (j < length es) × (hits vol sec (at es j) ≡ true)
  find_hit-at es {j} e =
      let (k, eq, lt, hit) = find_hit-some es 0 e in
      let same : j ≡ k = omega (arith, eq) in (omega (arith, same, lt), rw same hit)

-- What the scan for the victim returns: an invalid entry if there is one, or else the smallest
-- `last_access` among what was seen before (`best`, `min`) and the entries.
abbrev pub AllValid : List Entry → Type 0
AllValid es = (l : ℕ) → l < length es → (at es l).valid ≡ true

abbrev pub NotBelow : ℕ → List Entry → Type 0
NotBelow n es = (l : ℕ) → l < length es → n ≤ (at es l).last_access

abbrev pub Replaced : List Entry → ℕ → Option ℕ → ℕ → Option ℕ → Type 0
Replaced es i best min r =
    ((k : ℕ) × (r ≡ some (i + k)) × (k < length es) × ((at es k).valid ≡ false))
    ⊎ (AllValid es × (r ≡ best) × NotBelow min es)
    ⊎ (AllValid es
        × ((k : ℕ) × (r ≡ some (i + k))
            × (k < length es)
            × ((at es k).last_access < min)
            × NotBelow (at es k).last_access es))

AllValid-cons : (x : Entry) (es : List Entry) → x.valid ≡ true → AllValid es → AllValid (x ∷ es)
AllValid-cons x es h a zero l = h
AllValid-cons x es h a (suc k) l = a k (omega arith)

NotBelow-cons :
    (n : ℕ) (x : Entry) (es : List Entry) → n ≤ x.last_access → NotBelow n es → NotBelow n (x ∷ es)
NotBelow-cons n x es h a zero l = h
NotBelow-cons n x es h a (suc k) l = a k (omega arith)

shift : (i k : ℕ) → ◌≡◌ {A = Option ℕ} (some (i + 1 + k)) (some (i + suc k))
shift i k = ap some (omega arith)

-- One round: the entry `x` is valid, and the rest of the loop ran with the better of the two.
find_victim-step :
    (x : Entry) (es : List Entry) (i : ℕ) (best : Option ℕ) (min : ℕ) (r : Option ℕ)
    → x.valid ≡ true
    → (smaller : Bool) → ltb x.last_access min ≡ smaller
    → Replaced es
        (i + 1)
        (if smaller then some i else best)
        (if smaller then x.last_access else min)
        r
    → Replaced (x ∷ es) i best min r
find_victim-step x es i best min r v b t (inl (k, e, l, c)) =
    inl (suc k, e ∙ shift i k, omega (arith, l), c)
find_victim-step x es i best min r v true t (inr (inl (a, e, m))) = inr (
    inr (
      AllValid-cons x es v a,
      (
        0,
        e ∙ ap some (omega arith),
        omega arith,
        ltb→lt _ _ t,
        NotBelow-cons _ x es (omega arith) m,
      ),
    ))
find_victim-step x es i best min r v false t (inr (inl (a, e, m))) =
    inr (inl (AllValid-cons x es v a, e, NotBelow-cons min x es (ground arith) m))
find_victim-step x es i best min r v true t (inr (inr (a, (k, e, l, m, n)))) = inr (
    inr (
      AllValid-cons x es v a,
      (
        suc k,
        e ∙ shift i k,
        omega (arith, l),
        omega (arith, m, ltb→lt _ _ t),
        NotBelow-cons _ x es (omega (arith, m)) n,
      ),
    ))
find_victim-step x es i best min r v false t (inr (inr (a, (k, e, l, m, n)))) = inr (
    inr (
      AllValid-cons x es v a,
      (suc k, e ∙ shift i k, omega (arith, l), m, NotBelow-cons _ x es (ground (arith, m)) n),
    ))

-- An invalid entry ends the loop.
find_victim-choose :
    (x : Entry) (es : List Entry) (i : ℕ) (best : Option ℕ) (min : ℕ) (r : Option ℕ)
    → Replaced es
        (i + 1)
        (if ltb x.last_access min then some i else best)
        (if ltb x.last_access min then x.last_access else min)
        r
    → (v : Bool) → x.valid ≡ v
    → Replaced (x ∷ es) i best min (if v then r else some i)
find_victim-choose x es i best min r w true c =
    find_victim-step x es i best min r c (ltb x.last_access min) refl w
find_victim-choose x es i best min r w false c = inl (0, ap some (omega arith), omega arith, c)

pub find_victim-Victim :
    (es : List Entry) (i : ℕ) (best : Option ℕ) (min : ℕ)
    → Replaced es i best min (find_victim es i best min)
unfolding find_victim
find_victim-Victim [] i best min =
    inr (inl (λ l h. absurd (omega arith), refl, λ l h. absurd (omega arith)))
find_victim-Victim (x ∷ es) i best min =
    let smaller = ltb x.last_access min in
    let best' = if smaller then some i else best in
    let min' = if smaller then x.last_access else min in
    find_victim-choose x es i best min (find_victim es (i + 1) best' min')
      (find_victim-Victim es (i + 1) best' min') x.valid refl

-- The victim as `bcache_write` looks for it: an invalid entry, or else one that was accessed least
-- recently.
pub find_victim-some :
    (es : List Entry) (m : ℕ) {j : ℕ}
    → find_victim es 0 none m ≡ some j
    → (j < length es)
      × (((at es j).valid ≡ false) ⊎ (AllValid es × NotBelow (at es j).last_access es))
find_victim-some es m {j} e = pick (find_victim-Victim es 0 none m)
  where
    pick :
        Replaced es 0 none m (find_victim es 0 none m)
        → (j < length es)
          × (((at es j).valid ≡ false) ⊎ (AllValid es × NotBelow (at es j).last_access es))
    pick (inl (k, f, l, c)) = let same : j ≡ k = ground arith in rw same (l, inl c)
    pick (inr (inl (a, f, n))) = cc
    pick (inr (inr (a, (k, f, l, b, n)))) =
        let same : j ≡ k = ground arith in rw same (l, inr (a, n))

-- There is a victim, unless every entry has the largest access number.
pub find_victim-none : (es : List Entry) (m : ℕ) → find_victim es 0 none m ≡ none → NotBelow m es
find_victim-none es m e = pick (find_victim-Victim es 0 none m)
  where
    pick : Replaced es 0 none m (find_victim es 0 none m) → NotBelow m es
    pick (inl (k, f, l, c)) = cc
    pick (inr (inl (a, f, n))) = n
    pick (inr (inr (a, (k, f, l, b, n)))) = cc
