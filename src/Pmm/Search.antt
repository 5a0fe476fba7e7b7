-- ===== src/Pmm/Search.antt =====
-- The next-fit search of `pmm_alloc_page_impl`: it finds a free page if there is one.
use eter_os.Base.{
  ℕ, zero, suc, ◌+◌, ◌-◌, ◌*◌, ◌/◌, ◌%◌, ◌^◌, ◌≤◌, ◌<◌, ◌≡◌, ◌∙◌, ◌⊎◌, inl, inr, Bool, true, false,
  Option, none, some, arith, ltb, ◌==◌, if◌then◌else◌, Bool-cases, Option-cases, dec_lt, ℕ_discrete,
  not_lt→ltb, lt→ltb, add64,
}
use eter_os.Pmm.{Pmm, first_clear, scan_words, pass_one, pass_two, find_page}

-- What a scan of one word returns: the lowest clear bit from `bit` on, if there is one.
abbrev Clear : (ℕ → Bool) → ℕ → ℕ → Option ℕ → Type 0
Clear word n bit none = (k : ℕ) → bit ≤ k → k < bit + n → word k ≡ true
Clear word n bit (some b) =
    (bit ≤ b) × (b < bit + n) × (word b ≡ false) × ((k : ℕ) → bit ≤ k → k < b → word k ≡ true)

first_clear-Clear : (word : ℕ → Bool) (n bit : ℕ) → Clear word n bit (first_clear word n bit)
unfolding first_clear
first_clear-Clear word zero bit = λ k h l. absurd (omega arith)
first_clear-Clear word (suc n) bit = elim (Bool-cases (word bit)) [
  | inr c ↦ rw c (omega arith, omega arith, c, λ k h l. absurd (omega arith))
  | inl c ↦ rw c (extend (first_clear word n (bit + 1)) c (first_clear-Clear word n (bit + 1)))
]
  where
    extend : (r : Option ℕ) → word bit ≡ true → Clear word n (bit + 1) r → Clear word (suc n) bit r
    extend none c f =
        λ k h l. elim (ℕ_discrete k bit) [ yes e ↦ rw e c | no e ↦ f k (omega arith) (omega arith) ]
    extend (some b) c f = (
      omega arith,
      omega arith,
      f.2,
      λ k h l. elim (ℕ_discrete k bit) [ yes e ↦ rw e c | no e ↦ f.3 k (omega arith) l ],
    )

-- What a pass returns. Each word's range ends at most at 64.
module _ (p : Pmm) (lo hi : ℕ → ℕ) where
  abbrev Scanned : ℕ → ℕ → Option ℕ → Type 0
  Scanned n i none =
      (j k : ℕ)
      → i ≤ j
      → j < i + n
      → lo j ≤ k
      → k < hi j
      → j * 64 + k < p.total_pages
      → p.bitmap (j * 64 + k) ≡ true
  Scanned n i (some page) =
      (page < p.total_pages)
      × (p.bitmap page ≡ false)
      × (i * 64 ≤ page)
      × (page < (i + n) * 64)
      × (lo (page / 64) ≤ page % 64)
      × (page % 64 < hi (page / 64))
      × ((j k : ℕ) → i ≤ j → lo j ≤ k → k < hi j → j * 64 + k < page → p.bitmap (j * 64 + k) ≡ true)

  module _ (le_word : (i : ℕ) → hi i ≤ 64) where
    -- A word whose range is all set is skipped.
    skip :
        (n i : ℕ) (r : Option ℕ)
        → Clear (λ k. p.bitmap (i * 64 + k)) (hi i - lo i) (lo i) none
        → Scanned n (i + 1) r
        → Scanned (suc n) i r
    skip n i none c s = λ j k a b d e f. elim (ℕ_discrete j i) [
      | yes q ↦ rw q (c k (rw q at d) (grind (arith, rw q at e, rw q at d)))
      | no q ↦ s j k (omega arith) (omega arith) d e f
    ]
    skip n i (some page) c s = (
      s.0,
      s.1,
      omega arith,
      omega arith,
      s.4,
      s.5,
      λ j k a b d e. elim (ℕ_discrete j i) [
        | yes q ↦ rw q (c k (rw q at b) (grind (arith, rw q at b, rw q at d)))
        | no q ↦ s.6 j k (omega arith) b d e
      ],
    )

    module _ (i b : ℕ) (c : Clear (λ k. p.bitmap (i * 64 + k)) (hi i - lo i) (lo i) (some b)) where
      before : (j k : ℕ) → i ≤ j → lo j ≤ k → j * 64 + k < i * 64 + b → p.bitmap (j * 64 + k) ≡ true
      before j k le from lt = elim (ℕ_discrete j i) [
        | yes q ↦ rw q (c.3 k (rw q at from) (omega (arith, rw q at lt)))
        | no q ↦ absurd (omega (arith, le_word i, c.0, c.1))
      ]

      word : (i * 64 + b) / 64 ≡ i
      word = omega (arith, le_word i, c.0, c.1)

      bit : (i * 64 + b) % 64 ≡ b
      bit = omega (arith, le_word i, c.0, c.1)

      -- A clear bit ends the pass.
      stop :
          (n : ℕ)
          → Scanned (suc n) i (if ltb (i * 64 + b) p.total_pages then some (i * 64 + b) else none)
      stop n = elim (dec_lt (i * 64 + b) p.total_pages) [
        | yes h ↦ rw (lt→ltb _ _ h) (
          h,
          c.2,
          omega (arith, c.0),
          omega (arith, le_word i, c.0, c.1),
          rw (word, bit) c.0,
          rw (word, bit) (omega (arith, c.0, c.1)),
          λ j k le from to. before j k le from,
        )
        | no h ↦ rw (not_lt→ltb _ _ h) (λ j k le l from to lt. before j k le from (omega arith))
      ]

    scan_step :
        (n i : ℕ) (r rest : Option ℕ)
        → Clear (λ k. p.bitmap (i * 64 + k)) (hi i - lo i) (lo i) r
        → Scanned n (i + 1) rest
        → Scanned (suc n) i (elim r [
          | none ↦ rest
          | some bit ↦ if ltb (i * 64 + bit) p.total_pages then some (i * 64 + bit) else none
        ])
    scan_step n i none rest c s = skip n i rest c s
    scan_step n i (some b) rest c s = stop i b c n

    pub scan_words-Scanned : (n i : ℕ) → Scanned n i (scan_words p lo hi n i)
    unfolding scan_words
    scan_words-Scanned zero i = λ j k h l. absurd (omega arith)
    scan_words-Scanned (suc n) i =
        scan_step n i (first_clear word (hi i - lo i) (lo i)) (scan_words p lo hi n (i + 1))
          (first_clear-Clear word (hi i - lo i) (lo i)) (scan_words-Scanned n (i + 1))
      where
        word : ℕ → Bool
        word k = p.bitmap (i * 64 + k)

-- `page` is the first free page of the machine from the rover on, round the end of the bitmap.
pub record NextFit (p : Pmm) (page : ℕ) : Type 0 where
  pub inside : page < p.total_pages
  pub free : p.bitmap page ≡ false
  pub first :
      ((p.last_free_idx ≤ page) × ((k : ℕ) → p.last_free_idx ≤ k → k < page → p.bitmap k ≡ true))
      ⊎ ((page < p.last_free_idx)
          × ((k : ℕ) → p.last_free_idx ≤ k → k < p.total_pages → p.bitmap k ≡ true)
          × ((k : ℕ) → k < page → p.bitmap k ≡ true))

abbrev from_rover : Pmm → ℕ → ℕ
from_rover p i = if i == p.last_free_idx / 64 then p.last_free_idx % 64 else 0

abbrev to_rover : Pmm → ℕ → ℕ
to_rover p i = if i == p.last_free_idx / 64 then p.last_free_idx % 64 else 64

module _ (p : Pmm) (small : p.total_pages + 63 < 2 ^ 64) where
  at_word : (k : ℕ) → p.bitmap (k / 64 * 64 + k % 64) ≡ true → p.bitmap k ≡ true
  at_word k h = let e : k / 64 * 64 + k % 64 ≡ k = omega arith in rw e at h

  pass_one-Scanned :
      Scanned p
        (from_rover p)
        (λ i. 64)
        (add64 p.total_pages 63 / 64 - p.last_free_idx / 64)
        (p.last_free_idx / 64)
        (pass_one p)
  unfolding pass_one
  pass_one-Scanned =
      scan_words-Scanned p (from_rover p) (λ i. 64) (λ i. omega arith)
        (add64 p.total_pages 63 / 64 - p.last_free_idx / 64) (p.last_free_idx / 64)

  pass_two-Scanned : Scanned p (λ i. 0) (to_rover p) (p.last_free_idx / 64 + 1) 0 (pass_two p)
  unfolding pass_two
  pass_two-Scanned =
      scan_words-Scanned p (λ i. 0) (to_rover p) (λ i. ground arith) (p.last_free_idx / 64 + 1) 0

  -- No free page from the rover on.
  pass_one-none :
      pass_one p ≡ none → (k : ℕ) → p.last_free_idx ≤ k → k < p.total_pages → p.bitmap k ≡ true
  pass_one-none e k from to =
      let none' : Scanned p (from_rover p) (λ i. 64) _ _ none = rw e at pass_one-Scanned in
      at_word k (
        none' (k / 64) (k % 64) (omega arith) (omega arith) (ground arith) (omega arith)
          (omega arith))

  pass_two-none :
      pass_two p ≡ none → (k : ℕ) → k < p.last_free_idx → k < p.total_pages → p.bitmap k ≡ true
  pass_two-none e k from to =
      let none' : Scanned p (λ i. 0) (to_rover p) _ _ none = rw e at pass_two-Scanned in
      at_word k (
        none' (k / 64) (k % 64) (omega arith) (omega arith) (omega arith) (ground arith)
          (omega arith))

  pass_one-some : {page : ℕ} → pass_one p ≡ some page → NextFit p page
  pass_one-some {page} e =
      let found : Scanned p (from_rover p) (λ i. 64) _ _ (some page) = rw e at pass_one-Scanned in
      record {
        inside = found.0;
        free = found.1;
        first = inl (
          ground (arith, found.2, found.4),
          λ k from to.
              at_word k (
                found.6 (k / 64) (k % 64) (omega arith) (ground arith) (omega arith) (omega arith)),
        );
      }

  pass_two-some : {page : ℕ} → pass_one p ≡ none → pass_two p ≡ some page → NextFit p page
  pass_two-some {page} e f =
      let found : Scanned p (λ i. 0) (to_rover p) _ _ (some page) = rw f at pass_two-Scanned in
      record {
        inside = found.0;
        free = found.1;
        first = inr (
          ground (arith, found.3, found.5),
          pass_one-none e,
          λ k to. at_word k (
              found.6 (k / 64) (k % 64) (omega arith) (omega arith)
                (ground (arith, found.3, found.5)) (omega arith)),
        );
      }

  -- The search returns the next free page, or there is none.
  pub find_page-NextFit : {page : ℕ} → find_page p ≡ some page → NextFit p page
  unfolding find_page
  find_page-NextFit e = elim (Option-cases (pass_one p)) [
    | inl e1 ↦ pass_two-some e1 (rw (e1, find_page) at e)
    | inr (page', e1) ↦ pass_one-some (e1 ∙ (rw (e1, find_page) at e))
  ]

  pub find_page-none : find_page p ≡ none → (k : ℕ) → k < p.total_pages → p.bitmap k ≡ true
  unfolding find_page
  find_page-none e k h = elim (Option-cases (pass_one p)) [
    | inl e1 ↦ elim (dec_lt k p.last_free_idx) [
      | yes l ↦ pass_two-none (rw (e1, find_page) at e) k l h
      | no l ↦ pass_one-none e1 k (omega arith) h
    ]
    | inr (page', e1) ↦ cc (rw (e1, find_page) at e)
  ]
