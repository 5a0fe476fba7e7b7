-- ===== src/Memory/Compare.antt =====
-- `memcmp` of kernel/string.c against a comparison byte by byte.
use mathlib.Core.Bool.{true≢false}
use eter_os.Base.{
  ap₂, subst, ℕ_discrete, ℕ, zero, suc, ◌+◌, ◌-◌, ◌*◌, ◌/◌, ◌≤◌, ◌<◌, ◌≡◌, ◌≢◌, refl, ◌∙◌, sym, ap,
  ◌⊎◌, inl, inr, ◌==◌, ==_iff, if_true, if_false, Bool-cases, arith, sub32,
}
use eter_os.Memory.{Bytes, load_word, compare_loop, compare_words, memcmp}

-- Every cell holds a byte.
abbrev pub Small : Bytes → Type 0
Small m = (a : ℕ) → m a < 256

-- Two words are equal only where all their bytes are.
load_word-injective :
    (n a b : ℕ) (m : Bytes)
    → Small m
    → load_word n a m ≡ load_word n b m
    → (i : ℕ) → i < n
    → m (a + i) ≡ m (b + i)
unfolding load_word
load_word-injective zero a b m small e i h = absurd (omega (arith, h))
load_word-injective (suc n) a b m small e i h =
    let first : m a ≡ m b = omega (arith, e, small a, small b) in
    let rest : load_word n (a + 1) m ≡ load_word n (b + 1) m = omega (arith, e, small a, small b) in
    elim (ℕ_discrete i 0) [
      | yes z ↦
          ap (λ k. m (a + k)) z
          ∙ ap m (omega arith)
          ∙ first
          ∙ ap m (omega arith)
          ∙ ap (λ k. m (b + k)) (sym z)
      | no z ↦
          ap m (omega (arith, z))
          ∙ load_word-injective n (a + 1) (b + 1) m small rest (i - 1) (omega (arith, h, z))
          ∙ ap m (omega (arith, z))
    ]

compare_loop-cong :
    {n n' a a' b b' : ℕ} (m : Bytes)
    → n ≡ n'
    → a ≡ a'
    → b ≡ b'
    → compare_loop n a b m ≡ compare_loop n' a' b' m
compare_loop-cong m e e' e'' = rw (e, e', e'') refl

-- Equal bytes may be skipped.
compare_loop_skip :
    (k n a b : ℕ) (m : Bytes)
    → k ≤ n
    → ((i : ℕ) → i < k → m (a + i) ≡ m (b + i))
    → compare_loop n a b m ≡ compare_loop (n - k) (a + k) (b + k) m
unfolding compare_loop
compare_loop_skip zero n a b m h same =
    compare_loop-cong m (omega arith) (omega arith) (omega arith)
compare_loop_skip (suc k) zero a b m h same = absurd (omega (arith, h))
compare_loop_skip (suc k) (suc n) a b m h same =
    let first : m a ≡ m b = ap m (omega arith) ∙ same 0 (omega arith) ∙ ap m (omega arith) in
    if_true _ _ ((==_iff _ _).1 first)
    ∙ compare_loop_skip k n (a + 1) (b + 1) m (omega (arith, h))
        (λ i l. ap m (omega arith) ∙ same (i + 1) (omega (arith, l)) ∙ ap m (omega arith))
    ∙ compare_loop-cong m (omega arith) (omega arith) (omega arith)

compare_words-compare_loop :
    (words n a b : ℕ) (m : Bytes)
    → Small m
    → words * 8 ≤ n
    → compare_words words n a b m ≡ compare_loop n a b m
unfolding compare_words
compare_words-compare_loop zero n a b m small h = refl
compare_words-compare_loop (suc words) n a b m small h =
    elim (Bool-cases (load_word 8 a m == load_word 8 b m)) [
      | inl same ↦
          if_true _ _ same
          ∙ compare_words-compare_loop words (n - 8) (a + 8) (b + 8) m small (omega (arith, h))
          ∙ sym (
              compare_loop_skip 8 n a b m (omega (arith, h))
                (load_word-injective 8 a b m small ((==_iff _ _).0 same)))
      | inr other ↦ if_false _ _ other
    ]

-- What a comparison finds: equal blocks, or the first place where they differ.
abbrev pub Compares : (s1 s2 n : ℕ) → Bytes → ℕ → Type 0
Compares s1 s2 n m r =
    (r ≡ 0) × ((i : ℕ) → i < n → m (s1 + i) ≡ m (s2 + i))
    ⊎ ((i : ℕ) × (i < n)
        × ((j : ℕ) → j < i → m (s1 + j) ≡ m (s2 + j))
        × (m (s1 + i) ≢ m (s2 + i))
        × (r ≡ sub32 (m (s1 + i)) (m (s2 + i))))

compare_loop-Compares : (n a b : ℕ) (m : Bytes) → Compares a b n m (compare_loop n a b m)
unfolding compare_loop
compare_loop-Compares zero a b m = inl (refl, λ i h. absurd (omega (arith, h)))
compare_loop-Compares (suc n) a b m = elim (Bool-cases (m a == m b)) [
  | inr other ↦ inr (
    0,
    omega arith,
    λ j h. absurd (omega (arith, h)),
    λ e. true≢false (sym ((==_iff _ _).1 (ap m (omega arith) ∙ e ∙ ap m (omega arith))) ∙ other),
    if_false _ _ other ∙ ap₂ sub32 (ap m (omega arith)) (ap m (omega arith)),
  )
  | inl same ↦
      let first = (==_iff _ _).0 same in
      elim (compare_loop-Compares n (a + 1) (b + 1) m) [
        | inl (r, all) ↦ inl (if_true _ _ same ∙ r, λ i h. shifted n first all i h)
        | inr (i, inside, before, differ, r) ↦ inr (
          i + 1,
          omega (arith, inside),
          λ j h. shifted i first before j (omega (arith, h)),
          λ e. differ (ap m (omega arith) ∙ e ∙ ap m (omega arith)),
          if_true _ _ same ∙ r ∙ ap₂ sub32 (ap m (omega arith)) (ap m (omega arith)),
        )
      ]
]
  where
    shifted :
        (k : ℕ)
        → m a ≡ m b
        → ((i : ℕ) → i < k → m (a + 1 + i) ≡ m (b + 1 + i))
        → (i : ℕ) → i < suc k
        → m (a + i) ≡ m (b + i)
    shifted k first all i h = elim (ℕ_discrete i 0) [
      | yes z ↦ ap m (omega (arith, z)) ∙ first ∙ ap m (omega (arith, z))
      | no z ↦ ap m (omega (arith, z)) ∙ all (i - 1) (omega (arith, h, z)) ∙ ap m (omega (arith, z))
    ]

-- `memcmp` returns 0 exactly where the blocks hold the same bytes, and else the difference, as an
-- int, of the bytes in the first place where they differ.
pub memcmp-Compares : (s1 s2 n : ℕ) (m : Bytes) → Small m → Compares s1 s2 n m (memcmp s1 s2 n m)
unfolding memcmp
memcmp-Compares s1 s2 n m small =
    subst (Compares s1 s2 n m)
      (sym (compare_words-compare_loop (n / 8) n s1 s2 m small (omega arith)))
      (compare_loop-Compares n s1 s2 m)
