-- ===== src/Vmm/User/Strings.antt =====
-- `vmm_strncpy_from_user` of kernel/mm/vmm.c.
use mathlib.Core.Bool.{true≢false}
use eter_os.Base.{
  ◌^◌, ℕ_discrete, ℕ, zero, suc, ◌+◌, ◌-◌, ◌%◌, ◌≤◌, ◌<◌, ◌≡◌, ◌≢◌, refl, ◌∙◌, sym, ap, subst, ◌⊎◌,
  inl, inr, Bool, true, false, not, ◌||◌, arith, Bool-cases, if_true, if_false, add64, ◌==◌, ==_iff,
  update, update_self, update_ne,
}
use eter_os.Pmm.{page_size}
use eter_os.Vmm.{Vmm, load_user}
use eter_os.Vmm.User.{
  vmm_verify_user_access, checked, Copied, bytes, efault, strncpy_loop, vmm_strncpy_from_user,
}
use eter_os.Vmm.User.Access.{access_next}

module _ (locked : Bool) (s : Vmm) (src : ℕ) where
  -- Whether a program may read byte `i` of its string.
  abbrev pub access : ℕ → Bool
  access i = (vmm_verify_user_access locked false (add64 src i) 1 s).0

  -- The string has no terminator before `n`, and may be read up to there.
  abbrev pub Runs : ℕ → Type 0
  Runs n = (i : ℕ) → i < n → (access i ≡ true) × (load_user s (add64 src i) ≢ 0)

  -- The checks at the starts of pages are checks of all bytes.
  checked-access : (i : ℕ) → Runs i → checked locked src i s ≡ access i
  unfolding checked
  checked-access i runs = elim (Bool-cases ((i == 0) || (add64 src i % page_size == 0))) [
    | inl start ↦ if_true _ _ start
    | inr inside ↦
        let there : i ≢ 0 = ground (arith, inside) in
        let off : add64 src i % page_size ≢ 0 = ground (arith, inside) in
        if_false _ _ inside
        ∙ sym (
            access_next locked s (add64 src (i - 1)) (add64 src i) (omega (arith, there, off))
              (omega arith) (omega (arith, there, off)) (runs (i - 1) (omega (arith, there))).0)
  ]

  -- The bytes of `dst` up to `n`, and the rest as it was.
  pub record Filled (n : ℕ) (dst dst' : ℕ → ℕ) : Type 0 where
    pub string : (i : ℕ) → i < n → dst' i ≡ load_user s (add64 src i)
    pub rest : (i : ℕ) → n ≤ i → dst' i ≡ dst i

  pub record Ends (max : ℕ) (dst : ℕ → ℕ) (r : Copied × (ℕ → ℕ)) (n : ℕ) : Type 0 where
    pub inside : n < max
    pub runs : Runs n
    pub read : access n ≡ true
    pub null : load_user s (add64 src n) ≡ 0
    pub reply : r.0 ≡ bytes (n + 1)
    pub filled : Filled (n + 1) dst r.1

  pub record Faults (max : ℕ) (dst : ℕ → ℕ) (r : Copied × (ℕ → ℕ)) (n : ℕ) : Type 0 where
    pub inside : n < max
    pub runs : Runs n
    pub refused : access n ≡ false
    pub reply : r.0 ≡ efault
    pub filled : Filled n dst r.1

  pub record Cut (max : ℕ) (dst : ℕ → ℕ) (r : Copied × (ℕ → ℕ)) : Type 0 where
    pub runs : Runs max
    pub reply : r.0 ≡ bytes max
    pub string : (i : ℕ) → i + 1 < max → r.1 i ≡ load_user s (add64 src i)
    pub null : r.1 (max - 1) ≡ 0
    pub rest : (i : ℕ) → max ≤ i → r.1 i ≡ dst i

  abbrev pub Outcome : (max : ℕ) → (ℕ → ℕ) → Copied × (ℕ → ℕ) → Type 0
  Outcome max dst r =
      ((n : ℕ) × Ends max dst r n) ⊎ (((n : ℕ) × Faults max dst r n) ⊎ Cut max dst r)

  Runs-suc : (n : ℕ) → Runs n → access n ≡ true → load_user s (add64 src n) ≢ 0 → Runs (suc n)
  Runs-suc n runs a b i h = elim (ℕ_discrete i n) [
    | yes e ↦ (ap access e ∙ a, λ z. b (ap (λ x. load_user s (add64 src x)) (sym e) ∙ z))
    | no ne ↦ runs i (omega (arith, h, ne))
  ]

  Filled-suc :
      (n : ℕ) {dst dst' : ℕ → ℕ}
      → Filled n dst dst'
      → Filled (suc n) dst (update dst' n (load_user s (add64 src n)))
  Filled-suc n {dst} {dst'} f = record {
    string = λ i h. elim (ℕ_discrete i n) [
      | yes e ↦
          ap (update dst' n (load_user s (add64 src n))) e
          ∙ update_self dst' n (load_user s (add64 src n))
          ∙ ap (λ x. load_user s (add64 src x)) (sym e)
      | no ne ↦
          update_ne dst' n (load_user s (add64 src n)) i ne ∙ f.string i (omega (arith, h, ne))
    ];
    rest = λ i h.
        update_ne dst' n (load_user s (add64 src n)) i (λ e. (omega (arith, h, e)))
        ∙ f.rest i (omega (arith, h));
  }

  strncpy_loop-Outcome :
      (max left n : ℕ) (dst dst' : ℕ → ℕ)
      → n + left ≡ max
      → 0 < max
      → max < 2 ^ 31
      → Runs n
      → Filled n dst dst'
      → Outcome max dst (strncpy_loop locked max src left n dst' s)
  unfolding strncpy_loop
  strncpy_loop-Outcome max zero n dst dst' size some bound runs f =
      let all : n ≡ max = omega (arith, size) in
      inr (
        inr (record {
          runs = subst Runs all runs;
          reply = ap bytes (omega (arith, bound));
          string = λ i h.
              update_ne dst' (max - 1) 0 i (λ e. omega (arith, h, e))
              ∙ f.string i (omega (arith, h, all));
          null = update_self dst' (max - 1) 0;
          rest = λ i h.
              update_ne dst' (max - 1) 0 i (λ e. omega (arith, h, e, some))
              ∙ f.rest i (omega (arith, h, all));
        }))
  strncpy_loop-Outcome max (suc left) n dst dst' size some bound runs f =
      let check = checked-access n runs in
      elim (Bool-cases (access n)) [
        | inr refused ↦ subst (Outcome max dst) (sym (if_true _ _ (ap not (check ∙ refused)))) (
            inr (
              inl (
                n,
                record {
                  inside = omega (arith, size);
                  runs = runs;
                  refused = refused;
                  reply = refl;
                  filled = f;
                },
              )))
        | inl read ↦
            subst (Outcome max dst) (sym (if_false _ _ (ap not (check ∙ read))))
              (elim (Bool-cases (load_user s (add64 src n) == 0)) [
                | inl null ↦ subst (Outcome max dst) (sym (if_true _ _ null)) (
                    inl (
                      n,
                      record {
                        inside = omega (arith, size);
                        runs = runs;
                        read = read;
                        null = (==_iff _ _).0 null;
                        reply = ap bytes (omega (arith, bound, size));
                        filled =
                            subst (λ m. Filled m dst (update dst' n (load_user s (add64 src n))))
                              (omega arith) (Filled-suc n f);
                      },
                    ))
                | inr more ↦ subst (Outcome max dst) (sym (if_false _ _ more)) (
                    subst
                      (λ m. Outcome max dst (
                        strncpy_loop locked max src left m
                          (update dst' n (load_user s (add64 src n))) s))
                      (omega arith)
                      (strncpy_loop-Outcome max left (suc n) dst
                        (update dst' n (load_user s (add64 src n))) (omega (arith, size)) some bound
                        (Runs-suc n runs read (λ z. true≢false (sym ((==_iff _ _).1 z) ∙ more)))
                        (Filled-suc n f)))
              ])
      ]

-- For a string of a program that is not NULL and a buffer of some bytes and below 2 GiB,
-- `vmm_strncpy_from_user` reads the bytes in order, none before `vmm_verify_user_access` accepts it. Where it reaches a
-- terminator it returns the length with the terminator and `dst` holds the string. Where it
-- reaches a byte that is refused it returns -EFAULT and `dst` holds the bytes before it. Where
-- neither stands in the first `max` bytes it returns `max`, and `dst` holds the bytes before the
-- last and a terminator. Nothing else of `dst` changes.
pub vmm_strncpy_from_user-Outcome :
    (locked : Bool) (src max : ℕ) (dst : ℕ → ℕ) (s : Vmm)
    → src ≢ 0
    → 0 < max
    → max < 2 ^ 31
    → Outcome locked s src max dst (vmm_strncpy_from_user locked src max dst s)
unfolding vmm_strncpy_from_user
vmm_strncpy_from_user-Outcome locked src max dst s there some bound =
    let valid : ((src == 0) || (max == 0)) ≡ false = ground (arith, there, some) in
    subst (Outcome locked s src max dst) (sym (if_false _ _ valid)) (
      strncpy_loop-Outcome locked s src max max 0 dst dst (omega arith) some bound
        (λ i h. absurd (omega (arith, h)))
        (record { string = λ i h. absurd (omega (arith, h)); rest = λ i h. refl }))
