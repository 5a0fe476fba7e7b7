-- ===== src/Vmm/User/Access.antt =====
-- Which ranges of kernel/mm/vmm.c a program may pass to the kernel.
use mathlib.Core.Bool.{true≢false}
use eter_os.Base.{
  ◌⊎◌, subst, ℕ, zero, suc, ◌+◌, ◌*◌, ◌/◌, ◌%◌, ◌^◌, ◌≤◌, ◌<◌, ◌≡◌, refl, ◌∙◌, sym, ap, ap₂, ◌↔◌,
  inl, inr, Bool, true, false, ◌&&◌, arith, Bool-cases, if_true, if_false, if◌then◌else◌,
}
use eter_os.Pmm.{page_size}
use eter_os.Pmm.Init.{page_align_up}
use eter_os.Vmm.{Vmm, pt_index, pd_index, pdpt_index, pml4_index}
use eter_os.Vmm.User.{
  is_user, user_base, user_limit, vmm_validate_user_ptr, vmm_is_user_page, verify_page, verify_loop,
  first_page, page_count, vmm_verify_user_access,
}

-- For 64-bit words, `vmm_validate_user_ptr` accepts a range exactly where all of it lies between
-- USER_BASE and USER_LIMIT.
pub vmm_validate_user_ptr_iff :
    (addr size : ℕ)
    → addr < 2 ^ 64
    → size < 2 ^ 64
    → (vmm_validate_user_ptr addr size ≡ true) ↔ (user_base ≤ addr) × (addr + size ≤ user_limit + 1)
unfolding vmm_validate_user_ptr
vmm_validate_user_ptr_iff addr size h h' =
    (λ e. ground (arith, e, h, h'), λ (a, b). ground (arith, a, b, h, h'))

-- The check of one byte does for the rest of its page.
pub access_next :
    (locked : Bool) (s : Vmm) (v v' : ℕ)
    → v ≤ v'
    → v < 2 ^ 64
    → v' / page_size ≡ v / page_size
    → (vmm_verify_user_access locked false v 1 s).0 ≡ true
    → (vmm_verify_user_access locked false v' 1 s).0 ≡ true
unfolding vmm_verify_user_access
access_next locked s v v' le h page ok = elim (Bool-cases (vmm_validate_user_ptr v 1)) [
  | inr bad ↦ absurd (true≢false (sym ok ∙ ap (λ (r : Bool × Vmm). r.0) (if_false _ _ bad)))
  | inl good ↦
      let (low, high) = (vmm_validate_user_ptr_iff v 1 h (omega arith)).0 good in
      let good' =
        (vmm_validate_user_ptr_iff v' 1 (omega (arith, page, high)) (omega arith)).1
          (omega (arith, low, le), omega (arith, page, high)) in
      let first : first_page v' ≡ first_page v = omega (arith, page) in
      let count : page_count v' 1 ≡ page_count v 1 = omega (arith, page, high) in
      ap (λ (r : Bool × Vmm). r.0)
        (if_true _ _ good'
          ∙ ap₂ (λ n a. verify_loop locked false n a s) count first
          ∙ sym (if_true _ _ good))
      ∙ ok
]

-- Address `v` is not in a large page of a program.
abbrev pub SmallAt : Vmm → ℕ → Type 0
SmallAt s v =
    let e₄ = s.tables s.pml4 (pml4_index v) in
    let e₃ = s.tables e₄.addr (pdpt_index v) in
    let e₂ = s.tables e₃.addr (pd_index v) in
    ((is_user e₄ && is_user e₃ && e₃.flags.huge) ≡ false)
    × ((is_user e₄ && is_user e₃ && is_user e₂ && e₂.flags.huge) ≡ false)

-- No large page lies between USER_BASE and USER_LIMIT: the map of the first 4 GiB may have any.
abbrev pub Small : Vmm → Type 0
Small s = (v : ℕ) → user_base ≤ v → v ≤ user_limit → SmallAt s v

verify_page_read :
    (locked : Bool) (s : Vmm) (v : ℕ)
    → SmallAt s v
    → verify_page locked false v s ≡ (vmm_is_user_page v s, s)
unfolding verify_page vmm_is_user_page
verify_page_read locked s v small = ground (arith, small)

-- The check of a page depends on the page alone.
pub is_user_page-cong :
    (s : Vmm) (v v' : ℕ)
    → v / page_size ≡ v' / page_size
    → vmm_is_user_page v s ≡ vmm_is_user_page v' s
unfolding vmm_is_user_page
is_user_page-cong s v v' h =
    let h₁ : pt_index v ≡ pt_index v' = omega (arith, h) in
    let h₂ : pd_index v ≡ pd_index v' = omega (arith, h) in
    let h₃ : pdpt_index v ≡ pdpt_index v' = omega (arith, h) in
    let h₄ : pml4_index v ≡ pml4_index v' = omega (arith, h) in rw (h₁, h₂, h₃, h₄) refl

goes_on : (b : Bool) (r : Bool × Vmm) (s : Vmm) → (if b then r else (false, s)).0 ≡ (b && r.0)
goes_on true r s = refl
goes_on false r s = refl

verify_loop_step :
    (locked : Bool) (s : Vmm) (pages v : ℕ)
    → SmallAt s v
    → (verify_loop locked false (suc pages) v s).0
      ≡ (vmm_is_user_page v s && (verify_loop locked false pages (v + page_size) s).0)
unfolding verify_loop
verify_loop_step locked s pages v small =
    rw (verify_page_read locked s v small)
      (goes_on (vmm_is_user_page v s) (verify_loop locked false pages (v + page_size) s) s)

verify_loop_nil : (locked : Bool) (v : ℕ) (s : Vmm) → (verify_loop locked false zero v s).0 ≡ true
unfolding verify_loop
verify_loop_nil locked v s = refl

verify_loop_iff :
    (locked : Bool) (s : Vmm) (pages v : ℕ)
    → ((v' : ℕ) → v ≤ v' → v' < v + pages * page_size → SmallAt s v')
    → v % page_size ≡ 0
    → ((verify_loop locked false pages v s).0 ≡ true)
      ↔ ((v' : ℕ) → v ≤ v' → v' < v + pages * page_size → vmm_is_user_page v' s ≡ true)
verify_loop_iff locked s zero v small al =
    (λ e v' a b. absurd (omega (arith, a, b)), λ f. verify_loop_nil locked v s)
verify_loop_iff locked s (suc pages) v small al =
    let (to, from) =
      verify_loop_iff locked s pages (v + page_size)
        (λ v' a b. small v' (omega (arith, a)) (omega (arith, b))) (omega (arith, al)) in
    let step = verify_loop_step locked s pages v (small v (omega arith) (omega arith)) in
    (
      λ e v' a b. elim (ltb-cases v' (v + page_size)) [
        | inl first ↦
            is_user_page-cong s v' v (omega (arith, first, a, al)) ∙ (and_true (sym step ∙ e)).0
        | inr later ↦ to (and_true (sym step ∙ e)).1 v' later (omega (arith, b))
      ],
      λ f.
          step
          ∙ both (f v (omega arith) (omega arith))
              (from (λ v' a b. f v' (omega (arith, a)) (omega (arith, b)))),
    )
  where
    and_true : {a b : Bool} → (a && b) ≡ true → (a ≡ true) × (b ≡ true)
    and_true h = ground (arith, h)

    both : {a b : Bool} → a ≡ true → b ≡ true → (a && b) ≡ true
    both h h' = ground (arith, h, h')

    ltb-cases : (a b : ℕ) → (a < b) ⊎ (b ≤ a)
    ltb-cases a b = ground arith

-- Where no large page lies between USER_BASE and USER_LIMIT, `vmm_verify_user_access` lets a program
-- read a range of 64-bit words exactly where the range lies between USER_BASE and USER_LIMIT and, by
-- `vmm_is_user_page`, all pages that it touches belong to the program.
pub vmm_verify_user_access_iff :
    (locked : Bool) (addr size : ℕ) (s : Vmm)
    → Small s
    → addr < 2 ^ 64
    → size < 2 ^ 64
    → ((vmm_verify_user_access locked false addr size s).0 ≡ true) ↔ (
        (user_base ≤ addr)
        × (addr + size ≤ user_limit + 1)
        × ((v : ℕ)
            → first_page addr ≤ v
            → v < page_align_up (addr + size)
            → vmm_is_user_page v s ≡ true))
unfolding vmm_verify_user_access
vmm_verify_user_access_iff locked addr size s small h h' =
    elim (Bool-cases (vmm_validate_user_ptr addr size)) [
      | inl ok ↦
          let (low, high) = (vmm_validate_user_ptr_iff addr size h h').0 ok in
          let end : first_page addr + page_count addr size * page_size
              ≡ page_align_up (addr + size) =
            omega (arith, high) in
          let (to, from) =
            verify_loop_iff locked s (page_count addr size) (first_page addr)
              (λ v a b. small v (omega (arith, low, a)) (omega (arith, b, end, high)))
              (omega arith) in
          rw ok (
            λ e. (low, high, λ v a b. to e v a (subst (λ n. v < n) (sym end) b)),
            λ (a, b, f). from (λ v c d. f v c (subst (λ n. v < n) end d)),
          )
      | inr bad ↦ rw bad (
        λ e. absurd (true≢false (sym e)),
        λ (a, b, f).
            absurd (true≢false (sym ((vmm_validate_user_ptr_iff addr size h h').1 (a, b)) ∙ bad)),
      )
    ]
