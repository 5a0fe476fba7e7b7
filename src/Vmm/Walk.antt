-- ===== src/Vmm/Walk.antt =====
-- The walk of `vmm_virt_to_phys` of kernel/mm/vmm.c through a tree of tables.
use eter_os.Base.{
  ℕ, ◌+◌, ◌*◌, ◌/◌, ◌%◌, ◌^◌, ◌≡◌, refl, ◌∙◌, sym, ap, ap₂, inl, inr, true, false, not, ◌&&◌, none,
  some, List, [], ◌∷◌, if◌then◌else◌, arith, Bool-cases, if_true, if_false,
}
use eter_os.Pmm.{page_size}
use eter_os.Vmm.{Entry, Vmm, translate, pt_index, pd_index, pdpt_index, pml4_index}
use eter_os.Vmm.Tree.{
  node, IsTree, page_of, large_page_of, frame_of, frame_at, address_in, node_none, node_lem,
  frame_of-none, frame_of_page, frame_of_large, next_of_absent, next_of_large, next_of_small,
}

-- The ends of the walk, in the arithmetic of the code.
large_address :
    (e : Entry) (v : ℕ)
    → e.flags.present ≡ true
    → e.flags.huge ≡ true
    → e.addr % 2 ^ 21 ≡ 0
    → e.addr / 2 ^ 21 * 2 ^ 21 + v % 2 ^ 21 ≡ address_in (large_page_of e (pt_index v)) v
unfolding large_page_of
large_address e v h h' a =
    let sum : e.addr / 2 ^ 21 * 2 ^ 21 + v % 2 ^ 21
        ≡ e.addr + pt_index v * page_size + v % page_size =
      omega (arith, a) in
    sum
    ∙ ap (λ o. address_in o v)
        (sym (ap₂ (λ b c. if b && c then some (e.addr + pt_index v * page_size) else none) h h'))

small_address :
    (e : Entry) (v : ℕ)
    → (if not e.flags.present then 0 else e.addr + v % 2 ^ 12) ≡ address_in (page_of e) v
unfolding page_of
small_address e v = ground arith

absent_address :
    (e : Entry) (i v : ℕ) → e.flags.present ≡ false → 0 ≡ address_in (large_page_of e i) v
unfolding large_page_of
absent_address e i v h = ground (arith, h)

-- The walk of the code below a page directory.
walk_pd :
    (tables : ℕ → ℕ → Entry) (root pd i₂ v : ℕ) (p : List ℕ)
    → node tables root p ≡ some pd
    → ((tables pd i₂).flags.huge ≡ true → (tables pd i₂).addr % 2 ^ 21 ≡ 0)
    → (if not (tables pd i₂).flags.present
        then 0
        else if (tables pd i₂).flags.huge
        then (tables pd i₂).addr / 2 ^ 21 * 2 ^ 21 + v % 2 ^ 21
        else if not (tables (tables pd i₂).addr (pt_index v)).flags.present
        then 0
        else (tables (tables pd i₂).addr (pt_index v)).addr + v % 2 ^ 12)
      ≡ address_in (frame_of tables root (pt_index v) i₂ p) v
walk_pd tables root pd i₂ v p at aligned = elim (Bool-cases (tables pd i₂).flags.present) [
  | inl here ↦ elim (Bool-cases (tables pd i₂).flags.huge) [
    | inl large ↦
        let stop = node_lem tables root p i₂ pd at ∙ next_of_large tables pd i₂ large in
        if_false _ _ (ap not here)
        ∙ if_true _ _ large
        ∙ large_address (tables pd i₂) v here large (aligned large)
        ∙ ap (λ o. address_in o v) (sym (frame_of_large tables root p (pt_index v) i₂ pd stop at))
    | inr small ↦
        let pt = node_lem tables root p i₂ pd at ∙ next_of_small tables pd i₂ here small in
        if_false _ _ (ap not here)
        ∙ if_false _ _ small
        ∙ small_address (tables (tables pd i₂).addr (pt_index v)) v
        ∙ ap (λ o. address_in o v)
            (sym (frame_of_page tables root p (pt_index v) i₂ (tables pd i₂).addr pt))
  ]
  | inr gone ↦
      let stop = node_lem tables root p i₂ pd at ∙ next_of_absent tables pd i₂ gone in
      if_true _ _ (ap not gone)
      ∙ absent_address (tables pd i₂) (pt_index v) v gone
      ∙ ap (λ o. address_in o v) (sym (frame_of_large tables root p (pt_index v) i₂ pd stop at))
]

nowhere :
    (tables : ℕ → ℕ → Entry) (root i₂ v : ℕ) (p : List ℕ)
    → node tables root p ≡ none
    → 0 ≡ address_in (frame_of tables root (pt_index v) i₂ p) v
nowhere tables root i₂ v p h =
    ap (λ o. address_in o v) (sym (frame_of-none tables root p (pt_index v) i₂ h))

-- In a tree, the walk of the code gives the frame of the page.
pub translate-frame_at :
    {s : Vmm} → IsTree s → (v : ℕ) → translate s.tables s.pml4 v ≡ address_in (frame_at s v) v
unfolding translate node
translate-frame_at {s} w v =
    let e₄ = s.tables s.pml4 (pml4_index v) in
    let e₃ = s.tables e₄.addr (pdpt_index v) in
    let small₄ = w.small_above [] s.pml4 (pml4_index v) (omega arith) refl in
    elim (Bool-cases e₄.flags.present) [
      | inr gone ↦
          let stop = next_of_absent s.tables s.pml4 (pml4_index v) gone in
          if_true _ _ (ap not gone)
          ∙ nowhere s.tables s.pml4 (pd_index v) v (pdpt_index v ∷ pml4_index v ∷ [])
              (node_none s.tables s.pml4 (pml4_index v ∷ []) (pdpt_index v) stop)
      | inl here₄ ↦
          let at₃ = next_of_small s.tables s.pml4 (pml4_index v) here₄ small₄ in
          let small₃ = w.small_above (pml4_index v ∷ []) e₄.addr (pdpt_index v) (omega arith) at₃ in
          if_false _ _ (ap not here₄) ∙ elim (Bool-cases e₃.flags.present) [
            | inr gone ↦
                let stop =
                  node_lem s.tables s.pml4 (pml4_index v ∷ []) (pdpt_index v) e₄.addr at₃
                  ∙ next_of_absent s.tables e₄.addr (pdpt_index v) gone in
                if_true _ _ (ap not gone) ∙ nowhere s.tables s.pml4 (pd_index v) v _ stop
            | inl here₃ ↦
                let at₂ =
                  node_lem s.tables s.pml4 (pml4_index v ∷ []) (pdpt_index v) e₄.addr at₃
                  ∙ next_of_small s.tables e₄.addr (pdpt_index v) here₃ small₃ in
                if_false _ _ (ap not here₃)
                ∙ if_false _ _ small₃
                ∙ walk_pd s.tables s.pml4 e₃.addr (pd_index v) v (pdpt_index v ∷ pml4_index v ∷ [])
                    at₂
                    (w.large_aligned (pdpt_index v ∷ pml4_index v ∷ []) e₃.addr (pd_index v)
                      (omega arith) at₂)
          ]
    ]
