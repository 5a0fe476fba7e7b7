-- ===== src/Vmm/Leaf.antt =====
-- The tree of kernel/mm/vmm.c after a change of an entry of a last table.
use eter_os.Base.{
  ℕ, suc, ◌%◌, ◌^◌, ◌<◌, ◌≡◌, ◌≢◌, refl, ◌∙◌, sym, ap, ap₂, inl, inr, some, List, [], ◌∷◌, length,
  arith, Option-cases, ℕ_discrete,
}
use eter_os.Vmm.{Entry, Vmm, set_entry}
use eter_os.Vmm.Tree.{
  node, Short, IsTree, page_of, large_page_of, frame_of, node_none, node_lem, frame_of-none,
  frame_of_page, frame_of_large,
}
use eter_os.Vmm.Table.{next_of-cong, set_entry_self, set_entry_beside, set_entry_elsewhere}

module _ {s : Vmm} (w : IsTree s) (i₁ i₂ : ℕ) (r : List ℕ) (size : length r ≡ 2) (pt : ℕ)
    (at : node s.tables s.pml4 (i₂ ∷ r) ≡ some pt) (e : Entry) where
  above : (q : List ℕ) (x : ℕ) → length q < 3 → node s.tables s.pml4 q ≡ some x → x ≢ pt
  above q x short h e' =
      let same : length q ≡ suc (length r) = ap length (
        w.distinct q (i₂ ∷ r) pt (omega (arith, short)) (omega (arith, size)) (h ∙ ap some e')
          at) in
      omega (arith, same, short, size)

  pub node_leaf :
      (q : List ℕ) → Short q → node (set_entry pt i₁ e s).tables s.pml4 q ≡ node s.tables s.pml4 q
  unfolding node
  node_leaf [] short = refl
  node_leaf (j ∷ q) short =
      let same = node_leaf q (omega (arith, short)) in
      elim (Option-cases (node s.tables s.pml4 q)) [
        | inl gone ↦
            node_none (set_entry pt i₁ e s).tables s.pml4 q j (same ∙ gone)
            ∙ sym (node_none s.tables s.pml4 q j gone)
        | inr (x, at') ↦
            node_lem (set_entry pt i₁ e s).tables s.pml4 q j x (same ∙ at')
            ∙ next_of-cong (set_entry pt i₁ e s).tables s.tables x j
                (set_entry_elsewhere pt i₁ e s x j (above q x (omega (arith, short)) at'))
            ∙ sym (node_lem s.tables s.pml4 q j x at')
      ]

  entry_above :
      (q : List ℕ) (x j : ℕ)
      → length q < 3
      → node (set_entry pt i₁ e s).tables s.pml4 q ≡ some x
      → (set_entry pt i₁ e s).tables x j ≡ s.tables x j
  entry_above q x j short h =
      set_entry_elsewhere pt i₁ e s x j
        (above q x short (sym (node_leaf q (omega (arith, short))) ∙ h))

  pub set_entry-IsTree : IsTree (set_entry pt i₁ e s)
  unfolding set_entry
  set_entry-IsTree = record {
    valid = w.valid;
    zero_used = w.zero_used;
    used = λ p t short h. w.used p t short (sym (node_leaf p short) ∙ h);
    distinct = λ p q t short short' h h'.
        w.distinct p q t short short' (sym (node_leaf p short) ∙ h) (sym (node_leaf q short') ∙ h');
    small_above = λ p t i short h.
        ap (λ (y : Entry). y.flags.huge) (entry_above p t i (omega (arith, short)) h)
        ∙ w.small_above p t i short (sym (node_leaf p (omega (arith, short))) ∙ h);
    large_aligned = λ p t i short h large.
        ap (λ (y : Entry). y.addr % 2 ^ 21) (entry_above p t i (omega (arith, short)) h)
        ∙ w.large_aligned p t i short (sym (node_leaf p (omega (arith, short))) ∙ h) (
            ap (λ (y : Entry). y.flags.huge) (sym (entry_above p t i (omega (arith, short)) h))
            ∙ large);
  }

  pub frame_self : frame_of (set_entry pt i₁ e s).tables s.pml4 i₁ i₂ r ≡ page_of e
  frame_self =
      frame_of_page (set_entry pt i₁ e s).tables s.pml4 r i₁ i₂ pt
        (node_leaf (i₂ ∷ r) (omega (arith, size)) ∙ at)
      ∙ ap page_of (set_entry_self pt i₁ e s)

  pub frame_other :
      (k₁ k₂ : ℕ) (q : List ℕ)
      → length q ≡ 2
      → k₁ ∷ k₂ ∷ q ≢ i₁ ∷ i₂ ∷ r
      → frame_of (set_entry pt i₁ e s).tables s.pml4 k₁ k₂ q ≡ frame_of s.tables s.pml4 k₁ k₂ q
  frame_other k₁ k₂ q size' ne =
      let same = node_leaf (k₂ ∷ q) (omega (arith, size')) in
      elim (Option-cases (node s.tables s.pml4 (k₂ ∷ q))) [
        | inr (x, at') ↦
            frame_of_page (set_entry pt i₁ e s).tables s.pml4 q k₁ k₂ x (same ∙ at')
            ∙ ap page_of (page_other x at')
            ∙ sym (frame_of_page s.tables s.pml4 q k₁ k₂ x at')
        | inl gone ↦ elim (Option-cases (node s.tables s.pml4 q)) [
          | inl out ↦
              frame_of-none (set_entry pt i₁ e s).tables s.pml4 q k₁ k₂
                (node_leaf q (omega (arith, size')) ∙ out)
              ∙ sym (frame_of-none s.tables s.pml4 q k₁ k₂ out)
          | inr (pd, at') ↦
              let at'' = node_leaf q (omega (arith, size')) ∙ at' in
              frame_of_large (set_entry pt i₁ e s).tables s.pml4 q k₁ k₂ pd (same ∙ gone) at''
              ∙ ap (λ y. large_page_of y k₁) (entry_above q pd k₂ (omega (arith, size')) at'')
              ∙ sym (frame_of_large s.tables s.pml4 q k₁ k₂ pd gone at')
        ]
      ]
    where
      page_other :
          (x : ℕ)
          → node s.tables s.pml4 (k₂ ∷ q) ≡ some x
          → (set_entry pt i₁ e s).tables x k₁ ≡ s.tables x k₁
      page_other x at' = elim (ℕ_discrete x pt) [
        | no out ↦ set_entry_elsewhere pt i₁ e s x k₁ out
        | yes e' ↦
            ap (λ y. (set_entry pt i₁ e s).tables y k₁) e'
            ∙ set_entry_beside pt i₁ e s k₁ (λ e₁. ne (
                ap₂ (λ a b. a ∷ b) e₁
                  (w.distinct (k₂ ∷ q) (i₂ ∷ r) pt (omega (arith, size')) (omega (arith, size))
                    (at' ∙ ap some e') at)))
            ∙ ap (λ y. s.tables y k₁) (sym e')
      ]
