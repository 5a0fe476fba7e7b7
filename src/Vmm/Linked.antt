-- ===== src/Vmm/Linked.antt =====
-- The tree of kernel/mm/vmm.c after `get_next_table` links a table.
use mathlib.Core.Option.{some-injective}
use mathlib.Core.List.{tail-eq_of_cons-eq, head-eq_of_cons-eq}
use eter_os.Base.{
  ℕ, suc, ◌+◌, ◌*◌, ◌/◌, ◌%◌, ◌^◌, ◌<◌, ◌≡◌, ◌≢◌, ◌∙◌, sym, ap, ap₂, subst, ◌⊎◌, inl, inr, true,
  false, ◌&&◌, none, some, List, ◌∷◌, length, if◌then◌else◌, arith, Option-cases, ℕ_discrete,
}
use eter_os.Pmm.{Pmm, page_size}
use eter_os.Bcache.{Bcache}
use eter_os.Vmm.{Entry, Vmm, no_entry, table_flags}
use eter_os.Vmm.Tree.{
  node, Short, IsTree, page_of, large_page_of, frame_of, frame_of-none, frame_of_page,
  frame_of_large,
}
use eter_os.Vmm.Table.{Links, node-After, not_new}

large_page_of_nothing : (e : Entry) (i : ℕ) → e ≡ no_entry → large_page_of e i ≡ none
unfolding large_page_of
large_page_of_nothing e i h =
    ap
      (λ (y : Entry).
        if y.flags.present && y.flags.huge then some (y.addr + i * page_size) else none)
      h

module _ {s : Vmm} {q : Pmm} {tables : ℕ → ℕ → Entry} {p : List ℕ} {t i n : ℕ} {entries : ℕ → Entry}
    (l : Links s q tables p t i n entries) where
  is_new :
      (r : List ℕ) (x : ℕ) → node tables s.pml4 r ≡ some n → node tables s.pml4 r ≡ some x → x ≡ n
  is_new r x e h = some-injective x n (sym h ∙ e)

  used_after :
      (r : List ℕ) (x : ℕ)
      → Short r
      → node tables s.pml4 r ≡ some x
      → (q.bitmap (x / page_size) ≡ true) × (x % page_size ≡ 0)
  used_after r x short h = elim (node-After l r short) [
    | inl (e, here, gone) ↦
        subst (λ y. (q.bitmap (y / page_size) ≡ true) × (y % page_size ≡ 0))
          (sym (is_new r x here h)) (l.taken, l.aligned)
    | inr (h', same) ↦
        let (used, aligned) = l.tree.used r x short (sym same ∙ h) in
        (l.kept (x / page_size) used, aligned)
  ]

  distinct_after :
      (r r' : List ℕ) (x : ℕ)
      → Short r
      → Short r'
      → node tables s.pml4 r ≡ some x
      → node tables s.pml4 r' ≡ some x
      → r ≡ r'
  distinct_after r r' x short short' h h' = elim (node-After l r short) [
    | inl (e, here, gone) ↦ elim (node-After l r' short') [
      | inl (e', here', gone') ↦ e ∙ sym e'
      | inr (ne, same) ↦ absurd (not_new l r' x short' (sym same ∙ h') (is_new r x here h))
    ]
    | inr (ne, same) ↦ elim (node-After l r' short') [
      | inl (e', here', gone') ↦ absurd (not_new l r x short (sym same ∙ h) (is_new r' x here' h'))
      | inr (ne', same') ↦ l.tree.distinct r r' x short short' (sym same ∙ h) (sym same' ∙ h')
    ]
  ]

  -- An entry of a table of the tree is an old one, the new one, or one in the new table.
  entry_after :
      (r : List ℕ) (x j : ℕ)
      → Short r
      → node tables s.pml4 r ≡ some x
      → (r ≡ i ∷ p) × (tables x j ≡ entries j)
        ⊎ ((r ≡ p) × (j ≡ i) × (tables x j ≡ record { addr = n; flags = table_flags })
            ⊎ (node s.tables s.pml4 r ≡ some x) × (tables x j ≡ s.tables x j))
  entry_after r x j short h = elim (node-After l r short) [
    | inl (e, here, gone) ↦ inl (e, ap (λ y. tables y j) (is_new r x here h) ∙ l.inside j)
    | inr (ne, same) ↦ elim (ℕ_discrete x t) [
      | no out ↦ inr (inr (sym same ∙ h, l.elsewhere x j out (not_new l r x short (sym same ∙ h))))
      | yes e ↦ elim (ℕ_discrete j i) [
        | yes e' ↦ inr (
            inl (
              l.tree.distinct r p t short (omega (arith, l.upper)) (sym same ∙ h ∙ ap some e) l.at,
              e',
              ap₂ tables e e' ∙ l.here,
            ))
        | no out ↦ inr (
            inr (
              sym same ∙ h,
              ap (λ y. tables y j) e ∙ l.there j out ∙ ap (λ y. s.tables y j) (sym e),
            ))
      ]
    ]
  ]

  small_after :
      (r : List ℕ) (x j : ℕ)
      → length r < 2
      → node tables s.pml4 r ≡ some x
      → (tables x j).flags.huge ≡ false
  small_after r x j short h = elim (entry_after r x j (omega (arith, short)) h) [
    | inl (e, same) ↦
        (let size : length r ≡ suc (length p) = ap length e in
          ap (λ (y : Entry). y.flags.huge) (same ∙ l.empty (omega (arith, size, short)) j))
    | inr (inl (e, e', same)) ↦ ap (λ (y : Entry). y.flags.huge) same
    | inr (inr (at, same)) ↦
        ap (λ (y : Entry). y.flags.huge) same ∙ l.tree.small_above r x j short at
  ]

  aligned_after :
      (r : List ℕ) (x j : ℕ)
      → length r ≡ 2
      → node tables s.pml4 r ≡ some x
      → (tables x j).flags.huge ≡ true
      → (tables x j).addr % 2 ^ 21 ≡ 0
  aligned_after r x j short h large = elim (entry_after r x j (omega (arith, short)) h) [
    | inl (e, same) ↦
        (let size : length r ≡ suc (length p) = ap length e in
          ap (λ (y : Entry). y.addr % 2 ^ 21) (same ∙ l.empty (omega (arith, size, short)) j))
    | inr (inl (e, e', same)) ↦ ground (arith, large, ap (λ (y : Entry). y.flags.huge) same)
    | inr (inr (at, same)) ↦
        ap (λ (y : Entry). y.addr % 2 ^ 21) same
        ∙ l.tree.large_aligned r x j short at (ap (λ (y : Entry). y.flags.huge) (sym same) ∙ large)
  ]

  -- The tables are a tree again.
  pub link-IsTree : (c : Bcache) → IsTree (record s { pmm = q; cache = c; tables = tables })
  link-IsTree c = record {
    valid = l.valid;
    zero_used = l.kept 0 l.tree.zero_used;
    used = used_after;
    distinct = distinct_after;
    small_above = small_after;
    large_aligned = aligned_after;
  }

  -- Without a last table on the way, before and after.
  frame_above :
      (i₁ i₂ : ℕ) (r : List ℕ)
      → length r ≡ 2
      → node tables s.pml4 (i₂ ∷ r) ≡ none
      → node s.tables s.pml4 (i₂ ∷ r) ≡ none
      → (i₂ ∷ r ≢ i ∷ p)
      → frame_of tables s.pml4 i₁ i₂ r ≡ frame_of s.tables s.pml4 i₁ i₂ r
  frame_above i₁ i₂ r size gone' gone ne = elim (node-After l r (omega (arith, size))) [
    | inl (e, here, before) ↦
        let size' : length r ≡ suc (length p) = ap length e in
        frame_of_large tables s.pml4 r i₁ i₂ n gone' here
        ∙ large_page_of_nothing (tables n i₂) i₁
            (l.inside i₂ ∙ l.empty (omega (arith, size, size')) i₂)
        ∙ sym (frame_of-none s.tables s.pml4 r i₁ i₂ before)
    | inr (ne', same) ↦ elim (Option-cases (node s.tables s.pml4 r)) [
      | inl out ↦
          frame_of-none tables s.pml4 r i₁ i₂ (same ∙ out)
          ∙ sym (frame_of-none s.tables s.pml4 r i₁ i₂ out)
      | inr (pd, at) ↦ elim (entry_after r pd i₂ (omega (arith, size)) (same ∙ at)) [
        | inl (e, there) ↦ absurd (ne' e)
        | inr (inl (e, e', there)) ↦ absurd (ne (ap₂ (λ a b. a ∷ b) e' e))
        | inr (inr (at', there)) ↦
            frame_of_large tables s.pml4 r i₁ i₂ pd gone' (same ∙ at)
            ∙ ap (λ y. large_page_of y i₁) there
            ∙ sym (frame_of_large s.tables s.pml4 r i₁ i₂ pd gone at)
      ]
    ]
  ]

  frame_old :
      (i₁ i₂ : ℕ) (r : List ℕ)
      → length r ≡ 2
      → node tables s.pml4 (i₂ ∷ r) ≡ node s.tables s.pml4 (i₂ ∷ r)
      → (i₂ ∷ r ≢ i ∷ p)
      → frame_of tables s.pml4 i₁ i₂ r ≡ frame_of s.tables s.pml4 i₁ i₂ r
  frame_old i₁ i₂ r size same ne = elim (Option-cases (node s.tables s.pml4 (i₂ ∷ r))) [
    | inl gone ↦ frame_above i₁ i₂ r size (same ∙ gone) gone ne
    | inr (pt, at) ↦ elim (entry_after (i₂ ∷ r) pt i₁ (omega (arith, size)) (same ∙ at)) [
      | inl (e, there) ↦ absurd (ne e)
      | inr (inl (e, e', there)) ↦
          (let size' : suc (length r) ≡ length p = ap length e in
            absurd (omega (arith, size, size', l.upper)))
      | inr (inr (at', there)) ↦
          frame_of_page tables s.pml4 r i₁ i₂ pt (same ∙ at)
          ∙ ap page_of there
          ∙ sym (frame_of_page s.tables s.pml4 r i₁ i₂ pt at)
    ]
  ]

  -- Every page keeps its frame.
  pub link-frame_of :
      (i₁ i₂ : ℕ) (r : List ℕ)
      → length r ≡ 2
      → frame_of tables s.pml4 i₁ i₂ r ≡ frame_of s.tables s.pml4 i₁ i₂ r
  link-frame_of i₁ i₂ r size = elim (node-After l (i₂ ∷ r) (omega (arith, size))) [
    | inr (ne, same) ↦ frame_old i₁ i₂ r size same ne
    | inl (e, here, gone) ↦
        let path = tail-eq_of_cons-eq e in
        frame_of_page tables s.pml4 r i₁ i₂ n here
        ∙ ap page_of (l.inside i₁)
        ∙ l.pages (sym (ap length path) ∙ size) i₁
        ∙ ap (λ j. large_page_of (s.tables t j) i₁) (sym (head-eq_of_cons-eq e))
        ∙ sym
            (frame_of_large s.tables s.pml4 r i₁ i₂ t gone (ap (node s.tables s.pml4) path ∙ l.at))
  ]
