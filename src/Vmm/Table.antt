-- ===== src/Vmm/Table.antt =====
-- A new table in the tree of kernel/mm/vmm.c, as `get_next_table` links it.
use mathlib.Core.Option.{some-injective}
use mathlib.Core.List.{head-eq_of_cons-eq, tail-eq_of_cons-eq, cons≢nil}
use eter_os.Base.{
  ℕ, suc, ◌/◌, ◌%◌, ◌<◌, ◌≡◌, ◌≢◌, refl, ◌∙◌, sym, ap, ap₂, ◌⊎◌, inl, inr, true, false, not, ◌&&◌,
  Option, none, some, List, [], ◌∷◌, length, if◌then◌else◌, arith, Option-cases, update,
  update_self, update_ne, ℕ_discrete,
}
use eter_os.Pmm.{Pmm, page_size}
use eter_os.Pmm.Accounting.{IsValid}
use eter_os.Vmm.{Entry, Vmm, no_entry, table_flags, set_entry}
use eter_os.Vmm.Tree.{next_of, node, Short, IsTree, page_of, large_page_of, node_none, node_lem}

-- Frame `n` becomes the table at `i ∷ p`.
pub record Links (s : Vmm) (q : Pmm) (tables : ℕ → ℕ → Entry) (p : List ℕ) (t i n : ℕ)
    (entries : ℕ → Entry) : Type 0 where
  pub tree : IsTree s
  pub upper : length p < 3
  pub at : node s.tables s.pml4 p ≡ some t
  pub unused : next_of s.tables t i ≡ none
  pub valid : IsValid q
  pub kept : (k : ℕ) → s.pmm.bitmap k ≡ true → q.bitmap k ≡ true
  pub taken : q.bitmap (n / page_size) ≡ true
  pub fresh : s.pmm.bitmap (n / page_size) ≡ false
  pub aligned : n % page_size ≡ 0
  pub here : tables t i ≡ record { addr = n; flags = table_flags }
  pub there : (j : ℕ) → j ≢ i → tables t j ≡ s.tables t j
  pub inside : (j : ℕ) → tables n j ≡ entries j
  pub elsewhere : (x j : ℕ) → x ≢ t → x ≢ n → tables x j ≡ s.tables x j
  pub empty : length p < 2 → (j : ℕ) → entries j ≡ no_entry
  pub pages : length p ≡ 2 → (j : ℕ) → page_of (entries j) ≡ large_page_of (s.tables t i) j

-- A change of one entry.
module _ (t i : ℕ) (e : Entry) (s : Vmm) where
  pub set_entry_self : (set_entry t i e s).tables t i ≡ e
  unfolding set_entry
  set_entry_self =
      ap (λ f. f i) (update_self s.tables t (update (s.tables t) i e))
      ∙ update_self (s.tables t) i e

  pub set_entry_beside : (j : ℕ) → j ≢ i → (set_entry t i e s).tables t j ≡ s.tables t j
  unfolding set_entry
  set_entry_beside j h =
      ap (λ f. f j) (update_self s.tables t (update (s.tables t) i e))
      ∙ update_ne (s.tables t) i e j h

  pub set_entry_elsewhere : (x j : ℕ) → x ≢ t → (set_entry t i e s).tables x j ≡ s.tables x j
  unfolding set_entry
  set_entry_elsewhere x j h = ap (λ f. f j) (update_ne s.tables t (update (s.tables t) i e) x h)

pub next_of-cong : (a b : ℕ → ℕ → Entry) (t i : ℕ) → a t i ≡ b t i → next_of a t i ≡ next_of b t i
unfolding next_of
next_of-cong a b t i e =
    ap (λ (x : Entry). if x.flags.present && not x.flags.huge then some x.addr else none) e

next_of_entry :
    (a : ℕ → ℕ → Entry) (t i n : ℕ)
    → a t i ≡ record { addr = n; flags = table_flags }
    → next_of a t i ≡ some n
unfolding next_of
next_of_entry a t i n e =
    ap (λ (x : Entry). if x.flags.present && not x.flags.huge then some x.addr else none) e

next_of_nothing : (a : ℕ → ℕ → Entry) (t i : ℕ) → a t i ≡ no_entry → next_of a t i ≡ none
unfolding next_of
next_of_nothing a t i e =
    ap (λ (x : Entry). if x.flags.present && not x.flags.huge then some x.addr else none) e

pub some_not_none : {A : Type 0} {a : A} {o : Option A} → o ≡ some a → o ≡ none → ⊥
some_not_none h h' = ground (arith, h, h')

module _ {s : Vmm} {q : Pmm} {tables : ℕ → ℕ → Entry} {p : List ℕ} {t i n : ℕ} {entries : ℕ → Entry}
    (l : Links s q tables p t i n entries) where
  pub not_new : (r : List ℕ) (x : ℕ) → Short r → node s.tables s.pml4 r ≡ some x → x ≢ n
  not_new r x short h e =
      let used = (l.tree.used r x short h).0 in
      ground (arith, used, l.fresh, ap (λ y. s.pmm.bitmap (y / page_size)) e)

  pub next_there : (j : ℕ) → j ≢ i → next_of tables t j ≡ next_of s.tables t j
  next_there j h = next_of-cong tables s.tables t j (l.there j h)

  pub next_elsewhere : (x j : ℕ) → x ≢ t → x ≢ n → next_of tables x j ≡ next_of s.tables x j
  next_elsewhere x j h h' = next_of-cong tables s.tables x j (l.elsewhere x j h h')

  new_before : node s.tables s.pml4 (i ∷ p) ≡ none
  new_before = node_lem s.tables s.pml4 p i t l.at ∙ l.unused

  -- What the tree has at a path.
  abbrev pub After : List ℕ → Type 0
  After r =
      (r ≡ i ∷ p) × (node tables s.pml4 r ≡ some n) × (node s.tables s.pml4 r ≡ none)
      ⊎ (r ≢ i ∷ p) × (node tables s.pml4 r ≡ node s.tables s.pml4 r)

  -- Below the new table.
  below_new :
      (j : ℕ) (r : List ℕ)
      → Short (j ∷ r)
      → r ≡ i ∷ p
      → node tables s.pml4 r ≡ some n
      → node s.tables s.pml4 r ≡ none
      → After (j ∷ r)
  below_new j r short e here gone =
      let size : length r ≡ suc (length p) = ap length e in
      let below =
        node_lem tables s.pml4 r j n here
        ∙ next_of_nothing tables n j (l.inside j ∙ l.empty (omega (arith, size, short)) j) in
      inr (
        λ e'.
            (let size' : suc (length r) ≡ suc (length p) = ap length e' in
              omega (arith, size, size')),
        below ∙ sym (node_none s.tables s.pml4 r j gone),
      )

  -- Below the table that the new one is linked in.
  below_self :
      (j : ℕ) (r : List ℕ) (x : ℕ)
      → node s.tables s.pml4 r ≡ some x
      → node tables s.pml4 r ≡ node s.tables s.pml4 r
      → x ≡ t
      → r ≡ p
      → After (j ∷ r)
  below_self j r x at same e path =
      let at' = same ∙ at ∙ ap some e in
      elim (ℕ_discrete j i) [
        | yes e' ↦ inl (
          ap₂ (λ a b. a ∷ b) e' path,
          node_lem tables s.pml4 r j t at'
              ∙ ap (next_of tables t) e'
              ∙ next_of_entry tables t i n l.here,
          ap₂ (λ a b. node s.tables s.pml4 (a ∷ b)) e' path ∙ new_before,
        )
        | no h ↦ inr (
          λ e'. h (head-eq_of_cons-eq e'),
          node_lem tables s.pml4 r j t at'
              ∙ next_there j h
              ∙ sym (node_lem s.tables s.pml4 r j t (at ∙ ap some e)),
        )
      ]

  -- Below a table of the tree.
  below_old :
      (j : ℕ) (r : List ℕ)
      → Short (j ∷ r)
      → node tables s.pml4 r ≡ node s.tables s.pml4 r
      → After (j ∷ r)
  below_old j r short same = elim (Option-cases (node s.tables s.pml4 r)) [
    | inl gone ↦ inr (
      λ e. some_not_none l.at (ap (node s.tables s.pml4) (sym (tail-eq_of_cons-eq e)) ∙ gone),
      node_none tables s.pml4 r j (same ∙ gone) ∙ sym (node_none s.tables s.pml4 r j gone),
    )
    | inr (x, at) ↦ elim (ℕ_discrete x t) [
      | yes e ↦ below_self j r x at same e (
          l.tree.distinct r p t (omega (arith, short)) (omega (arith, l.upper)) (at ∙ ap some e)
            l.at)
      | no h ↦ inr (
        λ e.
            h (
              some-injective x t
                (sym at ∙ ap (node s.tables s.pml4) (tail-eq_of_cons-eq e) ∙ l.at)),
        node_lem tables s.pml4 r j x (same ∙ at)
            ∙ next_elsewhere x j h (not_new r x (omega (arith, short)) at)
            ∙ sym (node_lem s.tables s.pml4 r j x at),
      )
    ]
  ]

  pub node-After : (r : List ℕ) → Short r → After r
  unfolding node
  node-After [] short = inr (λ e. cons≢nil (sym e), refl)
  node-After (j ∷ r) short = elim (node-After r (omega (arith, short))) [
    | inl (e, here, gone) ↦ below_new j r short e here gone
    | inr (h, same) ↦ below_old j r short same
  ]
