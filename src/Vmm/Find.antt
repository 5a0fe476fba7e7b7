-- ===== src/Vmm/Find.antt =====
-- The way down to a last table in kernel/mm/vmm.c.
use eter_os.Base.{
  ℕ, ◌≡◌, refl, ◌∙◌, sym, ap, ◌⊎◌, inl, inr, Bool, false, Option, none, some, List, [], ◌∷◌, arith,
}
use eter_os.Vmm.{Entry, Vmm, get_next_table, find_pt, pd_index, pdpt_index, pml4_index}
use eter_os.Vmm.Tree.{
  node, IsTree, large_page_of, frame_of, node_none, node_lem, next_of_absent, frame_of-none,
  frame_of_large,
}
use eter_os.Vmm.Table.{some_not_none}
use eter_os.Vmm.Take.{Full, Keeps}
use eter_os.Vmm.Next.{Descends, get_next_table-Descends}

-- The tables above the last one of an address.
abbrev pub path_of : ℕ → List ℕ
path_of v = pdpt_index v ∷ pml4_index v ∷ []

-- A last table for the address is found, or there is a reason.
pub record Finds (s : Vmm) (alloc : Bool) (v : ℕ) (r : Option ℕ × Vmm) : Type 0 where
  pub keeps : Keeps s r.1
  pub reached : (u : ℕ) → r.0 ≡ some u → node r.1.tables s.pml4 (pd_index v ∷ path_of v) ≡ some u
  pub missing :
      r.0 ≡ none
      → Full r.1.pmm
        ⊎ (alloc ≡ false) × ((i : ℕ) → frame_of r.1.tables s.pml4 i (pd_index v) (path_of v) ≡ none)

Keeps-trans : {s s₁ s₂ : Vmm} → Keeps s s₁ → Keeps s₁ s₂ → Keeps s s₂
Keeps-trans {s} {s₁} {s₂} a b = record {
  tree = b.tree;
  root = b.root ∙ a.root;
  contents = b.contents ∙ a.contents;
  kept = λ k h. b.kept k (a.kept k h);
  frames = λ i₁ i₂ q h.
      ap (λ x. frame_of s₂.tables x i₁ i₂ q) (sym a.root)
      ∙ b.frames i₁ i₂ q h
      ∙ ap (λ x. frame_of s₁.tables x i₁ i₂ q) a.root
      ∙ a.frames i₁ i₂ q h;
}

Finds-trans :
    {s s₁ : Vmm} {alloc : Bool} {v : ℕ} {r : Option ℕ × Vmm}
    → Keeps s s₁
    → Finds s₁ alloc v r
    → Finds s alloc v r
Finds-trans {s} {s₁} {alloc} {v} {r} a f = record {
  keeps = Keeps-trans a f.keeps;
  reached =
      λ u h. ap (λ x. node r.1.tables x (pd_index v ∷ path_of v)) (sym a.root) ∙ f.reached u h;
  missing = λ h. elim (f.missing h) [
    | inl full ↦ inl full
    | inr (e, g) ↦
        inr (e, λ i. ap (λ x. frame_of r.1.tables x i (pd_index v) (path_of v)) (sym a.root) ∙ g i)
  ];
}

-- A step down, and then the rest of the way.
then-Finds :
    {s : Vmm} {alloc : Bool} {p : List ℕ} {t i v : ℕ} {r : Option ℕ × Vmm}
    (rest : ℕ → Vmm → Option ℕ × Vmm)
    → Descends s alloc p t i r
    → ((tables : ℕ → ℕ → Entry) (i' : ℕ)
        → node tables s.pml4 (i ∷ p) ≡ none
        → frame_of tables s.pml4 i' (pd_index v) (path_of v) ≡ none)
    → ((u : ℕ)
        → IsTree r.1
        → node r.1.tables r.1.pml4 (i ∷ p) ≡ some u
        → Finds r.1 alloc v (rest u r.1))
    → Finds s alloc v (elim r.0 [ none ↦ (none, r.1) | some u ↦ rest u r.1 ])
then-Finds {s} {alloc} {p} {t} {i} {v} {r = (none, s')} rest d out next = record {
  keeps = d.keeps;
  reached = λ u h. absurd (some_not_none h refl);
  missing = λ h. elim (d.missing h) [
    | inl full ↦ inl full
    | inr (e, at, gone) ↦ inr (
      e,
      λ i'.
          out s'.tables i' (node_lem s'.tables s.pml4 p i t at ∙ next_of_absent s'.tables t i gone),
    )
  ];
}
then-Finds {s} {alloc} {p} {i = i} {r = (some u, s')} rest d out next =
    Finds-trans d.keeps
      (next u d.keeps.tree (ap (λ x. node s'.tables x (i ∷ p)) d.keeps.root ∙ d.reached u refl))

large_page_of_absent : (e : Entry) (i : ℕ) → e.flags.present ≡ false → large_page_of e i ≡ none
unfolding large_page_of
large_page_of_absent e i h = rw h refl

-- The last step.
last-Finds :
    {s : Vmm} {alloc : Bool} {t v : ℕ} {r : Option ℕ × Vmm}
    → Descends s alloc (path_of v) t (pd_index v) r
    → Finds s alloc v r
last-Finds {s} {alloc} {t} {v} {r} d = record {
  keeps = d.keeps;
  reached = d.reached;
  missing = λ h. elim (d.missing h) [
    | inl full ↦ inl full
    | inr (e, at, gone) ↦ inr (
      e,
      λ i.
          let out =
            node_lem r.1.tables s.pml4 (path_of v) (pd_index v) t at
            ∙ next_of_absent r.1.tables t (pd_index v) gone in
          frame_of_large r.1.tables s.pml4 (path_of v) i (pd_index v) t out at
          ∙ large_page_of_absent (r.1.tables t (pd_index v)) i gone,
    )
  ];
}

pub find_pt-Finds :
    (locked alloc : Bool) (v : ℕ) {s : Vmm} → IsTree s → Finds s alloc v (find_pt locked alloc v s)
unfolding find_pt node
find_pt-Finds locked alloc v {s} w =
    then-Finds
      (λ pdpt s₁.
        (let (pd, s₂) = get_next_table locked alloc pdpt (pdpt_index v) s₁ in
          elim pd [ none ↦ (none, s₂) | some pd ↦ get_next_table locked alloc pd (pd_index v) s₂ ]))
      (get_next_table-Descends locked alloc w [] s.pml4 (pml4_index v) (omega arith) refl)
      (λ tables i' out.
        frame_of-none tables s.pml4 (path_of v) i' (pd_index v)
          (node_none tables s.pml4 (pml4_index v ∷ []) (pdpt_index v) out))
      (λ pdpt w₁ at₁.
        then-Finds (λ pd s₂. get_next_table locked alloc pd (pd_index v) s₂)
          (get_next_table-Descends locked alloc w₁ (pml4_index v ∷ []) pdpt (pdpt_index v)
            (omega arith) at₁)
          (λ tables i' out. frame_of-none tables _ (path_of v) i' (pd_index v) out)
          (λ pd w₂ at₂. last-Finds (
            get_next_table-Descends locked alloc w₂ (path_of v) pd (pd_index v) (omega arith) at₂)))
