-- ===== src/Vmm/Address.antt =====
-- The translations of `vmm_virt_to_phys` of kernel/mm/vmm.c, before and after a change of the tables.
use mathlib.Core.List.{head-eq_of_cons-eq, tail-eq_of_cons-eq}
use eter_os.Base.{
  ℕ, ◌/◌, ◌%◌, ◌^◌, ◌≡◌, ◌≢◌, refl, ◌∙◌, sym, ap, ap₂, some, [], ◌∷◌, arith, ◌==◌, if◌then◌else◌,
}
use eter_os.Pmm.{page_size}
use eter_os.Vmm.{
  Entry, Vmm, set_entry, vmm_virt_to_phys, pt_index, pd_index, pdpt_index, pml4_index,
}
use eter_os.Vmm.Tree.{node, IsTree, page_of, frame_of, frame_at, address_in}
use eter_os.Vmm.Walk.{translate-frame_at}
use eter_os.Vmm.Leaf.{set_entry-IsTree, frame_self, frame_other}
use eter_os.Vmm.Take.{Keeps}
use eter_os.Vmm.Find.{path_of}

-- The page of an address: its bits 12 to 47.
abbrev pub page_no : ℕ → ℕ
page_no v = v / page_size % 2 ^ 36

page_no_indices :
    (v v' : ℕ)
    → pt_index v' ∷ pd_index v' ∷ path_of v' ≡ pt_index v ∷ pd_index v ∷ path_of v
    → page_no v' ≡ page_no v
page_no_indices v v' e =
    let e' = tail-eq_of_cons-eq e in
    let e'' = tail-eq_of_cons-eq e' in
    same (head-eq_of_cons-eq e) (head-eq_of_cons-eq e') (head-eq_of_cons-eq e'')
      (head-eq_of_cons-eq (tail-eq_of_cons-eq e''))
  where
    same :
        pt_index v' ≡ pt_index v
        → pd_index v' ≡ pd_index v
        → pdpt_index v' ≡ pdpt_index v
        → pml4_index v' ≡ pml4_index v
        → page_no v' ≡ page_no v
    same h₁ h₂ h₃ h₄ = omega arith

pub frame_at_page : (s : Vmm) (v v' : ℕ) → page_no v' ≡ page_no v → frame_at s v' ≡ frame_at s v
frame_at_page s v v' h =
    let h₁ : pt_index v' ≡ pt_index v = omega (arith, h) in
    let h₂ : pd_index v' ≡ pd_index v = omega (arith, h) in
    let h₃ : pdpt_index v' ≡ pdpt_index v = omega (arith, h) in
    let h₄ : pml4_index v' ≡ pml4_index v = omega (arith, h) in
    ap₂ (λ i j. frame_of s.tables s.pml4 i j (path_of v')) h₁ h₂
    ∙ ap₂ (λ i j. frame_of s.tables s.pml4 (pt_index v) (pd_index v) (i ∷ j ∷ [])) h₃ h₄

virt_to_phys-cong :
    {s s' : Vmm}
    → IsTree s
    → IsTree s'
    → (v : ℕ) → frame_at s' v ≡ frame_at s v
    → vmm_virt_to_phys v s' ≡ vmm_virt_to_phys v s
unfolding vmm_virt_to_phys
virt_to_phys-cong w w' v h =
    ap (λ a. if v == 0 then 0 else a)
      (translate-frame_at w' v ∙ ap (λ o. address_in o v) h ∙ sym (translate-frame_at w v))

pub virt_to_phys_frame :
    {s : Vmm} → IsTree s → (v : ℕ) → v ≢ 0 → vmm_virt_to_phys v s ≡ address_in (frame_at s v) v
unfolding vmm_virt_to_phys
virt_to_phys_frame w v h = ground (arith, h, translate-frame_at w v)

-- Every address keeps its translation.
abbrev pub Same : Vmm → Vmm → Type 0
Same s s' = (v : ℕ) → vmm_virt_to_phys v s' ≡ vmm_virt_to_phys v s

pub Keeps-frame_at : {s s' : Vmm} → Keeps s s' → (v : ℕ) → frame_at s' v ≡ frame_at s v
Keeps-frame_at {s} {s'} k v =
    ap (λ x. frame_of s'.tables x (pt_index v) (pd_index v) (path_of v)) k.root
    ∙ k.frames (pt_index v) (pd_index v) (path_of v) refl

pub Keeps-Same : {s s' : Vmm} → IsTree s → Keeps s s' → Same s s'
Keeps-Same w k v = virt_to_phys-cong w k.tree v (Keeps-frame_at k v)

-- An entry of the last table of an address.
module _ {s : Vmm} (w : IsTree s) (v pt : ℕ)
    (at : node s.tables s.pml4 (pd_index v ∷ path_of v) ≡ some pt) (e : Entry) where
  abbrev entered : Vmm
  entered = set_entry pt (pt_index v) e s

  pub entered-IsTree : IsTree entered
  entered-IsTree = set_entry-IsTree w (pt_index v) (pd_index v) (path_of v) refl pt at e

  pub entered_frame_self : (v' : ℕ) → page_no v' ≡ page_no v → frame_at entered v' ≡ page_of e
  unfolding set_entry
  entered_frame_self v' h =
      frame_at_page entered v v' h ∙ frame_self w (pt_index v) (pd_index v) (path_of v) refl pt at e

  pub entered_frame_other : (v' : ℕ) → page_no v' ≢ page_no v → frame_at entered v' ≡ frame_at s v'
  unfolding set_entry
  entered_frame_other v' h =
      frame_other w (pt_index v) (pd_index v) (path_of v) refl pt at e (pt_index v') (pd_index v')
        (path_of v') refl (λ e'. h (page_no_indices v v' e'))

  pub entered_self :
      (v' : ℕ)
      → page_no v' ≡ page_no v
      → v' ≢ 0
      → vmm_virt_to_phys v' entered ≡ address_in (page_of e) v'
  entered_self v' h h' =
      virt_to_phys_frame entered-IsTree v' h' ∙ ap (λ o. address_in o v') (entered_frame_self v' h)

  pub entered_other :
      (v' : ℕ) → page_no v' ≢ page_no v → vmm_virt_to_phys v' entered ≡ vmm_virt_to_phys v' s
  entered_other v' h = virt_to_phys-cong w entered-IsTree v' (entered_frame_other v' h)
