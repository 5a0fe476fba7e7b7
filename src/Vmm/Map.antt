-- ===== src/Vmm/Map.antt =====
-- `vmm_map_page` and `vmm_unmap_page` of kernel/mm/vmm.c, seen through `vmm_virt_to_phys`.
use mathlib.Core.Bool.{true≢false}
use eter_os.Base.{
  ℕ_discrete, ◌==◌, ℕ, ◌+◌, ◌%◌, ◌≡◌, ◌≢◌, refl, ◌∙◌, sym, ap, subst, ◌⊎◌, inl, inr, Bool, true,
  false, Option, none, some, ◌∷◌, arith, Bool-cases, if◌then◌else◌, if_true, if_false,
}
use eter_os.Pmm.{page_size}
use eter_os.Vmm.{
  Flags, Entry, Vmm, no_entry, set_entry, find_pt, vmm_map_page, vmm_unmap_page, vmm_virt_to_phys,
  page_addr_mask, pt_index, pd_index,
}
use eter_os.Vmm.Tree.{node, IsTree, page_of, frame_of, frame_at, address_in, frame_of_page}
use eter_os.Vmm.Take.{Full}
use eter_os.Vmm.Find.{path_of, Finds, find_pt-Finds}
use eter_os.Vmm.Address.{
  page_no, Same, Keeps-Same, entered-IsTree, entered_self, entered_other, frame_at_page,
  virt_to_phys_frame,
}

-- What `vmm_map_page` does to the translations.
pub record Maps (s : Vmm) (phys_addr virt_addr : ℕ) (flags : Flags) (r : Bool × Vmm) : Type 0 where
  pub tree : IsTree r.1
  pub others :
      (v : ℕ) → page_no v ≢ page_no virt_addr → vmm_virt_to_phys v r.1 ≡ vmm_virt_to_phys v s
  pub mapped :
      r.0 ≡ true
      → (v : ℕ) → page_no v ≡ page_no virt_addr
      → v ≢ 0
      → vmm_virt_to_phys v r.1
        ≡ (if flags.present then page_addr_mask phys_addr + v % page_size else 0)
  pub refused : r.0 ≡ false → Full r.1.pmm × Same s r.1

-- What `vmm_unmap_page` does to them.
pub record Unmaps (s : Vmm) (virt_addr : ℕ) (s' : Vmm) : Type 0 where
  pub tree : IsTree s'
  pub others :
      (v : ℕ) → page_no v ≢ page_no virt_addr → vmm_virt_to_phys v s' ≡ vmm_virt_to_phys v s
  pub gone :
      ((v : ℕ) → page_no v ≡ page_no virt_addr → vmm_virt_to_phys v s' ≡ 0)
      ⊎ Full s'.pmm × Same s s'

page_of_address :
    (e : Entry) (v : ℕ)
    → address_in (page_of e) v ≡ (if e.flags.present then e.addr + v % page_size else 0)
unfolding page_of
page_of_address e v = ground arith

page_of_absent : (e : Entry) → e.flags.present ≡ false → page_of e ≡ none
unfolding page_of
page_of_absent e h = rw h refl

-- NULL has no translation.
unless_null : (v : ℕ) (s : Vmm) → (v ≢ 0 → vmm_virt_to_phys v s ≡ 0) → vmm_virt_to_phys v s ≡ 0
unfolding vmm_virt_to_phys
unless_null v s h = elim (ℕ_discrete v 0) [
  | yes e ↦ if_true _ _ (ap (λ x. x == 0) e)
  | no h' ↦ h h'
]

absent_page :
    {s : Vmm}
    → IsTree s
    → (v : ℕ) → frame_at s v ≡ none
    → (v' : ℕ) → page_no v' ≡ page_no v
    → vmm_virt_to_phys v' s ≡ 0
absent_page {s} w v out v' h =
    unless_null v' s
      (λ h'. virt_to_phys_frame w v' h' ∙ ap (λ o. address_in o v') (frame_at_page s v v' h ∙ out))

module _ {s : Vmm} (w : IsTree s) (v : ℕ) where
  map_found :
      (phys_addr : ℕ) (flags : Flags) (r : Option ℕ × Vmm)
      → Finds s true v r
      → Maps s phys_addr v flags (elim r.0 [
        | none ↦ (false, r.1)
        | some pt ↦ (
          true,
          set_entry pt (pt_index v) (record { addr = page_addr_mask phys_addr; flags = flags }) r.1,
        )
      ])
  map_found phys_addr flags (none, s') f = record {
    tree = f.keeps.tree;
    others = λ v' h. Keeps-Same w f.keeps v';
    mapped = λ h. absurd (true≢false (sym h));
    refused = λ h. elim (f.missing refl) [
      | inl full ↦ (full, Keeps-Same w f.keeps)
      | inr (e, out) ↦ absurd (true≢false e)
    ];
  }
  map_found phys_addr flags (some pt, s') f =
      let w' = f.keeps.tree in
      let at =
        ap (λ x. node s'.tables x (pd_index v ∷ path_of v)) f.keeps.root ∙ f.reached pt refl in
      let e : Entry = record { addr = page_addr_mask phys_addr; flags = flags } in
      record {
        tree = entered-IsTree w' v pt at e;
        others = λ v' h. entered_other w' v pt at e v' h ∙ Keeps-Same w f.keeps v';
        mapped = λ h v' h' h''. entered_self w' v pt at e v' h' h'' ∙ page_of_address e v';
        refused = λ h. absurd (true≢false h);
      }

  unmap_found :
      (r : Option ℕ × Vmm)
      → Finds s false v r
      → Unmaps s v (elim r.0 [
        | none ↦ r.1
        | some pt ↦
            if (r.1.tables pt (pt_index v)).flags.present
            then set_entry pt (pt_index v) no_entry r.1
            else r.1
      ])
  unmap_found (none, s') f = record {
    tree = f.keeps.tree;
    others = λ v' h. Keeps-Same w f.keeps v';
    gone = elim (f.missing refl) [
      | inl full ↦ inr (full, Keeps-Same w f.keeps)
      | inr (e, out) ↦ inl (
          absent_page f.keeps.tree v (
            ap (λ x. frame_of s'.tables x (pt_index v) (pd_index v) (path_of v)) f.keeps.root
            ∙ out (pt_index v)))
    ];
  }
  unmap_found (some pt, s') f =
      let w' = f.keeps.tree in
      let at =
        ap (λ x. node s'.tables x (pd_index v ∷ path_of v)) f.keeps.root ∙ f.reached pt refl in
      elim (Bool-cases (s'.tables pt (pt_index v)).flags.present) [
        | inl here ↦ subst (Unmaps s v) (sym (if_true _ _ here)) (record {
          tree = entered-IsTree w' v pt at no_entry;
          others = λ v' h. entered_other w' v pt at no_entry v' h ∙ Keeps-Same w f.keeps v';
          gone = inl (λ v' h.
              unless_null v' (set_entry pt (pt_index v) no_entry s')
                (λ h'. entered_self w' v pt at no_entry v' h h' ∙ page_of_address no_entry v'));
        })
        | inr out ↦ subst (Unmaps s v) (sym (if_false _ _ out)) (record {
          tree = w';
          others = λ v' h. Keeps-Same w f.keeps v';
          gone = inl (
              absent_page w' v (
                frame_of_page s'.tables s'.pml4 (path_of v) (pt_index v) (pd_index v) pt at
                ∙ page_of_absent (s'.tables pt (pt_index v)) out));
        })
      ]

-- In a tree, `vmm_map_page` returns -1 only where no frame is left, and every address then keeps its
-- translation. Where it returns 0, each address of the page other than 0 translates to its place
-- in the frame of the masked physical address, if the flags are PRESENT, and to 0 if not. The
-- addresses of all other pages keep theirs, those in a 2 MiB page that was split included, and the
-- tables are a tree.
pub vmm_map_page-Maps :
    (locked : Bool) (phys_addr virt_addr : ℕ) (flags : Flags) {s : Vmm}
    → IsTree s
    → Maps s phys_addr virt_addr flags (vmm_map_page locked phys_addr virt_addr flags s)
unfolding vmm_map_page
vmm_map_page-Maps locked phys_addr virt_addr flags {s} w =
    map_found w virt_addr phys_addr flags (find_pt locked true virt_addr s)
      (find_pt-Finds locked true virt_addr w)

-- In a tree, after `vmm_unmap_page` no address of the page has a translation, unless no frame is
-- left, and then every address keeps its own. The addresses of all other pages keep theirs, those
-- in a 2 MiB page that was split included, and the tables are a tree.
pub vmm_unmap_page-Unmaps :
    (locked : Bool) (virt_addr : ℕ) {s : Vmm}
    → IsTree s
    → Unmaps s virt_addr (vmm_unmap_page locked virt_addr s)
unfolding vmm_unmap_page
vmm_unmap_page-Unmaps locked virt_addr {s} w =
    unmap_found w virt_addr (find_pt locked false virt_addr s)
      (find_pt-Finds locked false virt_addr w)
