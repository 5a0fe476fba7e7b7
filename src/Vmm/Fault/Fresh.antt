-- ===== src/Vmm/Fault/Fresh.antt =====
-- The branch of `vmm_resolve_cow` of kernel/mm/vmm.c that copies the page.
use mathlib.Core.Option.{some-injective}
use mathlib.Core.Bool.{true≢false}
use eter_os.Base.{
  ℕ, ◌<◌, ◌/◌, ◌%◌, ◌≡◌, ◌≢◌, refl, ◌∙◌, sym, ap, subst, Bool, true, some, ◌∷◌, arith, update_self,
  update_ne, ℕ_discrete,
}
use eter_os.Pmm.{page_size, get_ref_count, unref_page}
use eter_os.Pmm.Accounting.{free_page-IsValid}
use eter_os.Vmm.{load_user, Entry, Vmm, take_frame, set_entry, pt_index, pd_index}
use eter_os.Vmm.Tree.{node, IsTree, frame_at}
use eter_os.Vmm.Table.{set_entry_self}
use eter_os.Vmm.Take.{take_frame-Keeps, take_frame-Allocates}
use eter_os.Vmm.Find.{path_of}
use eter_os.Vmm.Address.{
  page_no, Keeps-frame_at, frame_at_page, entered-IsTree, entered_frame_self, entered_frame_other,
}
use eter_os.Vmm.Fault.{own, copy_page}
use eter_os.Vmm.Leaf.{node_leaf}
use eter_os.Vmm.Fault.Copy.{
  Owned, Private, Resolves, unref_shared, unref_other, unref_pages, same_byte, retree,
}
use eter_os.Vmm.Fault.Keep.{entry_owned, own_present, get_ref_count-cong, get_ref_count_lem}

module _ (locked : Bool) {s : Vmm} (w : IsTree s) (v pt : ℕ)
    (at : node s.tables s.pml4 (pd_index v ∷ path_of v) ≡ some pt) (owned : Owned s v)
    (got : (take_frame locked s).0 ≢ 0)
    (shared : get_ref_count (s.tables pt (pt_index v)).addr s.pmm ≢ 1) where
  abbrev old : Entry
  old = s.tables pt (pt_index v)

  abbrev n : ℕ
  n = (take_frame locked s).0

  abbrev s₁ : Vmm
  s₁ = (take_frame locked s).1

  abbrev given : Vmm
  given = set_entry pt (pt_index v) (own n old.flags) (copy_page n old.addr s₁)

  abbrev pub copied : Vmm
  copied = record given { pmm = (unref_page old.addr given.pmm).1 }

  fresh : (a : ℕ) → s.pmm.bitmap (a / page_size) ≡ true → a / page_size ≢ n / page_size
  fresh a used h =
      true≢false (sym used ∙ ap s.pmm.bitmap h ∙ (take_frame-Allocates locked w).fresh got)

  old_used : s.pmm.bitmap (old.addr / page_size) ≡ true
  old_used = ap (λ a. s.pmm.bitmap (a / page_size)) (entry_owned locked w v pt at owned).1 ∙ owned.2

  still_shared : get_ref_count old.addr s₁.pmm ≢ 1
  still_shared h =
      let a = take_frame-Allocates locked w in
      shared (
        sym (
          get_ref_count-cong old.addr s.pmm s₁.pmm a.pages
            (a.counts (old.addr / page_size) (fresh old.addr old_used)))
        ∙ h)

  copied_bitmap : (k : ℕ) → copied.pmm.bitmap k ≡ s₁.pmm.bitmap k
  unfolding set_entry copy_page
  copied_bitmap = unref_shared old.addr s₁.pmm still_shared

  at₁ : node s₁.tables s₁.pml4 (pd_index v ∷ path_of v) ≡ some pt
  unfolding take_frame
  at₁ = at

  given-IsTree : IsTree (set_entry pt (pt_index v) (own n old.flags) s₁)
  given-IsTree = entered-IsTree (take_frame-Keeps locked w).tree v pt at₁ (own n old.flags)

  copied-IsTree : IsTree copied
  unfolding set_entry copy_page unref_page
  copied-IsTree =
      retree given-IsTree copied.pmm copied.data_at
        (free_page-IsValid old.addr (take_frame-Allocates locked w).valid) copied_bitmap

  -- The page has the new frame, and all others keep theirs.
  frame_new : (v' : ℕ) → page_no v' ≡ page_no v → frame_at copied v' ≡ some n
  unfolding set_entry copy_page
  frame_new v' h =
      entered_frame_self (take_frame-Keeps locked w).tree v pt at₁ (own n old.flags) v' h
      ∙ own_present n old.flags (entry_owned locked w v pt at owned).0

  frame_same : (v' : ℕ) → page_no v' ≢ page_no v → frame_at copied v' ≡ frame_at s v'
  unfolding set_entry copy_page
  frame_same v' h =
      entered_frame_other (take_frame-Keeps locked w).tree v pt at₁ (own n old.flags) v' h
      ∙ Keeps-frame_at (take_frame-Keeps locked w) v'

  data_new : copied.data_at n ≡ s.data_at old.addr
  unfolding set_entry copy_page take_frame
  data_new = update_self s.data_at n (s.data_at old.addr)

  data_same : (a : ℕ) → a ≢ n → copied.data_at a ≡ s.data_at a
  unfolding set_entry copy_page take_frame
  data_same a h = update_ne s.data_at n (s.data_at old.addr) a h

  copied_bytes : (v' : ℕ) → Owned s v' → Owned copied v' × (load_user copied v' ≡ load_user s v')
  copied_bytes v' (a, h, used) = elim (ℕ_discrete (page_no v') (page_no v)) [
    | yes e ↦
        let same : a ≡ old.addr = some-injective a old.addr (
          sym h
          ∙ frame_at_page s v v' e
          ∙ owned.1
          ∙ ap some (sym (entry_owned locked w v pt at owned).1)) in
        (
          (
            n,
            frame_new v' e,
            copied_bitmap (n / page_size) ∙ (take_frame-Allocates locked w).taken got,
          ),
          same_byte w copied-IsTree v' a n h (frame_new v' e)
              (ap (λ f. f (v' % page_size)) (data_new ∙ ap s.data_at (sym same))),
        )
    | no e ↦ (
      (
        a,
        frame_same v' e ∙ h,
        copied_bitmap (a / page_size) ∙ (take_frame-Allocates locked w).kept (a / page_size) used,
      ),
      same_byte w copied-IsTree v' a a h (frame_same v' e ∙ h) (
          ap (λ f. f (v' % page_size))
            (data_same a (λ e'. fresh a used (ap (λ x. x / page_size) e')))),
    )
  ]

  copied_count : get_ref_count n copied.pmm ≡ 1
  unfolding set_entry copy_page
  copied_count =
      let a = take_frame-Allocates locked w in
      let within : n / page_size < copied.pmm.total_pages =
        subst (λ x. n / page_size < x) (sym a.pages ∙ sym (unref_pages old.addr s₁.pmm))
          (a.within got) in
      get_ref_count_lem n copied.pmm within
      ∙ unref_other old.addr s₁.pmm (n / page_size) (λ h. fresh old.addr old_used (sym h))
      ∙ a.single got

  copied-Private : Private copied v
  unfolding set_entry own copy_page
  copied-Private =
      let entry = set_entry_self pt (pt_index v) (own n old.flags) s₁ in
      (
        pt,
        node_leaf (take_frame-Keeps locked w).tree (pt_index v) (pd_index v) (path_of v) refl pt at₁
              (own n old.flags) (pd_index v ∷ path_of v) (omega arith)
            ∙ at₁,
        ap (λ (x : Entry). x.flags.write) entry,
        ap (λ (x : Entry). x.flags.cow) entry,
        ap (λ (x : Entry). get_ref_count x.addr copied.pmm) entry ∙ copied_count,
      )

  pub copied-Resolves : Resolves s v (true, copied)
  copied-Resolves = record {
    tree = copied-IsTree;
    bytes = copied_bytes;
    resolved = λ h. copied-Private;
    refused = λ h. absurd (true≢false h);
  }
