-- ===== src/Vmm/Fault/Keep.antt =====
-- The branches of `vmm_resolve_cow` of kernel/mm/vmm.c that copy nothing.
use mathlib.Core.Option.{some-injective}
use mathlib.Core.Bool.{true≢false}
use eter_os.Base.{
  ℕ, ◌<◌, ◌/◌, ◌≡◌, refl, ◌∙◌, sym, ap, inl, inr, Bool, true, false, some, ◌∷◌, arith, if_true,
  ℕ_discrete,
}
use eter_os.Pmm.{Pmm, page_size, get_ref_count}
use eter_os.Vmm.{Flags, Entry, Vmm, take_frame, set_entry, pt_index, pd_index}
use eter_os.Vmm.Tree.{node, IsTree, page_of, frame_at, frame_of_page}
use eter_os.Vmm.Table.{set_entry_self}
use eter_os.Vmm.Take.{take_frame-Keeps, take_frame-Full}
use eter_os.Vmm.Find.{path_of}
use eter_os.Vmm.Address.{
  page_no, Keeps-frame_at, frame_at_page, entered-IsTree, entered_frame_self, entered_frame_other,
}
use eter_os.Vmm.Fault.{own}
use eter_os.Vmm.Leaf.{node_leaf}
use eter_os.Vmm.Fault.Copy.{Owned, Private, Resolves, page_of-own, same_byte}

page_of-some : (e : Entry) (a : ℕ) → page_of e ≡ some a → (e.flags.present ≡ true) × (e.addr ≡ a)
unfolding page_of
page_of-some e a h = ground (arith, h)

pub own_present : (n : ℕ) (flags : Flags) → flags.present ≡ true → page_of (own n flags) ≡ some n
own_present n flags h = page_of-own n flags ∙ if_true _ _ h

pub get_ref_count-cong :
    (addr : ℕ) (p q : Pmm)
    → q.total_pages ≡ p.total_pages
    → q.ref_counts (addr / page_size) ≡ p.ref_counts (addr / page_size)
    → get_ref_count addr q ≡ get_ref_count addr p
unfolding get_ref_count
get_ref_count-cong addr p q h h' = ground (arith, h, h')

pub get_ref_count_lem :
    (addr : ℕ) (p : Pmm)
    → addr / page_size < p.total_pages
    → get_ref_count addr p ≡ p.ref_counts (addr / page_size)
unfolding get_ref_count
get_ref_count_lem addr p h = ground (arith, h)

module _ (locked : Bool) {s : Vmm} (w : IsTree s) (v pt : ℕ)
    (at : node s.tables s.pml4 (pd_index v ∷ path_of v) ≡ some pt) (owned : Owned s v) where
  abbrev pub e : Entry
  e = s.tables pt (pt_index v)

  pub entry_owned : (e.flags.present ≡ true) × (e.addr ≡ owned.0)
  entry_owned =
      page_of-some e owned.0
        (sym (frame_of_page s.tables s.pml4 (path_of v) (pt_index v) (pd_index v) pt at) ∙ owned.1)

  abbrev pub kept : Vmm
  kept = set_entry pt (pt_index v) (own e.addr e.flags) s

  kept_frame : (v' : ℕ) → frame_at kept v' ≡ frame_at s v'
  kept_frame v' = elim (ℕ_discrete (page_no v') (page_no v)) [
    | yes h ↦
        entered_frame_self w v pt at (own e.addr e.flags) v' h
        ∙ own_present e.addr e.flags entry_owned.0
        ∙ ap some entry_owned.1
        ∙ sym owned.1
        ∙ sym (frame_at_page s v v' h)
    | no h ↦ entered_frame_other w v pt at (own e.addr e.flags) v' h
  ]

  kept-Private : get_ref_count e.addr s.pmm ≡ 1 → Private kept v
  unfolding set_entry own
  kept-Private single =
      let entry = set_entry_self pt (pt_index v) (own e.addr e.flags) s in
      (
        pt,
        node_leaf w (pt_index v) (pd_index v) (path_of v) refl pt at (own e.addr e.flags)
              (pd_index v ∷ path_of v) (omega arith)
            ∙ at,
        ap (λ (x : Entry). x.flags.write) entry,
        ap (λ (x : Entry). x.flags.cow) entry,
        ap (λ (x : Entry). get_ref_count x.addr s.pmm) entry ∙ single,
      )

  -- The only owner keeps the frame.
  pub kept-Resolves : get_ref_count e.addr s.pmm ≡ 1 → Resolves s v (true, kept)
  unfolding set_entry
  kept-Resolves single =
      let w' = entered-IsTree w v pt at (own e.addr e.flags) in
      record {
        tree = w';
        bytes = λ v' (a, h, used).
            ((a, kept_frame v' ∙ h, used), same_byte w w' v' a a h (kept_frame v' ∙ h) refl);
        resolved = λ h. kept-Private single;
        refused = λ h. absurd (true≢false h);
      }

  -- No frame for a copy.
  pub failed-Resolves : (take_frame locked s).0 ≡ 0 → Resolves s v (false, (take_frame locked s).1)
  unfolding take_frame
  failed-Resolves null =
      let k = take_frame-Keeps locked w in
      record {
        tree = k.tree;
        bytes = λ v' (b, h, used). (
          (b, Keeps-frame_at k v' ∙ h, k.kept (b / page_size) used),
          same_byte w k.tree v' b b h (Keeps-frame_at k v' ∙ h) refl,
        );
        resolved = λ h. absurd (true≢false (sym h));
        refused = λ h. inl (take_frame-Full locked w null);
      }

  -- A page that is not shared on write.
  pub idle-Resolves : e.flags.cow ≡ false → Resolves s v (false, s)
  idle-Resolves other = record {
    tree = w;
    bytes = λ v' o. (o, refl);
    resolved = λ h. absurd (true≢false (sym h));
    refused = λ h. inr (λ pt' at'.
        ap (λ x. (s.tables x (pt_index v)).flags.cow) (some-injective pt' pt (sym at' ∙ at))
        ∙ other);
  }
