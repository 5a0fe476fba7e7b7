-- ===== src/Vmm/Fault/Copy.antt =====
-- What the copy on write of kernel/mm/vmm.c leaves in memory.
use eter_os.Base.{
  ℕ, ◌+◌, ◌-◌, ◌/◌, ◌%◌, ◌≡◌, ◌≢◌, refl, ◌∙◌, sym, ap, ◌⊎◌, Bool, true, false, none, some, ◌∷◌,
  arith, if◌then◌else◌,
}
use eter_os.Pmm.{Pmm, page_size, get_ref_count, unref_page, free_page}
use eter_os.Pmm.Accounting.{IsValid}
use eter_os.Vmm.{Flags, Vmm, pt_index, pd_index, translate, load_user}
use eter_os.Vmm.Tree.{node, IsTree, page_of, frame_at, address_in}
use eter_os.Vmm.Walk.{translate-frame_at}
use eter_os.Vmm.Take.{Full}
use eter_os.Vmm.Find.{path_of}
use eter_os.Vmm.Fault.{own}

-- The pages whose frames belong to the frame manager.
abbrev pub Owned : Vmm → ℕ → Type 0
Owned s v = (a : ℕ) × (frame_at s v ≡ some a) × (s.pmm.bitmap (a / page_size) ≡ true)

pub load_user_frame :
    {s : Vmm}
    → IsTree s
    → (v a : ℕ) → frame_at s v ≡ some a
    → load_user s v ≡ s.data_at a (v % page_size)
unfolding load_user
load_user_frame {s} w v a h =
    let there : translate s.tables s.pml4 v ≡ a + v % page_size =
      translate-frame_at w v ∙ ap (λ o. address_in o v) h in
    ap (λ x. s.data_at x (v % page_size)) (ap (λ x. x - v % page_size) there ∙ omega arith)

-- A reference is dropped that is not the only one.
pub unref_shared :
    (addr : ℕ) (p : Pmm)
    → get_ref_count addr p ≢ 1
    → ((k : ℕ) → (unref_page addr p).1.bitmap k ≡ p.bitmap k)
unfolding unref_page free_page get_ref_count
unref_shared addr p h k = ground (arith, h)

pub unref_other :
    (addr : ℕ) (p : Pmm) (k : ℕ)
    → k ≢ addr / page_size
    → (unref_page addr p).1.ref_counts k ≡ p.ref_counts k
unfolding unref_page free_page
unref_other addr p k h = ground (arith, h)

pub unref_pages : (addr : ℕ) (p : Pmm) → (unref_page addr p).1.total_pages ≡ p.total_pages
unfolding unref_page free_page
unref_pages addr p = ground arith

-- The page of an address is writable, and its frame has no other owner.
abbrev pub Private : Vmm → ℕ → Type 0
Private s v =
    (pt : ℕ) × (node s.tables s.pml4 (pd_index v ∷ path_of v) ≡ some pt)
    × ((s.tables pt (pt_index v)).flags.write ≡ true)
    × ((s.tables pt (pt_index v)).flags.cow ≡ false)
    × (get_ref_count (s.tables pt (pt_index v)).addr s.pmm ≡ 1)

-- What a fault leaves.
pub record Resolves (s : Vmm) (v : ℕ) (r : Bool × Vmm) : Type 0 where
  pub tree : IsTree r.1
  pub bytes : (v' : ℕ) → Owned s v' → Owned r.1 v' × (load_user r.1 v' ≡ load_user s v')
  pub resolved : r.0 ≡ true → Private r.1 v
  pub refused :
      r.0 ≡ false
      → Full r.1.pmm
        ⊎ ((pt : ℕ)
            → node r.1.tables r.1.pml4 (pd_index v ∷ path_of v) ≡ some pt
            → (r.1.tables pt (pt_index v)).flags.cow ≡ false)

pub page_of-own :
    (addr : ℕ) (flags : Flags)
    → page_of (own addr flags) ≡ (if flags.present then some addr else none)
unfolding page_of own
page_of-own addr flags = refl

-- The memory as the tables show it.
pub same_byte :
    {s s' : Vmm}
    → IsTree s
    → IsTree s'
    → (v a b : ℕ) → frame_at s v ≡ some a
    → frame_at s' v ≡ some b
    → s'.data_at b (v % page_size) ≡ s.data_at a (v % page_size)
    → load_user s' v ≡ load_user s v
same_byte w w' v a b h h' e = load_user_frame w' v b h' ∙ e ∙ sym (load_user_frame w v a h)

-- The frames and the contents change under the same tables.
pub retree :
    {s : Vmm}
    → IsTree s
    → (q : Pmm) (d : ℕ → ℕ → ℕ) → IsValid q
    → ((k : ℕ) → q.bitmap k ≡ s.pmm.bitmap k)
    → IsTree (record s { pmm = q; data_at = d })
retree w q d v same = record {
  valid = v;
  zero_used = same 0 ∙ w.zero_used;
  used = λ p t short h. (same (t / page_size) ∙ (w.used p t short h).0, (w.used p t short h).1);
  distinct = w.distinct;
  small_above = w.small_above;
  large_aligned = w.large_aligned;
}
