-- ===== src/Vmm/Take.antt =====
-- A frame for a table of kernel/mm/vmm.c.
use eter_os.Base.{
  ℕ, ◌/◌, ◌<◌, ◌≡◌, ◌≢◌, refl, ◌∙◌, sym, ap, subst, Bool, true, List, length, update, update_self,
  update_ne,
}
use eter_os.Pmm.{Pmm, page_size}
use eter_os.Reclaim.{alloc_page_fails}
use eter_os.Reclaim.Effect.{Allocates, alloc_page-Allocates}
use eter_os.Vmm.{Entry, Vmm, table_flags, link, take_frame}
use eter_os.Vmm.Tree.{IsTree, frame_of}
use eter_os.Vmm.Table.{set_entry_self, set_entry_beside, set_entry_elsewhere}

-- No frame is free.
abbrev pub Full : Pmm → Type 0
Full p = (k : ℕ) → k < p.total_pages → p.bitmap k ≡ true

-- The same tree as far as pages are concerned.
pub record Keeps (s s' : Vmm) : Type 0 where
  pub tree : IsTree s'
  pub root : s'.pml4 ≡ s.pml4
  pub contents : s'.data_at ≡ s.data_at
  pub kept : (k : ℕ) → s.pmm.bitmap k ≡ true → s'.pmm.bitmap k ≡ true
  pub frames :
      (i₁ i₂ : ℕ) (q : List ℕ)
      → length q ≡ 2
      → frame_of s'.tables s.pml4 i₁ i₂ q ≡ frame_of s.tables s.pml4 i₁ i₂ q

pub Keeps-refl : {s : Vmm} → IsTree s → Keeps s s
Keeps-refl w = record {
  tree = w;
  root = refl;
  contents = refl;
  kept = λ k h. h;
  frames = λ i₁ i₂ q h. refl;
}

pub take_frame-Allocates :
    (locked : Bool) {s : Vmm}
    → IsTree s
    → Allocates s.pmm (take_frame locked s).0 (take_frame locked s).1.pmm
unfolding take_frame
take_frame-Allocates locked {s} w = alloc_page-Allocates locked s.cache w.valid w.zero_used

pub take_frame-tables :
    (locked : Bool) (s : Vmm)
    → ((take_frame locked s).1.tables ≡ s.tables) × ((take_frame locked s).1.pml4 ≡ s.pml4)
unfolding take_frame
take_frame-tables locked s = (refl, refl)

pub take_frame-Full :
    (locked : Bool) {s : Vmm}
    → IsTree s
    → (take_frame locked s).0 ≡ 0
    → Full (take_frame locked s).1.pmm
unfolding take_frame
take_frame-Full locked {s} w null =
    let a = alloc_page-Allocates locked s.cache w.valid w.zero_used in
    λ k h. a.kept k (
      (alloc_page_fails locked s.cache w.valid w.zero_used).0 null k (subst (λ n. k < n) a.pages h))

-- Without a frame nothing but the frames changes.
pub take_frame-Keeps : (locked : Bool) {s : Vmm} → IsTree s → Keeps s (take_frame locked s).1
unfolding take_frame
take_frame-Keeps locked {s} w =
    let a = alloc_page-Allocates locked s.cache w.valid w.zero_used in
    record {
      tree = record {
        valid = a.valid;
        zero_used = a.kept 0 w.zero_used;
        used =
            λ p t short h. (a.kept (t / page_size) (w.used p t short h).0, (w.used p t short h).1);
        distinct = w.distinct;
        small_above = w.small_above;
        large_aligned = w.large_aligned;
      };
      root = refl;
      contents = refl;
      kept = a.kept;
      frames = λ i₁ i₂ q h. refl;
    }

-- The tables that `link` leaves.
module _ (s : Vmm) (t i n : ℕ) (entries : ℕ → Entry) (apart : t ≢ n) where
  -- The new table before the entry that refers to it.
  abbrev with_table : Vmm
  with_table = record s { tables = update s.tables n entries }

  abbrev entry : Entry
  entry = record { addr = n; flags = table_flags }

  pub link_here : (link t i n entries s).tables t i ≡ entry
  unfolding link
  link_here = set_entry_self t i entry with_table

  pub link_there : (j : ℕ) → j ≢ i → (link t i n entries s).tables t j ≡ s.tables t j
  unfolding link
  link_there j h =
      set_entry_beside t i entry with_table j h
      ∙ ap (λ f. f j) (update_ne s.tables n entries t apart)

  pub link_inside : (j : ℕ) → (link t i n entries s).tables n j ≡ entries j
  unfolding link
  link_inside j =
      set_entry_elsewhere t i entry with_table n j (λ e. apart (sym e))
      ∙ ap (λ f. f j) (update_self s.tables n entries)

  pub link_elsewhere : (x j : ℕ) → x ≢ t → x ≢ n → (link t i n entries s).tables x j ≡ s.tables x j
  unfolding link
  link_elsewhere x j h h' =
      set_entry_elsewhere t i entry with_table x j h
      ∙ ap (λ f. f j) (update_ne s.tables n entries x h')
