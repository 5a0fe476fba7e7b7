-- ===== src/Vmm/Next.antt =====
-- `get_next_table` of kernel/mm/vmm.c on a tree.
use mathlib.Core.Bool.{true≢false}
use eter_os.Base.{
  ℕ, ◌/◌, ◌<◌, ◌≡◌, ◌≢◌, refl, ◌∙◌, sym, ap, subst, ◌⊎◌, inl, inr, Bool, true, false, not, Option,
  none, some, List, ◌∷◌, length, ◌==◌, if◌then◌else◌, arith, Bool-cases, if_true, if_false, ==_iff,
}
use eter_os.Pmm.{page_size}
use eter_os.Reclaim.Effect.{alloc_page-Allocates}
use eter_os.Vmm.{Entry, Vmm, no_entry, link, set_entry, take_frame, split_entries, get_next_table}
use eter_os.Vmm.Tree.{
  next_of, node, IsTree, page_of, large_page_of, node_lem, next_of_absent, next_of_small,
  next_of_large,
}
use eter_os.Vmm.Table.{Links, node-After, some_not_none}
use eter_os.Vmm.Linked.{link-IsTree, link-frame_of}
use eter_os.Vmm.Take.{
  Full, Keeps, Keeps-refl, take_frame-Full, take_frame-Keeps, link_here, link_there, link_inside,
  link_elsewhere,
}

-- A step down the tree from table `t` at `p`.
pub record Descends (s : Vmm) (alloc : Bool) (p : List ℕ) (t i : ℕ) (r : Option ℕ × Vmm)
    : Type 0 where
  pub keeps : Keeps s r.1
  pub reached : (u : ℕ) → r.0 ≡ some u → node r.1.tables s.pml4 (i ∷ p) ≡ some u
  pub missing :
      r.0 ≡ none
      → Full r.1.pmm
        ⊎ (alloc ≡ false)
          × (node r.1.tables s.pml4 p ≡ some t)
          × ((r.1.tables t i).flags.present ≡ false)

-- An entry without a table gets one, if there is a frame.
module _ (locked : Bool) {s : Vmm} (w : IsTree s) (p : List ℕ) (t i : ℕ) (entries : ℕ → Entry)
    (upper : length p < 3) (at : node s.tables s.pml4 p ≡ some t)
    (unused : next_of s.tables t i ≡ none) (empty : length p < 2 → (j : ℕ) → entries j ≡ no_entry)
    (pages : length p ≡ 2 → (j : ℕ) → page_of (entries j) ≡ large_page_of (s.tables t i) j) where
  abbrev n : ℕ
  n = (take_frame locked s).0

  take_frame-Links :
      n ≢ 0
      → Links s
          (take_frame locked s).1.pmm
          (link t i n entries (take_frame locked s).1).tables
          p
          t
          i
          n
          entries
  unfolding take_frame
  take_frame-Links h =
      let a = alloc_page-Allocates locked s.cache w.valid w.zero_used in
      let s' = (take_frame locked s).1 in
      let used = (w.used p t (omega (arith, upper)) at).0 in
      let apart : t ≢ n =
        λ e. true≢false (sym used ∙ ap (λ x. s.pmm.bitmap (x / page_size)) e ∙ a.fresh h) in
      record {
        tree = w;
        upper = upper;
        at = at;
        unused = unused;
        valid = a.valid;
        kept = a.kept;
        taken = a.taken h;
        fresh = a.fresh h;
        aligned = a.aligned;
        here = link_here s' t i n entries apart;
        there = link_there s' t i n entries apart;
        inside = link_inside s' t i n entries apart;
        elsewhere = link_elsewhere s' t i n entries apart;
        empty = empty;
        pages = pages;
      }

  abbrev linked : Option ℕ × Vmm
  linked = (some n, link t i n entries (take_frame locked s).1)

  linked-Descends : (alloc : Bool) → n ≢ 0 → Descends s alloc p t i linked
  unfolding take_frame link set_entry
  linked-Descends alloc h =
      let l = take_frame-Links h in
      record {
        keeps = record {
          tree = link-IsTree l (take_frame locked s).1.cache;
          root = refl;
          contents = refl;
          kept = l.kept;
          frames = link-frame_of l;
        };
        reached = λ u e. elim (node-After l (i ∷ p) (omega (arith, upper))) [
          | inl (same, here, gone) ↦ here ∙ e
          | inr (ne, same) ↦ absurd (ne refl)
        ];
        missing = λ e. absurd (some_not_none refl e);
      }

  exhausted-Descends :
      (alloc : Bool) → n ≡ 0 → Descends s alloc p t i (none, (take_frame locked s).1)
  exhausted-Descends alloc null = record {
    keeps = take_frame-Keeps locked w;
    reached = λ u e. absurd (some_not_none e refl);
    missing = λ e. inl (take_frame-Full locked w null);
  }

  grow-Descends :
      (alloc : Bool)
      → Descends s alloc p t i (if n == 0 then (none, (take_frame locked s).1) else linked)
  grow-Descends alloc = elim (Bool-cases (n == 0)) [
    | inl null ↦
        subst (Descends s alloc p t i) (sym (if_true _ _ null))
          (exhausted-Descends alloc ((==_iff _ _).0 null))
    | inr there ↦
        subst (Descends s alloc p t i) (sym (if_false _ _ there))
          (linked-Descends alloc (λ e. true≢false (sym ((==_iff _ _).1 e) ∙ there)))
  ]

split_pages :
    (e : Entry) (j : ℕ)
    → e.flags.present ≡ true
    → e.flags.huge ≡ true
    → page_of (split_entries e j) ≡ large_page_of e j
unfolding page_of large_page_of split_entries
split_pages e j h h' = rw (h, h') refl

no_pages : (e : Entry) (j : ℕ) → e.flags.present ≡ false → page_of no_entry ≡ large_page_of e j
unfolding page_of large_page_of
no_pages e j gone = rw gone refl

-- `get_next_table` steps down the tree.
pub get_next_table-Descends :
    (locked alloc : Bool) {s : Vmm}
    → IsTree s
    → (p : List ℕ) (t i : ℕ) → length p < 3
    → node s.tables s.pml4 p ≡ some t
    → Descends s alloc p t i (get_next_table locked alloc t i s)
unfolding get_next_table
get_next_table-Descends locked alloc {s} w p t i upper at =
    elim (Bool-cases (s.tables t i).flags.present) [
      | inl here ↦ elim (Bool-cases (s.tables t i).flags.huge) [
        | inl large ↦ subst (Descends s alloc p t i) (sym (if_true _ _ here ∙ if_true _ _ large)) (
            grow-Descends locked w p t i (split_entries (s.tables t i)) upper at
              (next_of_large s.tables t i large)
              (λ h. absurd (true≢false (sym large ∙ w.small_above p t i h at)))
              (λ h j. split_pages (s.tables t i) j here large) alloc)
        | inr small ↦
            subst (Descends s alloc p t i) (sym (if_true _ _ here ∙ if_false _ _ small)) (record {
              keeps = Keeps-refl w;
              reached = λ u e.
                  node_lem s.tables s.pml4 p i t at ∙ next_of_small s.tables t i here small ∙ e;
              missing = λ e. absurd (some_not_none refl e);
            })
      ]
      | inr gone ↦ subst (Descends s alloc p t i) (sym (if_false _ _ gone)) (absent gone alloc)
    ]
  where
    absent :
        (s.tables t i).flags.present ≡ false
        → (alloc : Bool)
        → Descends s alloc p t i (
            if not alloc
            then (none, s)
            else if (take_frame locked s).0 == 0
            then (none, (take_frame locked s).1)
            else (
              some (take_frame locked s).0,
              link t i (take_frame locked s).0 (λ j. no_entry) (take_frame locked s).1,
            ))
    absent gone false = record {
      keeps = Keeps-refl w;
      reached = λ u e. absurd (some_not_none e refl);
      missing = λ e. inr (refl, at, gone);
    }
    absent gone true =
        grow-Descends locked w p t i (λ j. no_entry) upper at (next_of_absent s.tables t i gone)
          (λ h j. refl) (λ h j. no_pages (s.tables t i) j gone) true
