-- ===== src/Vmm/Clone/Kept.antt =====
-- What the copy of an address space in kernel/mm/vmm.c leaves of the frames in use.
use mathlib.Core.Bool.{true≢false}
use eter_os.Base.{
  ℕ, ◌/◌, ◌≡◌, ◌≢◌, refl, ◌∙◌, sym, ap, subst, inl, inr, Bool, true, false, not, arith, ◌==◌,
  ==_iff, Bool-cases, if_true, if_false, update_ne, ℕ_discrete, if◌then◌else◌,
}
use eter_os.Pmm.{Pmm, page_size, ref_page}
use eter_os.Pmm.Accounting.{IsValid, ref_page-IsValid}
use eter_os.Reclaim.Effect.{alloc_page-Allocates}
use eter_os.Vmm.{Flags, Entry, Vmm, no_entry, take_frame, set_entry}
use eter_os.Vmm.Table.{set_entry_self, set_entry_beside, set_entry_elsewhere}
use eter_os.Vmm.Fault.{copy_page}
use eter_os.Vmm.Clone.{clear_table, share_page, deep_copy, clone_page}

-- An entry names the same frame or table, for the same users.
pub record Names (e e' : Entry) : Type 0 where
  pub addr : e'.addr ≡ e.addr
  pub present : e'.flags.present ≡ e.flags.present
  pub user : e'.flags.user ≡ e.flags.user
  pub huge : e'.flags.huge ≡ e.flags.huge

-- The frames in use stay in use, with the same contents and tables.
pub record Spares (s s' : Vmm) : Type 0 where
  pub valid : IsValid s'.pmm
  pub zero_used : s'.pmm.bitmap 0 ≡ true
  pub kept : (k : ℕ) → s.pmm.bitmap k ≡ true → s'.pmm.bitmap k ≡ true
  pub root : s'.pml4 ≡ s.pml4
  pub contents : (x : ℕ) → s.pmm.bitmap (x / page_size) ≡ true → s'.data_at x ≡ s.data_at x
  pub names : (x j : ℕ) → s.pmm.bitmap (x / page_size) ≡ true → Names (s.tables x j) (s'.tables x j)

-- A frame that was free at first.
abbrev pub New : Vmm → ℕ → Type 0
New s x = s.pmm.bitmap (x / page_size) ≡ false

used_not_new : (s : Vmm) (x n : ℕ) → s.pmm.bitmap (x / page_size) ≡ true → New s n → x ≢ n
used_not_new s x n used new e =
    true≢false (sym used ∙ ap (λ y. s.pmm.bitmap (y / page_size)) e ∙ new)

Names-trans : {a b c : Entry} → Names a b → Names b c → Names a c
Names-trans f g = record {
  addr = g.addr ∙ f.addr;
  present = g.present ∙ f.present;
  user = g.user ∙ f.user;
  huge = g.huge ∙ f.huge;
}

Names_same : {a b : Entry} → b ≡ a → Names a b
Names_same e = record {
  addr = ap (λ (x : Entry). x.addr) e;
  present = ap (λ (x : Entry). x.flags.present) e;
  user = ap (λ (x : Entry). x.flags.user) e;
  huge = ap (λ (x : Entry). x.flags.huge) e;
}

bitmap_ref : (addr : ℕ) (q : Pmm) (x : ℕ) → (ref_page addr q).bitmap x ≡ q.bitmap x
unfolding ref_page
bitmap_ref addr q x = ground arith

module _ {s₀ s : Vmm} (k : Spares s₀ s) where
  -- The tables change, but those in use name the same.
  retable :
      (tables : ℕ → ℕ → Entry)
      → ((x j : ℕ) → s₀.pmm.bitmap (x / page_size) ≡ true → Names (s.tables x j) (tables x j))
      → Spares s₀ (record s { tables = tables })
  retable tables h = record {
    valid = k.valid;
    zero_used = k.zero_used;
    kept = k.kept;
    root = k.root;
    contents = k.contents;
    names = λ x j used. Names-trans (k.names x j used) (h x j used);
  }

  pub set_entry-Spares : (n i : ℕ) (e : Entry) → New s₀ n → Spares s₀ (set_entry n i e s)
  unfolding set_entry
  set_entry-Spares n i e new =
      retable (set_entry n i e s).tables
        (λ x j used. Names_same (set_entry_elsewhere n i e s x j (used_not_new s₀ x n used new)))

  pub clear_table-Spares : (n : ℕ) → New s₀ n → Spares s₀ (clear_table n s)
  unfolding clear_table
  clear_table-Spares n new = retable (clear_table n s).tables (λ x j used.
      Names_same
        (ap (λ f. f j) (update_ne s.tables n (λ i. no_entry) x (used_not_new s₀ x n used new))))

  pub take_frame-Spares : (locked : Bool) → Spares s₀ (take_frame locked s).1
  unfolding take_frame
  take_frame-Spares locked =
      let a = alloc_page-Allocates locked s.cache k.valid k.zero_used in
      record {
        valid = a.valid;
        zero_used = a.kept 0 k.zero_used;
        kept = λ x used. a.kept x (k.kept x used);
        root = k.root;
        contents = k.contents;
        names = k.names;
      }

  pub take_frame-New :
      (locked : Bool) → (take_frame locked s).0 ≢ 0 → New s₀ (take_frame locked s).0
  unfolding take_frame
  take_frame-New locked h =
      let a = alloc_page-Allocates locked s.cache k.valid k.zero_used in
      let n = (take_frame locked s).0 in
      elim (Bool-cases (s₀.pmm.bitmap (n / page_size))) [
        | inr free ↦ free
        | inl used ↦ absurd (true≢false (sym (k.kept (n / page_size) used) ∙ a.fresh h))
      ]

  copy_page-Spares : (n from : ℕ) → New s₀ n → Spares s₀ (copy_page n from s)
  unfolding copy_page
  copy_page-Spares n from new = record {
    valid = k.valid;
    zero_used = k.zero_used;
    kept = k.kept;
    root = k.root;
    contents = λ x used.
        update_ne s.data_at n (s.data_at from) x (used_not_new s₀ x n used new) ∙ k.contents x used;
    names = k.names;
  }

  share_entry-Spares :
      (t i : ℕ) (flags : Flags)
      → flags.present ≡ (s.tables t i).flags.present
      → flags.user ≡ (s.tables t i).flags.user
      → flags.huge ≡ (s.tables t i).flags.huge
      → Spares s₀ (set_entry t i (record { addr = (s.tables t i).addr; flags = flags }) s)
  unfolding set_entry
  share_entry-Spares t i flags h h' h'' = retable (set_entry t i e s).tables (λ x j used.
      elim (ℕ_discrete x t) [
        | no ne ↦ Names_same (set_entry_elsewhere t i e s x j ne)
        | yes eq ↦
            subst (λ y. Names (s.tables y j) ((set_entry t i e s).tables y j)) (sym eq)
              (elim (ℕ_discrete j i) [
                | no ne ↦ Names_same (set_entry_beside t i e s j ne)
                | yes eq' ↦
                    subst (λ y. Names (s.tables t y) ((set_entry t i e s).tables t y)) (sym eq')
                      (Names-trans (record { addr = refl; present = h; user = h'; huge = h'' })
                        (Names_same (set_entry_self t i e s)))
              ])
      ])
    where
      e : Entry
      e = record { addr = (s.tables t i).addr; flags = flags }

  ref_page-Spares : (addr : ℕ) → Spares s₀ (record s { pmm = ref_page addr s.pmm })
  ref_page-Spares addr = record {
    valid = ref_page-IsValid addr k.valid;
    zero_used = bitmap_ref addr s.pmm 0 ∙ k.zero_used;
    kept = λ x used. bitmap_ref addr s.pmm x ∙ k.kept x used;
    root = k.root;
    contents = k.contents;
    names = k.names;
  }

share_page-Spares :
    {s₀ s : Vmm}
    → Spares s₀ s
    → (dest src i : ℕ) → New s₀ dest
    → Spares s₀ (share_page dest src i s)
unfolding share_page set_entry
share_page-Spares {s₀} {s} k dest src i new =
    let e = s.tables src i in
    let shared : Entry = record e { flags = record e.flags { cow = true; write = false } } in
    let k₁ : Spares s₀ (set_entry src i shared s) =
      share_entry-Spares k src i shared.flags refl refl refl in
    ref_page-Spares (set_entry-Spares k₁ dest i shared new) e.addr

deep_copy-Spares :
    (locked : Bool) {s₀ s : Vmm}
    → Spares s₀ s
    → (dest src i : ℕ) → New s₀ dest
    → Spares s₀ (deep_copy locked dest src i s)
unfolding deep_copy
deep_copy-Spares locked {s₀} {s} k dest src i new =
    elim (Bool-cases ((take_frame locked s).0 == 0)) [
      | inl null ↦ subst (Spares s₀) (sym (if_true _ _ null)) (take_frame-Spares k locked)
      | inr there ↦
          let free = take_frame-New k locked (λ h. true≢false (sym ((==_iff _ _).1 h) ∙ there)) in
          subst (Spares s₀) (sym (if_false _ _ there)) (
            set_entry-Spares
              (copy_page-Spares (take_frame-Spares k locked) (take_frame locked s).0
                (s.tables src i).addr free)
              dest i (record { addr = (take_frame locked s).0; flags = (s.tables src i).flags })
              new)
    ]

pub clone_page-Spares :
    (locked cow : Bool) {s₀ s : Vmm}
    → Spares s₀ s
    → (dest src i : ℕ) → New s₀ dest
    → Spares s₀ (clone_page locked cow dest src i s)
unfolding clone_page
clone_page-Spares locked cow {s₀} {s} k dest src i new =
    elim (Bool-cases (s.tables src i).flags.user) [
      | inr kernel ↦
          subst (Spares s₀) (sym (if_true _ _ (ap not kernel)))
            (set_entry-Spares k dest i (s.tables src i) new)
      | inl user ↦ subst (Spares s₀) (sym (if_false _ _ (ap not user))) (either cow)
    ]
  where
    either :
        (cow : Bool)
        → Spares s₀ (if cow then share_page dest src i s else deep_copy locked dest src i s)
    either true = share_page-Spares k dest src i new
    either false = deep_copy-Spares locked k dest src i new
