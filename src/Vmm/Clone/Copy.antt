-- ===== src/Vmm/Clone/Copy.antt =====
-- `vmm_clone_pml4` of kernel/mm/vmm.c and the frames in use.
use eter_os.Base.{◌↔◌, ℕ, ◌≡◌, ◌≢◌, Bool}
use eter_os.Vmm.{Vmm}
use eter_os.Vmm.Take.{Full}
use eter_os.Vmm.Clone.Kept.{Spares, New}

module _ (s₀ : Vmm) (locked cow : Bool) where
  -- A copy of a table into a new one.
  abbrev Copies : (ℕ → ℕ → Vmm → Vmm) → Type 0
  Copies child =
      (s : Vmm) → Spares s₀ s → (dest src : ℕ) → New s₀ dest → Spares s₀ (child dest src s)

-- What `vmm_clone_pml4` returns, and what it leaves.
pub record Clones (s : Vmm) (r : ℕ × Vmm) : Type 0 where
  pub spares : Spares s r.1
  pub fresh : r.0 ≢ 0 → New s r.0
  pub refused : (r.0 ≡ 0) ↔ Full s.pmm
