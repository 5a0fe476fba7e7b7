-- ===== src/Pmm/Reach.antt =====
-- Any sequence of calls of the manager's API.
use eter_os.Base.{ℕ, ◌≡◌, Bool, List, some, ◌*◌}
use eter_os.Pmm.{
  Pmm, page_size, mark_region_used, alloc_page_impl, free_page, ref_page, unref_page, get_free_ram,
}
use eter_os.Pmm.Accounting.{
  IsValid, count_free, mark_region_used-IsValid, free_page-IsValid, ref_page-IsValid,
  get_free_ram-eq,
}
use eter_os.Pmm.Alloc.{alloc_page_impl-IsValid}
use eter_os.Pmm.Init.{E820Entry, init}
use eter_os.Pmm.Reserved.{init-IsValid}

-- One call, by any processor: the spinlock makes calls atomic.
pub data Step (p : Pmm) : Pmm → Type 0 where
  marks : (base size : ℕ) → Step p (mark_region_used base size p)
  allocates : Step p (alloc_page_impl p).1
  frees : (addr : ℕ) → Step p (free_page addr p).1
  refs : (addr : ℕ) → Step p (ref_page addr p)
  unrefs : (addr : ℕ) → Step p (unref_page addr p).1

pub data Reach (p : Pmm) : Pmm → Type 0 where
  here : Reach p p
  next : {q r : Pmm} → Reach p q → Step q r → Reach p r

Step-IsValid : {p q : Pmm} → IsValid p → Step p q → IsValid q
unfolding unref_page
Step-IsValid v (marks base size) = mark_region_used-IsValid base size v
Step-IsValid v allocates = alloc_page_impl-IsValid v
Step-IsValid v (frees addr) = free_page-IsValid addr v
Step-IsValid v (refs addr) = ref_page-IsValid addr v
Step-IsValid v (unrefs addr) = free_page-IsValid addr v

pub Reach-IsValid : {p q : Pmm} → IsValid p → Reach p q → IsValid q
Reach-IsValid v here = v
Reach-IsValid v (next r s) = Step-IsValid (Reach-IsValid v r) s

-- After `pmm_init` and any calls, the free RAM that `pmm_get_free_ram` reports is the size of the
-- frames that the bitmap shows free.
pub free_ram-Reach :
    (bits : ℕ → Bool) (counts : ℕ → ℕ) (k_start k_end : ℕ) (map : List E820Entry) {p q : Pmm}
    → init bits counts k_start k_end map ≡ some p
    → Reach p q
    → get_free_ram q ≡ page_size * count_free q.bitmap q.total_pages
free_ram-Reach bits counts k_start k_end map made r =
    get_free_ram-eq (Reach-IsValid (init-IsValid bits counts k_start k_end map made) r)
