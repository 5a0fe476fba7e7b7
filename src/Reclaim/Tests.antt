-- ===== src/Reclaim/Tests.antt =====
-- `pmm_alloc_page` on a full machine of two pages.
use eter_os.Base.{ℕ, ◌<◌, ◌≡◌, refl, ◌↔◌, Bool, true, false, arith}
use eter_os.Pmm.{Pmm}
use eter_os.Pmm.Accounting.{IsValid, count_free}
use eter_os.Bcache.{bcache_init}
use eter_os.Reclaim.{alloc_page, alloc_page_fails}

abbrev full : Pmm
full = record {
  bitmap = λ k. true;
  ref_counts = λ k. 1;
  total_ram = 8192;
  used_ram = 8192;
  total_pages = 2;
  last_free_idx = 0;
}

full-IsValid : IsValid full
unfolding count_free
full-IsValid = omega arith

alloc_page_fails_example :
    ((alloc_page false full bcache_init).0 ≡ 0) ↔ ((k : ℕ) → k < 2 → ◌≡◌ {A = Bool} true true)
alloc_page_fails_example = alloc_page_fails false bcache_init full-IsValid refl
