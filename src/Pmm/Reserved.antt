-- ===== src/Pmm/Reserved.antt =====
-- What `pmm_init` leaves free and what it reserves.
use eter_os.Base.{
  ℕ, zero, suc, ◌+◌, ◌*◌, ◌/◌, ◌^◌, ◌≤◌, ◌<◌, ◌≡◌, refl, inl, inr, Bool, true, ◌&&◌, none, some,
  List, [], ◌∷◌, arith, ltb, ◌==◌, if◌then◌else◌, Bool-cases, lt→ltb, add64, ◌≢◌,
}
use eter_os.Pmm.{Pmm, page_size}
use eter_os.Pmm.Accounting.{IsValid, count_free, mark_region_used-IsValid, mark_region_free-IsValid}
use eter_os.Pmm.Init.{
  E820Entry, e820_usable, highest_end, detect_ram, free_usable, bitmap_bytes, ref_counts_addr,
  all_used, reserve, mark_all, critical, start_rover, init,
}

highest_end-lt :
    (total : ℕ) (map : List E820Entry) → total < 2 ^ 64 → highest_end total map < 2 ^ 64
unfolding highest_end
highest_end-lt total [] h = h
highest_end-lt total (e ∷ es) h =
    highest_end-lt
      (if e.kind == e820_usable && ltb total (add64 e.base_addr e.length)
        then add64 e.base_addr e.length
        else total)
      es (ground arith)

pub detect_ram-lt : (map : List E820Entry) → detect_ram map < 2 ^ 64
unfolding detect_ram
detect_ram-lt map = ground (arith, highest_end-lt 0 map (omega arith))

count_free_none : (f : ℕ → Bool) (n : ℕ) → ((k : ℕ) → k < n → f k ≡ true) → count_free f n ≡ 0
unfolding count_free
count_free_none f zero h = refl
count_free_none f (suc n) h = ground (arith, h n, count_free_none f n (λ k l. h k (omega arith)))

bitmap_bytes-cover : (pages k : ℕ) → k < pages → k < bitmap_bytes pages * 8
unfolding bitmap_bytes
bitmap_bytes-cover pages k h = ground arith

module _ (bits : ℕ → Bool) (counts : ℕ → ℕ) where
  all_used-full : (ram k : ℕ) → k < ram / page_size → (all_used bits counts ram).bitmap k ≡ true
  unfolding all_used
  all_used-full ram k h = rw (lt→ltb _ _ (bitmap_bytes-cover (ram / page_size) k h)) refl

  all_used-IsValid : (ram : ℕ) → ram < 2 ^ 64 → IsValid (all_used bits counts ram)
  unfolding all_used
  all_used-IsValid ram h = record {
    small = h;
    pages = refl;
    accounting = omega (arith, count_free_none _ (ram / page_size) (all_used-full ram));
  }

free_usable-IsValid : (map : List E820Entry) {p : Pmm} → IsValid p → IsValid (free_usable map p)
unfolding free_usable
free_usable-IsValid [] v = v
free_usable-IsValid (e ∷ es) {p} v = elim (Bool-cases (e.kind == e820_usable)) [
  | inl t ↦ rw t (free_usable-IsValid es (mark_region_free-IsValid e.base_addr e.length v))
  | inr t ↦ rw t (free_usable-IsValid es v)
]

mark_all-IsValid : (rs : List (ℕ × ℕ)) {p : Pmm} → IsValid p → IsValid (mark_all rs p)
unfolding mark_all
mark_all-IsValid [] v = v
mark_all-IsValid ((base, size) ∷ rs) v = mark_all-IsValid rs (mark_region_used-IsValid base size v)

start_rover-IsValid : {p : Pmm} → IsValid p → IsValid (start_rover p)
unfolding start_rover
start_rover-IsValid v = record { small = v.small; pages = v.pages; accounting = v.accounting }

module _ (bits : ℕ → Bool) (counts : ℕ → ℕ) (k_start k_end : ℕ) (map : List E820Entry) {p : Pmm}
    (made : init bits counts k_start k_end map ≡ some p) where
  abbrev start : Pmm
  start = all_used bits counts (detect_ram map)

  init_state : start_rover (reserve k_start k_end (free_usable map start)) ≡ p
  unfolding init
  init_state = ground arith

  -- After `pmm_init` the accounting is right.
  pub init-IsValid : IsValid p
  unfolding reserve
  init-IsValid = rw (← init_state) (
      start_rover-IsValid (
        mark_all-IsValid (critical k_start k_end (free_usable map start).total_pages) (
          free_usable-IsValid map
            (all_used-IsValid bits counts (detect_ram map) (detect_ram-lt map)))))

-- With 2 GiB of memory or more and a kernel that starts at 1 MiB or above, the reference counts
-- reach past 1 MiB, and no ASSERT stops the initialisation.
pub init_overruns_kernel :
    (bits : ℕ → Bool) (counts : ℕ → ℕ) (k_start k_end : ℕ) (map : List E820Entry)
    → 0x100000 ≤ k_start
    → 2 ^ 31 ≤ detect_ram map
    → let pages = detect_ram map / page_size in
      (init bits counts k_start k_end map ≢ none) × (0x100000 < ref_counts_addr pages + pages * 2)
unfolding init bitmap_bytes
init_overruns_kernel bits counts k_start k_end map low big =
    (ground (arith, detect_ram-lt map), ground (arith, detect_ram-lt map))
