-- ===== src/Bcache.antt =====
-- kernel/fs/bcache.c: a cache of 512-byte disk sectors with least-recently-used replacement.
--
-- The state is that of an initialised cache, of which `bcache` is not NULL. The spinlock makes each
-- function atomic. A sector's data is a list of bytes, which the cache only moves.
pub mod Coherence
pub mod History
pub mod Lookup
pub mod Replies
pub mod Steps
mod Tests
use eter_os.Base.{
  ℕ, zero, suc, ◌+◌, ◌-◌, ◌*◌, ◌%◌, ◌^◌, Bool, true, false, ◌&&◌, Option, none, some, List, [], ◌∷◌,
  ltb, ◌==◌, if◌then◌else◌, map, replicate, get_or, set, length, add64,
}

abbrev pub bcache_size : ℕ
bcache_size = 128

-- `bcache_entry_t`.
pub record Entry : Type 0 where
  pub volume_id : ℕ
  pub sector : ℕ
  pub bytes : List ℕ
  pub valid : Bool
  pub last_access : ℕ

pub record Bcache : Type 0 where
  pub entries : List Entry
  pub access_counter : ℕ

-- `bcache_init`, when `kmalloc` returns memory: the entries are cleared.
unfoldable pub zero_sector : List ℕ
zero_sector = replicate 512 0

abbrev pub cleared : Entry
cleared = record { volume_id = 0; sector = 0; bytes = zero_sector; valid = false; last_access = 0 }

unfoldable pub bcache_init : Bcache
bcache_init = record { entries = replicate bcache_size cleared; access_counter = 0 }

-- The test of the three lookup loops.
unfoldable pub hits : ℕ → ℕ → Entry → Bool
hits vol sec e = e.valid && e.volume_id == vol && e.sector == sec

-- The loop that looks for the first entry that holds the sector: its index, counted from `i`.
unfoldable pub find_hit : ℕ → ℕ → List Entry → ℕ → Option ℕ
find_hit vol sec [] i = none
find_hit vol sec (e ∷ es) i =
    let rest = find_hit vol sec es (i + 1) in if hits vol sec e then some i else rest

-- `bcache[i]`; the index is always in range.
abbrev pub entry_at : Bcache → ℕ → Entry
entry_at c i = get_or c.entries i cleared

-- `bcache_read`: the data that goes to the buffer, or `none` for -EINVAL.
unfoldable pub read : ℕ → ℕ → Bcache → Option (List ℕ) × Bcache
read vol sec c =
    let now = add64 c.access_counter 1 in
    elim (find_hit vol sec c.entries 0) [
      | none ↦ (none, c)
      | some i ↦ (
        some (entry_at c i).bytes,
        record {
          entries = set c.entries i (record (entry_at c i) { last_access = now });
          access_counter = now;
        },
      )
    ]

-- The loop for the victim: the first invalid entry, or else the first of the smallest
-- `last_access`. `best` is `victim_idx` and `min_access` the smallest so far.
unfoldable pub find_victim : List Entry → ℕ → (best : Option ℕ) → (min_access : ℕ) → Option ℕ
find_victim [] i best min_access = best
find_victim (e ∷ es) i best min_access =
    let smaller = ltb e.last_access min_access in
    let rest =
      find_victim es (i + 1) (if smaller then some i else best)
        (if smaller then e.last_access else min_access) in
    if e.valid then rest else some i

-- `bcache_write`.
unfoldable pub write : ℕ → ℕ → List ℕ → Bcache → Bcache
write vol sec buffer c =
    let now = add64 c.access_counter 1 in
    elim (find_hit vol sec c.entries 0) [
      | some i ↦ record {
        entries = set c.entries i (record (entry_at c i) { bytes = buffer; last_access = now });
        access_counter = now;
      }
      | none ↦ elim (find_victim c.entries 0 none (2 ^ 64 - 1)) [
        | none ↦ c
        | some i ↦ record {
          entries = set c.entries i (record {
            volume_id = vol;
            sector = sec;
            bytes = buffer;
            valid = true;
            last_access = now;
          });
          access_counter = now;
        }
      ]
    ]

-- `valid = 0`.
abbrev pub forget : Entry → Entry
forget e = record e { valid = false }

-- `bcache_invalidate`.
unfoldable pub invalidate : ℕ → ℕ → Bcache → Bcache
invalidate vol sec c = elim (find_hit vol sec c.entries 0) [
  | none ↦ c
  | some i ↦ record c { entries = set c.entries i (forget (entry_at c i)) }
]

-- `bcache_invalidate_all`, which does nothing while another holder has the lock.
unfoldable pub invalidate_all : (locked : Bool) → Bcache → Bcache
invalidate_all locked c = if locked then c else record c { entries = map forget c.entries }
