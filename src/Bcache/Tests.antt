-- ===== src/Bcache/Tests.antt =====
-- A small cache on which kernel/fs/bcache.c runs, and the theorems at it.
use eter_os.Base.{
  ℕ, zero, suc, ◌*◌, ◌<◌, ◌≡◌, refl, ◌≢◌, ◌⊎◌, true, none, some, List, [], ◌∷◌, arith,
}
use eter_os.Bcache.{Entry, Bcache, bcache_init, hits, find_hit, find_victim, read, write}
use eter_os.Bcache.Lookup.{at, AllValid, NotBelow}
use eter_os.Bcache.Coherence.{Disk, Tracks}
use eter_os.Bcache.Replies.{write_evicts}
use eter_os.Bcache.History.{Call, reads, writes, forgets, run, last_written, read-run}

abbrev entry : ℕ → ℕ → ℕ → Entry
entry sec byte now = record {
  volume_id = 1;
  sector = sec;
  bytes = byte ∷ [];
  valid = true;
  last_access = now;
}

-- Two entries, both valid.
abbrev two : Bcache
two = record { entries = entry 5 50 8 ∷ entry 6 60 7 ∷ []; access_counter = 8 }

abbrev disk : Disk
disk v s = s * 10 ∷ []

two-Tracks : Tracks disk two.entries
unfolding hits
two-Tracks = record { distinct = same; holds = data' }
  where
    same :
        (v s i j : ℕ)
        → i < 2
        → j < 2
        → hits v s (at two.entries i) ≡ true
        → hits v s (at two.entries j) ≡ true
        → i ≡ j
    same v s zero zero li lj h g = refl
    same v s zero (suc zero) li lj h g = ground arith
    same v s (suc zero) zero li lj h g = ground arith
    same v s (suc zero) (suc zero) li lj h g = refl
    same v s (suc (suc i)) j li lj h g = absurd (omega arith)
    same v s zero (suc (suc j)) li lj h g = absurd (omega arith)
    same v s (suc zero) (suc (suc j)) li lj h g = absurd (omega arith)

    data' :
        (v s i : ℕ)
        → i < 2
        → hits v s (at two.entries i) ≡ true
        → (at two.entries i).bytes ≡ disk v s
    data' v s zero l h = ground arith
    data' v s (suc zero) l h = ground arith
    data' v s (suc (suc i)) l h = absurd (omega arith)

two-AllValid : AllValid two.entries
two-AllValid zero l = refl
two-AllValid (suc zero) l = refl
two-AllValid (suc (suc i)) l = absurd (omega arith)

-- Sector 6 was accessed before sector 5, so it is evicted.
evicts_older :
    write 1 7 (70 ∷ []) two
    ≡ record { entries = entry 5 50 8 ∷ entry 7 70 9 ∷ []; access_counter = 9 }
unfolding write hits find_hit find_victim
evicts_older = refl

write_evicts_example :
    (j : ℕ) × (j < 2)
    × NotBelow (at two.entries j).last_access two.entries
    × (at (write 1 7 (70 ∷ []) two).entries j ≡ entry 7 70 9)
    × ((k : ℕ) → k ≢ j → at (write 1 7 (70 ∷ []) two).entries k ≡ at two.entries k)
unfolding read hits find_hit
write_evicts_example =
    write_evicts 1 7 (70 ∷ []) two two-Tracks two-AllValid refl 0 (omega arith) (omega arith)

abbrev calls : List Call
calls = writes 1 5 (50 ∷ []) ∷ reads 1 5 ∷ writes 1 5 (51 ∷ []) ∷ forgets 1 6 ∷ []

read-run_example :
    let found = (read 1 5 (run calls bcache_init)).0 in
    (found ≡ none) ⊎ (found ≡ some (last_written calls disk 1 5))
read-run_example = read-run calls disk 1 5
