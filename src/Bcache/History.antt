-- ===== src/Bcache/History.antt =====
-- Sequences of calls of kernel/fs/bcache.c.
use eter_os.Base.{
  ℕ, ◌≡◌, ◌⊎◌, Bool, true, false, none, some, List, [], ◌∷◌, replicate, get_or-replicate,
}
use eter_os.Bcache.{Bcache, cleared, bcache_init, hits, read, write, invalidate, invalidate_all}
use eter_os.Bcache.Coherence.{Disk, put, Tracks}
use eter_os.Bcache.Replies.{hits-map}
use eter_os.Bcache.Steps.{read-Tracks, read_hit, write-Tracks, invalidate-Tracks}

-- The calls that clients make, and what the disk holds after them.
pub data Call : Type 0 where
  reads : (vol sec : ℕ) → Call
  writes : (vol sec : ℕ) → List ℕ → Call
  forgets : (vol sec : ℕ) → Call
  forgets_all : (locked : Bool) → Call

unfoldable pub run : List Call → Bcache → Bcache
run [] c = c
run (reads vol sec ∷ calls) c = run calls (read vol sec c).1
run (writes vol sec buffer ∷ calls) c = run calls (write vol sec buffer c)
run (forgets vol sec ∷ calls) c = run calls (invalidate vol sec c)
run (forgets_all locked ∷ calls) c = run calls (invalidate_all locked c)

-- The data of the last write of each sector.
unfoldable pub last_written : List Call → Disk → Disk
unfolding put
last_written [] d = d
last_written (writes vol sec buffer ∷ calls) d = last_written calls (put d vol sec buffer)
last_written (reads vol sec ∷ calls) d = last_written calls d
last_written (forgets vol sec ∷ calls) d = last_written calls d
last_written (forgets_all locked ∷ calls) d = last_written calls d

invalidate_all-Tracks :
    (locked : Bool) (c : Bcache) {d : Disk}
    → Tracks d c.entries
    → Tracks d (invalidate_all locked c).entries
unfolding invalidate_all
invalidate_all-Tracks true c t = t
invalidate_all-Tracks false c t = record {
  distinct = λ v s i j li lj h g. cc (hits-map v s c.entries i, h);
  holds = λ v s i l h. cc (hits-map v s c.entries i, h);
}

run-Tracks :
    (calls : List Call) (c : Bcache) {d : Disk}
    → Tracks d c.entries
    → Tracks (last_written calls d) (run calls c).entries
unfolding run last_written
run-Tracks [] c t = t
run-Tracks (reads vol sec ∷ calls) c t = run-Tracks calls _ (read-Tracks vol sec c t)
run-Tracks (writes vol sec buffer ∷ calls) c t =
    run-Tracks calls _ (write-Tracks vol sec c buffer t)
run-Tracks (forgets vol sec ∷ calls) c t = run-Tracks calls _ (invalidate-Tracks vol sec c t)
run-Tracks (forgets_all locked ∷ calls) c t = run-Tracks calls _ (invalidate_all-Tracks locked c t)

Tracks-replicate : (d : Disk) (n : ℕ) → Tracks d (replicate n cleared)
unfolding hits
Tracks-replicate d n = record {
  distinct = λ v s i j li lj h g. cc (get_or-replicate n i cleared, h);
  holds = λ v s i l h. cc (get_or-replicate n i cleared, h);
}

-- From `bcache_init` on and after any calls, a hit returns the data of the last write of the sector.
pub read-run :
    (calls : List Call) (d : Disk) (vol sec : ℕ)
    → let found = (read vol sec (run calls bcache_init)).0 in
      (found ≡ none) ⊎ (found ≡ some (last_written calls d vol sec))
unfolding bcache_init
read-run calls d vol sec =
    read_hit vol sec _ (run-Tracks calls bcache_init (Tracks-replicate d 128))
