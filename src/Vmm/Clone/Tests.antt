-- ===== src/Vmm/Clone/Tests.antt =====
-- A program of one page is copied, on a machine of sixteen frames.
use eter_os.Base.{ℕ, ◌==◌, ◌&&◌, ltb, if◌then◌else◌}
use eter_os.Pmm.{Pmm}
use eter_os.Bcache.{bcache_init}
use eter_os.Vmm.{Entry, Vmm, no_entry, table_flags}

abbrev frames : Pmm
frames = record {
  bitmap = λ k. ltb k 6;
  ref_counts = λ k. 1;
  total_ram = 65536;
  used_ram = 24576;
  total_pages = 16;
  last_free_idx = 0;
}

abbrev entry : ℕ → Entry
entry addr = record { addr = addr; flags = table_flags }

abbrev program_tables : ℕ → ℕ → Entry
program_tables x i =
    if (x == 4096) && (i == 0)
    then entry 8192
    else if (x == 8192) && (i == 8)
    then entry 12288
    else if (x == 12288) && (i == 0)
    then entry 20480
    else if (x == 20480) && (i == 0)
    then entry 16384
    else no_entry

abbrev program : Vmm
program = record {
  pmm = frames;
  cache = bcache_init;
  tables = program_tables;
  data_at = λ x i. 0;
  pml4 = 4096;
}
