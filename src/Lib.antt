-- ===== src/Lib.antt =====
-- EterOS: models and theorems for parts of the kernel.
--
-- EterOS is a small operating system in C. This library translates kernel components into
-- executable definitions and states what makes each of them correct.
--
-- - Pmm and its child modules: kernel/mm/pmm.c, the manager of physical page frames. Its static
--   variables are the record `Pmm`. `Pmm.antt` has the operations after the initialisation
--   (pmm_mark_region_used, pmm_alloc_page_impl with its two passes, pmm_free_page, pmm_ref_page and
--   the queries), `Pmm/Init.antt` has pmm_init over the E820 map. `Pmm/Reach.antt` has sequences of
--   calls.
-- - Heap: kernel/mm/heap.c, the heap of the kernel. The chain of block headers is a list of blocks
--   and each free list a list of addresses; whether the footer of a freed block is
--   intact is an argument of kfree. `Heap/Api.antt` has mm_init, kcalloc and krealloc, and
--   `Heap/Reach.antt` sequences of calls.
-- - Vmm: kernel/mm/vmm.c, the page tables. A table is a function from indices to entries, reached by
--   the address of its frame; `Vmm/Tree.antt` says when the tables of an address space are a tree and
--   which frame each page has. `Vmm/Map.antt` has the mapping of pages, `Vmm/Fault.antt` the copy on
--   write, `Vmm/Clone.antt` the copy of an address space, `Vmm/User.antt` the checks on pointers and
--   strings of programs. The release of an address space and the TLB are not modelled.
-- - Reclaim: pmm_alloc_page, which joins the frame manager with the block cache.
-- - Bcache: kernel/fs/bcache.c, the cache of disk sectors. `Bcache/History.antt` compares sequences
--   of calls with the disk that the writes describe.
-- - Input: kernel/drivers/input/input.c, the event queues. `Input/Threads.antt` adds the semaphore
--   of kernel/sem.c and the interleavings of threads: one step is one critical section.
-- - Dhcp: kernel/net/core/dhcp_parser.c. A load outside the buffer is the outcome `fault`, a
--   rejected packet is `reject`.
-- - Futex: kernel/futex.c, the user-space mutexes, with the states of tasks from kernel/task.c.
--   futex_wait is two critical sections; `Futex/Queue.antt` orders those of any tasks.
-- - Vfs: vfs_normalize_path of kernel/fs/vfs.c with strlcpy and strlcat of kernel/string.c. The
--   specification works on lists of names: `full_path` puts the path behind the base directory, `names`
--   splits it, `resolve` follows it and `canonical` writes the result.
-- - Tty: tty_read and tty_write of kernel/drivers/tty.c, with the keys, and the moments without
--   one, as a list and the echo as the output. `Tty/Edit.antt` has the editing of a line, `Tty/Device.antt` the settings.
-- - Sched: the sleep queue and the ready queues of kernel/task.c, with the calls that put tasks to
--   sleep and wake them. `Sched/Schedule.antt` has schedule without the switch of the stacks, and
--   `Sched/Reach.antt` the steps of the processors.
-- - Shm: kernel/fs/shmfs.c, the shared memory objects, over the frames of Pmm. `Shm.antt` has reads,
--   writes and changes of the size, `Shm/Directory.antt` the names, `Shm/Node.antt` the open files.
-- - IpUtils: ip_aton of kernel/net/core/ip_utils.c, the parser of dotted decimal addresses.
-- - Memory: memcpy, memmove and memcmp of kernel/string.c as they run on x86-64. The string
--   instructions copy one unit after the other.
-- - Convert: itoa_s and atoi_s of kernel/string.c.
-- - Base: shared names, Boolean tests, lists by index and words of 64 and 32 bits. Bits: bitwise
--   operations as arithmetic.
--
-- Correspondence. Addresses and machine words are natural numbers, with the wrap-around of 64 bits
-- written out where an operand is not bounded (`add64`, `sub64`, `mul64`), and that of 32 bits in
-- Shm. The frame bitmap and the reference counts are functions on frame numbers; a loop over memory
-- words visits the frames of a word in order of their bits. A spinlock makes a critical section one
-- step; where an attempt to take a lock may fail, that is an argument. Loops are structural
-- recursion on a count that the code computes first, or on fuel: the loop over the DHCP options has
-- one more than the length of the packet, and every round moves at least one byte; the loop over a
-- path has the path's length; those that copy an object page by page have one round for every byte.
--
-- Not modelled: output on the serial port, hardware access, assembly, and the other components of
-- the kernel.
pub mod Base
pub mod Bcache
pub mod Bits
pub mod Convert
pub mod Dhcp
pub mod Futex
pub mod Heap
pub mod Input
pub mod IpUtils
pub mod Memory
pub mod Pmm
pub mod Reclaim
pub mod Sched
pub mod Shm
pub mod Tty
pub mod Vfs
pub mod Vmm
