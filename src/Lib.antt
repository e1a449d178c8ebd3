-- ===== src/Lib.antt =====
-- CIDL, the library libawn.so, replaces memcpy, read, write, mmap and their kin in a program that
-- copies data from mapped files into buffers and writes the buffers again. It records, for each page
-- of memory, which bytes came from where in which file, and when a buffer is written it compares the
-- buffer with the files to count the bytes that need not have been written. This library models the
-- program's core, the build without PATCH and USE_FMAP_CACHE, with and without DELETE_TREENODE, and
-- the build with BASE_VERSION.
--
-- The parts, and the files that model them:
--   - Base: 64-bit words with their wrap-around, lists, tests, and runs of code that changes a state
--     and may end the process (Base/Exec, Base/Outcomes).
--   - Addr (addr.h): getAddr and the addr2Page macros; Addr/Init has the page globals that init of
--     awn.c computes, Addr/Pages how the macros relate.
--   - Pool (mem.h, mem.c): one object pool, an array of pointers used as a stack; the pools that grow
--     refill themselves from malloc. Pool/Valid and Pool/Grow keep account of the objects in use.
--   - Mem (mem.h, mem.c): the five pools, the allocate and withdraw functions, and initMemory
--     (Mem/Init).
--   - SearchTree: tsearch, tfind and tdelete of the C library. They are modelled by descent in a
--     binary tree; what the code relies on is the order of the comparisons, not the balance of the
--     tree. SearchTree/Order is about trees in the order of a key.
--   - Rec (mem.h, tree.h, tree.c, awn.c): the record tree. Rec/Insert has addTreeNode, writeRec,
--     insertRec and ts_isMemTraced (Continues, Restarts and Default are about the build with
--     DELETE_TREENODE, Due about insertRec when nodes run low), Rec/Reclaim the reclamation
--     recTreeNodeGrabageReclaim, with its loop over any queue in Compact, over one array in OneLoop,
--     OneArray and Open, and over two in TwoLoop and TwoArrays. Rec/View is the abstract view, for
--     each page the list of its records, and Rec/Owned the invariant: what the nodes hold comes from
--     the pools, and nothing is in two places.
--   - State (tree.c, common.h, statistics.h): the state of the whole library, with the mapped files,
--     the comparisons of the two trees of mappings, and the counters.
--   - Write (awn.c): memcmp_avx2_asm in its C text, cmpWrite, do_ts_write, ts_write and ts_pwrite.
--   - StreamWrite (awn.c): ts_fwrite, whose loops differ from those of do_ts_write.
--   - Files (awn.c): ts_mmap, ts_munmap, ts_memcpy, ts_memcpy_withFile, ts_read, ts_open, ts_openat,
--     ts_fopen and ts_close. The results of system calls, and the memory after mmap, are arguments.
--     Its children state what a copy, a mapping, a read, an unmapping and a close leave behind
--     (Forget: what is found by address), and Files/WriteBack follows a copied buffer, and
--     Files/ReadBack one that was read, to its write (Files/Counts is about that write alone), and
--     Files/First the first file of a program from its opening to a write or to its close.
--   - Setup (awn.c): init, the constructor, with what it leaves behind (Setup/Started) and a program
--     from its start to its first write (Setup/ToWrite).
--   - TracedCopy (awn.c): ts_memcpy_traced, which inserts the records of the source's pages again at
--     the destination. TracedCopy/Moves is about any sequence of records that are inserted again while
--     the node that they come from stays; it rests on Rec/Insert/Stock, what a sequence of insertions
--     needs of the pools, and Rec/Insert/Stocked, one insertion with such stock.
--   - Realloc (awn.c): ts_realloc and ts_free.
--   - Listing (tree.c): the listings of mappings, pages and records, and the check for empty nodes;
--     twalk is SearchTree/Walk. Dump (debug.c): printMem.
--   - Statistics (statistics.h, statistics.c): the timers and the statistics.
--   - BaseVersion (awn.c, tree.c, mem.h, mem.c): the build with BASE_VERSION, whose record tree holds
--     ranges of memory. BaseVersion/Sorted has the trees of ranges in order, Insert deleteRec and
--     insertRec, Writes do_ts_write, and Copies ts_memcpy_traced.
--   - Calls: sequences of calls of the library, with what the system returns to each of them.
--   - Examples: the theorems at concrete inputs.
--
-- A copy (Files) finds the mapping of its source, and inserts a record (Rec), whose node, entry and
-- array come from the pools (Mem, Pool). A write (Write) visits the pages of its buffer, and for each
-- record of a page finds the mapping by the file name in the record and compares the bytes.
--
-- Numbers are natural numbers; unsigned arithmetic is reduced modulo 2^64, and shorts and ints are
-- kept as bit patterns. Pointers are numbers, and NULL is 0. A failed assertion ends the process with
-- status 100, exit(-1) with 255, and an access through NULL with 139. malloc returns blocks above all
-- earlier ones while there is room, and NULL after that. The queue of a record node is the list of its
-- entries, its head first; the node that lastRec.lastIdx points into is kept by its page number.
--
-- The system calls mmap, write, pwrite and fwrite, and realloc and free, may change the memory: the
-- memory after the call is an argument of the function, for any bytes at all, and what the code reads
-- afterwards, as the path in ts_mmap or the buffer and the mappings in the comparison of ts_write, it
-- reads from there. A write to a shared mapping of the file that it goes to may so change the bytes
-- that the buffer is compared with; the theorems that count a buffer as the same assume that it does
-- not.
--
-- twalk visits the nodes of the tree in order, and its action reads each node as it is then. The
-- reclamation may delete the node that is visited. The C library does not say how twalk goes on over a
-- tree that has been changed, and it may read the node that was freed, so such a run ends with a
-- status of the model's own, 140, unless the node was the only one of the tree; the theorems that say
-- only that a function ends, or what holds when it returns, say nothing about what comes after that.
--
-- Two loops run on fuel of their own: the shift loop of init, for which one more round than the bits
-- of the page size is enough, and the compaction of a node's records, whose fuel is 38 rounds for each
-- entry and one for each record of the counter, since each round moves its cursor on by one of at most
-- 38 places for each entry. The other loops are structural, the walk of the reclamation among them.
-- The counter of memcmp_avx2_asm is an int in C; the model's does not overflow, so both agree where a
-- difference or the end comes within 2^31 bytes.
--
-- In the build with BASE_VERSION, deleteRec deletes with as much fuel as the tree has records, and
-- do_ts_write has one round more than the buffer has bytes, since each round starts behind the one
-- before; the copying loop takes its fuel as an argument, as its insertions may fall into the source
-- again.
--
-- The loops over the entries of a page in ts_memcpy_traced and ts_realloc take their fuel as an
-- argument: an insertion may lengthen the queue that they walk, and the loop of ts_realloc may not
-- advance. An entry that the reclamation has taken out of a queue during such a walk has no entry
-- before it, which is what its pointers say in C as long as it is not used again.
--
-- Not modelled: the assembly of memcmp_avx2_asm; the prefixes and the shares in per cent of what is
-- printed; the mutex, except that its set-up may fail; protection keys; that free of a file name in
-- ts_munmap leaves a dangling pointer in FD2PATH; caches of builds that are switched off. If FD2PATH
-- cannot be allocated, the model of init ends, and the code at its first access.
pub mod Base
pub mod Addr
pub mod Pool
pub mod SearchTree
pub mod Mem
pub mod Rec
pub mod State
pub mod Write
pub mod StreamWrite
pub mod Files
pub mod Setup
pub mod Listing
pub mod Dump
pub mod Statistics
pub mod TracedCopy
pub mod Realloc
pub mod BaseVersion
pub mod Calls
pub mod Examples
