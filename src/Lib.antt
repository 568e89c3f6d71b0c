-- ===== src/Lib.antt =====
-- atomsnap: a model of the library of versioned snapshots in atomsnap.c and atomsnap.h.
--
-- A gate has slots, each a control block of 64 bits: an outer reference count above the 32-bit handle of
-- a version. A reader acquires the version of a slot (one is added to the outer count) and releases it
-- (one is added to the inner count, in the version). A writer replaces the version; it then takes the
-- outer count off the inner one and sets DETACHED, and whoever brings a DETACHED counter to zero runs
-- the user's callback and returns the version's slot to its arena.
--
-- Which file models what:
-- - Word/Pair, Word/Handle: the words of atomsnap.c: control block, inner state, the top of an arena's
--   stack (its two halves of 32 bits), and `union atomsnap_handle`. `u32` and `u64` write out the
--   wrap-around.
-- - Pool/Memory, Pool/Slots, Pool/Arenas, Pool/Alloc: `struct atomsnap_version`, `struct memory_arena`,
--   `struct thread_context`, `g_arena_table`, and the functions of atomsnap.c from `resolve_handle` and
--   `pop_local` to `setup_arena_stack`, `init_arena`, `alloc_slot` and `free_slot`, under their names.
--   Pool/Stack reads the free lists as lists of slot indices; Pool/Reclaim is about giving back arenas.
--   Pool/Owned has the well-formedness of all that one thread owns, and what each step of `alloc_slot`
--   does to it; Pool/History the histories of `alloc_slot` by one thread and `free_slot` by any, each call
--   running alone. Pool/Shared has one arena under concurrent calls of `free_slot`, and its owner.
-- - Api/World, Api/Threads, Api/Gates, Api/Versions, Api/Swaps: the whole state of the library and the
--   public functions `atomsnap_*` with the helpers that they call, each call running alone. Api/Ids is
--   about thread IDs, Api/Compare about the compare-exchange, Api/Published about one version from its
--   acquires to its callback.
-- - Protocol/Machine: the same operations on versions as threads that make one atomic step at a time, in
--   any order. Protocol/Invariant has the invariant of all reachable states, by kinds of step;
--   Protocol/Safety and Protocol/Progress what follows from it. Protocol/Client and Protocol/Objects are
--   what the programs over the library share: which versions are out, the object of each version, and
--   what each operation of the library does to both.
-- - Load: of microbench/bench2/bench_all.cpp the options, the writer over RCU and the
--   statistics of latencies, and of bench_common.hpp the calibration. `atoi`, `strtoull`, `double` and
--   the clock are parameters; calls of the RCU library are logged.
--   Load/Snap has the backend over the library, with the machine of Protocol for it: slot 0 of the
--   gate of shard `s` is its control block `s`, and a call of the tagged pool is one step.
-- - Tagged: `TaggedFreeList` of microbench/bench2/lf_pool.hpp, with its 64-bit tagged pointers.
-- - Bench: the readers and writers of microbench/bench1/cmp_exchange/spinlock_example.cpp,
--   mutex_example.cpp and shared_ptr_example.cpp beside it (Bench/Counted), the latter with its
--   `PoolAllocator`. Bench/Snap is atomsnap_example.cpp beside them, with
--   the machine of Protocol for the library: heap addresses are numbers, `new` gives one that is not in
--   use, and a use of NULL or of a deleted object is the state `crashed`. Bench/Renew is
--   microbench/bench1/exchange/atomsnap_example.cpp, whose writers exchange without a comparison.
-- - Common: the libraries' names, tests on numbers, families with one entry replaced, and `Cmd`, commands
--   on a state that return a value, are stopped (`abort`, a failed assertion) or fault (a NULL or
--   dangling pointer, an index out of range).
--
-- How the code is read:
-- - An operation on shared memory is one step, in one order for all threads: `memory_order_acquire`,
--   `_release` and `_acq_rel` are read as sequential consistency.
-- - Arenas, gates and user objects are named by addresses, which are numbers; NULL is `none`. The two
--   fields of the union in a version, `self_handle` and `next_handle`, are one word.
-- - What the system answers during a call (`aligned_alloc`, `realloc`, `calloc`, `madvise`,
--   `pthread_setspecific`, `pthread_key_create`) is the record `Host`, a parameter of the functions. The
--   user's callback is not run but logged, with its arguments; the programs over Protocol/Machine (Bench/Snap,
--   Bench/Renew, Load/Snap) run theirs.
-- - A loop over a fixed range is recursion on the number of rounds. A loop around a weak compare-exchange
--   of a call that runs alone takes `Host.spurious` rounds that fail for no reason, any number, and then
--   the one that succeeds; in Protocol/Machine such a loop is any number of steps. The only fuel is that of
--   `calibrate` (Load/Burn), 21 rounds, and it is enough.
-- - The programs over Protocol/Machine have a step for a call of `atomsnap_make_version` that returns NULL (of
--   memory that is refused, or beyond the 2^20 threads of README.md) and what follows from it, and Load/Snap one
--   for a block of the pool that is given out twice. A parameter of their `Step` and `Reach` (`refuses`, `faults`)
--   says whether such steps are made. An exception of `new` or of the pool is not modelled.
-- - The vectors of a context have a size, 0 for NULL: an access beyond it is a fault.
-- - Protocol/Machine takes fewer than 2^32 threads, each of which holds one version at a time, as
--   README.md asks, and whose compare-exchange expects NULL or the version that it holds. The pool of
--   free slots is there a predicate on handles.
--
-- Not modelled: memory orders weaker than sequential consistency; arenas given back while
-- another thread is in a call; interleavings inside the calls of the tagged pool, whose tag of 4
-- bits repeats after 16 operations, so that nothing holds of them for all interleavings; the program
-- test/wraparound_test.c, which only calls the library; of microbench the loops of
-- bench1/exchange/shared_ptr_example.cpp, whose allocator is the modelled one, the readers over RCU and
-- the callbacks of the RCU library, which are calls of a library that is not in the repository, the
-- payload behind the values, and the measurement of time and memory with its printing.
pub mod Common
pub mod Word
pub mod Pool
pub mod Api
pub mod Protocol
pub mod Tagged
pub mod Bench
pub mod Load
