-- ===== src/Bench/Blocks.antt =====
-- `PoolAllocator` of microbench/bench1/cmp_exchange/shared_ptr_example.cpp, the same text as in
-- microbench/bench1/exchange/shared_ptr_example.cpp. A block is its address; the data is 16 bytes behind it.
use atomsnap.Common.{ℕ, zero, suc, ◌+◌, ◌-◌, Option, none, some, ltb, if◌then◌else◌}
use atomsnap.Common.Family.{update}
use atomsnap.Common.Outcome.{ok, stopped, fault, Cmd, pure, get, put, ◌>>=◌, ◌>>◌}
use atomsnap.Word.Pair.{u32}

-- The headers of the blocks by address, the arenas by thread ID, and `my_tid` by thread.
pub record GlobalArenaPool : Type 0 where
  pub next : ℕ → Option ℕ
  pub owner_tid : ℕ → ℕ
  pub shared_head : ℕ → Option ℕ
  pub local_head : ℕ → Option ℕ
  pub tid_counter : ℕ
  pub my_tid : ℕ → Option ℕ

-- `kMaxThreads`
abbrev pub k_max_threads : ℕ
k_max_threads = 128

-- `block + 1`
abbrev pub data_of : ℕ → ℕ
data_of block = block + 16

-- `reinterpret_cast<PoolBlock*>(p) - 1`
abbrev pub block_of : ℕ → ℕ
block_of p = p - 16

unfoldable pub new_tid : (thread : ℕ) → Option ℕ → Cmd GlobalArenaPool ℕ
new_tid thread (some tid) = pure tid
new_tid thread none = do
  g ← get
  put (record g {
    tid_counter = u32 (g.tid_counter + 1);
    my_tid = update g.my_tid thread (some g.tid_counter);
  })
  pure g.tid_counter

unfoldable pub get_tid : (thread : ℕ) → Cmd GlobalArenaPool ℕ
get_tid thread = do g ← get; new_tid thread (g.my_tid thread)

-- Step 3: `operator new` gives the address `memory`, or throws.
unfoldable pub allocate_new : (tid : ℕ) (memory : Option ℕ) → Cmd GlobalArenaPool ℕ
allocate_new tid none g = stopped
allocate_new tid (some block) g =
    ok (data_of block) (record g { owner_tid = update g.owner_tid block tid })

-- Step 2, with the head that the exchange returned.
unfoldable pub take_stolen : (tid : ℕ) (memory stolen : Option ℕ) → Cmd GlobalArenaPool ℕ
take_stolen tid memory none g = allocate_new tid memory g
take_stolen tid memory (some stolen) g =
    ok (data_of stolen) (record g { local_head = update g.local_head tid (g.next stolen) })

-- Step 1, with the head of the local list.
unfoldable pub take_local : (tid : ℕ) (memory head : Option ℕ) → Cmd GlobalArenaPool ℕ
take_local tid memory none g =
    take_stolen tid memory (g.shared_head tid)
      (record g { shared_head = update g.shared_head tid none })
take_local tid memory (some block) g =
    ok (data_of block) (record g { local_head = update g.local_head tid (g.next block) })

-- Steps 1 to 3 in the arena of an ID; an ID beyond the array of arenas is out of bounds.
unfoldable pub allocate_in : (memory : Option ℕ) → (tid : ℕ) → Cmd GlobalArenaPool ℕ
allocate_in memory tid g =
    if ltb tid k_max_threads then take_local tid memory (g.local_head tid) g else fault

-- `allocate(n)` by a thread.
unfoldable pub allocate : (n thread : ℕ) (memory : Option ℕ) → Cmd GlobalArenaPool ℕ
allocate n thread memory =
    if ltb 1 n
    then (λ g. elim memory [ some p ↦ ok p g | none ↦ stopped ])
    else (get_tid thread >>= allocate_in memory)

-- The loop of `deallocate` from the value `head` on; the weak compare-exchange fails `spurious` times.
unfoldable pub push_shared : (spurious owner block : ℕ) → Option ℕ → Cmd GlobalArenaPool (Unit {0})
push_shared zero owner block head g = ok tt (record g {
  next = update g.next block head;
  shared_head = update g.shared_head owner (some block);
})
push_shared (suc spurious) owner block head g =
    push_shared spurious owner block (g.shared_head owner)
      (record g { next = update g.next block head })

-- `deallocate(p, n)`; NULL is `none`. An array goes back to the system.
unfoldable pub deallocate : (spurious : ℕ) → Option ℕ → (n : ℕ) → Cmd GlobalArenaPool (Unit {0})
deallocate spurious none n g = ok tt g
deallocate spurious (some p) n g =
    if ltb 1 n
    then ok tt g
    else (let owner = g.owner_tid (block_of p) in
        if ltb owner k_max_threads
        then push_shared spurious owner (block_of p) (g.shared_head owner) g
        else fault)
