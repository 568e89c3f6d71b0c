-- ===== src/Load/Snap/Code.antt =====
-- microbench/bench2/bench_all.cpp: the state of `AtomSnapBackend` and its threads, and what they do between
-- the calls of the library. The payload behind the two values, the samples of latency and the counters of
-- operations are left out.
use atomsnap.Common.{ℕ, ◌+◌, Bool, false, Option, none, some, ◌==◌, leb, ltb, if◌then◌else◌}
use atomsnap.Common.Family.{update}
use atomsnap.Word.Pair.{u64}
use atomsnap.Protocol.Machine
use atomsnap.Protocol.Machine.{Mem, Thread, Move}

-- `AtomObj`
pub record AtomObj : Type 0 where
  pub v1 : ℕ
  pub v2 : ℕ

-- A round that publishes a version: of the loop of `init`, or of `writer_loop`.
pub data Round : Type 0 where
  first_of : (s : ℕ) → Round
  update_of : (seq shard : ℕ) → Round

-- Where a thread stands in `init`, `writer_loop` or `reader_loop`.
pub data User : Type 0 where
  -- before `atomsnap_make_version`, and before `alloc`
  w_top : Round → User
  w_made : Round → User
  -- with a block of the pool, and after each of the two stores to it
  w_got : Round → (obj : ℕ) → User
  w_half : Round → (obj : ℕ) → User
  w_full : Round → (obj : ℕ) → User
  -- after `atomsnap_set_object`
  w_set : Round → User
  -- in `atomsnap_exchange_version_slot` or after it
  w_swap : Round → User
  -- between two rounds, and after the acquire
  r_top : (shard : ℕ) → User
  r_got : (shard : ℕ) → User
  -- after the first load, and after the check
  r_one : (shard v1 : ℕ) → User
  r_done : (shard : ℕ) → User
  -- after `init`
  running : User
  -- after `abort`
  aborted : User
  -- after a use of a block that is not taken from the pool, or a second `free` of one
  crashed : User

-- The library, the object of each version, the blocks that are taken from the pool, their values, and the
-- threads. Slot 0 of `gates[s]` is the control block `s` of the library.
pub record System : Type 0 where
  pub lib : Machine.System
  pub object : ℕ → Option ℕ
  pub taken : ℕ → Bool
  pub heap : ℕ → AtomObj
  pub user : ℕ → User

-- Which gate the round replaces the version of.
abbrev pub gate_of : Round → ℕ
gate_of (first_of s) = s
gate_of (update_of seq shard) = shard

-- What it stores: 0, or `seq` after `seq++`.
abbrev pub value_of : Round → ℕ
value_of (first_of s) = 0
value_of (update_of seq shard) = u64 (seq + 1)

-- The next round; `init` ends after the last shard.
abbrev pub next_round : (shards : ℕ) → Round → User
next_round shards (first_of s) = if ltb (s + 1) shards then w_top (first_of (s + 1)) else running
next_round shards (update_of seq shard) =
    w_top (update_of (u64 (seq + 1)) (if leb shards (shard + 1) then 0 else shard + 1))

-- A store to the block.
abbrev pub store_v1 : System → ℕ → Round → (obj : ℕ) → System
store_v1 s i r a =
    if s.taken a
    then record s {
      heap = update s.heap a (record (s.heap a) { v1 = value_of r });
      user = update s.user i (w_half r a);
    }
    else record s { user = update s.user i crashed }

abbrev pub store_v2 : System → ℕ → Round → (obj : ℕ) → System
store_v2 s i r a =
    if s.taken a
    then record s {
      heap = update s.heap a (record (s.heap a) { v2 = value_of r });
      user = update s.user i (w_full r a);
    }
    else record s { user = update s.user i crashed }

-- `if (ver)`, `if (o)` and the load of `o->v1`
abbrev pub read_obj : System → (shard : ℕ) → (obj : Option ℕ) → User
read_obj s shard none = r_done shard
read_obj s shard (some a) = if s.taken a then r_one shard (s.heap a).v1 else crashed

abbrev pub read_ver : System → (shard : ℕ) → (ver : Option ℕ) → User
read_ver s shard none = r_top shard
read_ver s shard (some ver) = read_obj s shard (s.object ver)

-- The load of `o->v2`, and the check.
abbrev pub check_obj : System → (shard v1 : ℕ) → (obj : Option ℕ) → User
check_obj s shard v1 none = crashed
check_obj s shard v1 (some a) =
    if s.taken a then (if v1 == (s.heap a).v2 then r_done shard else aborted) else crashed

abbrev pub check_ver : System → (shard v1 : ℕ) → (ver : Option ℕ) → User
check_ver s shard v1 none = crashed
check_ver s shard v1 (some ver) = check_obj s shard v1 (s.object ver)

-- `atomsnap_free_cb`
abbrev pub freed : (ℕ → Bool) → (obj : Option ℕ) → ℕ → Bool
freed taken none = taken
freed taken (some a) = update taken a false

abbrev pub free_user : (ℕ → Bool) → (obj : Option ℕ) → User → User
free_user taken none u = u
free_user taken (some a) u = if taken a then u else crashed

-- The state after a thread's operation in the library.
abbrev pub after :
    (s : System) (i : ℕ) {m : Mem} {t : Thread} → Move s.lib.mem (s.lib.thr i) m t → User → System
after s i {m} {t} mv u = record s {
  lib = record { mem = m; thr = update s.lib.thr i t };
  user = update s.user i u;
}

abbrev pub go : System → ℕ → User → System
go s i u = record s { user = update s.user i u }
