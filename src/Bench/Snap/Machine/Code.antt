-- ===== src/Bench/Snap/Machine/Code.antt =====
-- microbench/bench1/cmp_exchange/atomsnap_example.cpp: the state of the benchmark, and what each access
-- and each call of the library does to it.
use atomsnap.Common.{ℕ, ◌+◌, Bool, false, Option, none, some, ◌==◌, ltb, if◌then◌else◌}
use atomsnap.Common.Family.{update}
use atomsnap.Protocol.Machine
use atomsnap.Protocol.Machine.{
  Mem, Pc, reclaiming, Thread, Move, make, acquire, release, compare, reclaim, idle_thread, swapped,
}

-- `Data`
pub record Data : Type 0 where
  pub value1 : ℕ
  pub value2 : ℕ

-- Where a writer stands for which `atomsnap_make_version` returned NULL; `new_data` is its local pointer.
pub data Bare : Type 0 where
  -- before `new Data`: of the first version, or of a later one
  b_first : Bare
  b_again : Bare
  -- between two rounds, after the acquire, and after each of the two stores
  b_top : (new_data : ℕ) → Bare
  b_got : (new_data : ℕ) → Bare
  b_half : (new_data : ℕ) → Bare
  b_full : (new_data : ℕ) → Bare
  -- in the compare-exchange or after it: before it succeeds, and then
  b_cas : (new_data : ℕ) → Bare
  b_won : Bare
  -- before `atomsnap_release_version`
  b_done : (new_data : ℕ) → Bare

-- Where a thread stands in `writer` or `reader`; the versions `old_version`, `current_version` and
-- `new_version` are what the library's thread holds and has made.
pub data User : Type 0 where
  -- before its first `atomsnap_make_version`, and before `new Data`
  w_start : User
  w_first : User
  -- between two rounds
  w_top : User
  -- after the acquire, and after each of the two stores
  w_got : User
  w_half : User
  w_full : User
  -- in `atomsnap_compare_exchange_version` or after it
  w_cas : User
  -- after the next `atomsnap_make_version`, before `new Data`
  w_again : User
  -- before `atomsnap_release_version`
  w_done : User
  w_bare : Bare → User
  -- between two rounds
  r_top : (prev_value : ℕ) → User
  -- after the acquire
  r_got : (prev_value : ℕ) → User
  -- after the first load, after the first check, after the second, and after `prev_value = …`
  r_one : (prev_value value1 : ℕ) → User
  r_two : (prev_value : ℕ) → User
  r_three : User
  r_done : (prev_value : ℕ) → User
  -- `main`, in `join`
  joining : User
  -- after `exit(1)`
  exited : User
  -- after a load or store through NULL or a pointer to freed memory, or a second `delete`
  crashed : User

-- The library, the object of each version, the heap by address, and the threads.
pub record System : Type 0 where
  pub lib : Machine.System
  pub object : ℕ → Option ℕ
  pub alive : ℕ → Bool
  pub heap : ℕ → Data
  pub user : ℕ → User
  -- the local `ops` of each writer
  pub ops : ℕ → ℕ

-- `ops++`, of a writer whose version was published
abbrev pub counted : User → ℕ → ℕ
counted w_cas ops = ops + 1
counted _ ops = ops

-- Where a thread goes on after each call; `none` where it makes no such call.
abbrev pub made_from : User → Option User
made_from w_start = some w_first
made_from w_cas = some w_again
made_from _ = none

abbrev pub set_from : User → Option User
set_from w_first = some w_top
set_from w_again = some w_done
set_from _ = none

abbrev pub acquired_from : User → Option User
acquired_from w_top = some w_got
acquired_from (r_top prev) = some (r_got prev)
acquired_from _ = none

abbrev pub released_from : User → Option User
released_from w_done = some w_top
released_from (r_done prev) = some (r_top prev)
released_from _ = none

-- The address if it can be read.
abbrev pub usable : (ℕ → Bool) → Option ℕ → Option ℕ
usable alive none = none
usable alive (some a) = if alive a then some a else none

-- `atomsnap_get_object` of a version, if that can be read.
abbrev pub object_data : System → Option ℕ → Option ℕ
object_data s none = none
object_data s (some ver) = usable s.alive (s.object ver)

abbrev pub held_data : System → ℕ → Option ℕ
held_data s i = object_data s (s.lib.thr i).held

abbrev pub fresh_data : System → ℕ → Option ℕ
fresh_data s i = object_data s (s.lib.thr i).fresh

-- The state after a thread's operation in the library.
abbrev pub after :
    (s : System) (i : ℕ) {m : Mem} {t : Thread} → Move s.lib.mem (s.lib.thr i) m t → User → System
after s i {m} {t} mv u = record s {
  lib = record { mem = m; thr = update s.lib.thr i t };
  user = update s.user i u;
}

abbrev pub go : System → ℕ → User → System
go s i u = record s { user = update s.user i u }

-- `new_data->value1 = old_data->value1 + 1`
abbrev pub store1 : System → ℕ → (old new : Option ℕ) → System
store1 s i none new = go s i crashed
store1 s i (some a) none = go s i crashed
store1 s i (some a) (some b) = record s {
  heap = update s.heap b (record (s.heap b) { value1 = (s.heap a).value1 + 1 });
  user = update s.user i w_half;
}

-- `new_data->value2 = old_data->value2 + 1`
abbrev pub store2 : System → ℕ → (old new : Option ℕ) → System
store2 s i none new = go s i crashed
store2 s i (some a) none = go s i crashed
store2 s i (some a) (some b) = record s {
  heap = update s.heap b (record (s.heap b) { value2 = (s.heap a).value2 + 1 });
  user = update s.user i w_full;
}

-- The reader's loads and checks.
abbrev pub load1 : (ℕ → Data) → (prev_value : ℕ) → Option ℕ → User
load1 heap prev none = crashed
load1 heap prev (some a) = r_one prev (heap a).value1

abbrev pub load2 : (ℕ → Data) → (prev_value value1 : ℕ) → Option ℕ → User
load2 heap prev v1 none = crashed
load2 heap prev v1 (some a) = if v1 == (heap a).value2 then r_two prev else exited

abbrev pub load3 : (ℕ → Data) → (prev_value : ℕ) → Option ℕ → User
load3 heap prev none = crashed
load3 heap prev (some a) = if ltb (heap a).value1 prev then exited else r_three

abbrev pub load4 : (ℕ → Data) → Option ℕ → User
load4 heap none = crashed
load4 heap (some a) = r_done (heap a).value1

-- `atomsnap_free_impl`, which the library calls when a version is reclaimed: `delete` of its object.
abbrev pub deleted : (ℕ → Bool) → Option ℕ → ℕ → Bool
deleted alive none = alive
deleted alive (some a) = update alive a false

abbrev pub delete_user : (ℕ → Bool) → Option ℕ → User → User
delete_user alive none u = u
delete_user alive (some a) u = if alive a then u else crashed

-- Of a writer that gives NULL for the new version: the compare-exchange has succeeded when its thread is to
-- detach the version that was there.
abbrev pub bare_inside : Bare → Pc → Bare
bare_inside (b_cas a) (swapped ver refs) = b_won
bare_inside b _ = b

-- Its two stores, and where it goes on after `new Data`.
abbrev pub bare_store1 : System → ℕ → (old : Option ℕ) → (new_data : ℕ) → System
bare_store1 s i none a = go s i crashed
bare_store1 s i (some b) a =
    if s.alive a
    then record s {
      heap = update s.heap a (record (s.heap a) { value1 = (s.heap b).value1 + 1 });
      user = update s.user i (w_bare (b_half a));
    }
    else go s i crashed

abbrev pub bare_store2 : System → ℕ → (old : Option ℕ) → (new_data : ℕ) → System
bare_store2 s i none a = go s i crashed
bare_store2 s i (some b) a =
    if s.alive a
    then record s {
      heap = update s.heap a (record (s.heap a) { value2 = (s.heap b).value2 + 1 });
      user = update s.user i (w_bare (b_full a));
    }
    else go s i crashed

abbrev pub bare_new : Bare → (new_data : ℕ) → Option User
bare_new b_first a = some (w_bare (b_top a))
bare_new b_again a = some (w_bare (b_done a))
bare_new _ a = none
