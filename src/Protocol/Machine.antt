-- ===== src/Protocol/Machine.antt =====
-- The readers and writers of atomsnap.c as threads that make one atomic operation at a time: the
-- public operations on a version from `atomsnap_make_version` to the callback and `free_slot`.
-- Pointers to versions are their handles. The orders `acquire`, `release` and `acq_rel` are read
-- as sequential consistency. The pool of free slots is the predicate `avail`.
use atomsnap.Common.{
  ℕ, ◌+◌, ◌<◌, ◌≡◌, ◌⊎◌, Bool, true, false, Option, none, some, ◌==◌, if◌then◌else◌,
}
use atomsnap.Common.Family.{update}
use atomsnap.Word.Pair.{
  u64, handle_null, ref_count_inc, inner_cnt_inc, inner_cnt, inner_flags, has_detached,
  has_finalized, handle_of, refs_of, detached_state, finalized_state,
}

-- The words that threads share: the control blocks of a gate by slot index, the inner state of
-- each version by handle, and which handles are free to be allocated.
pub record Mem : Type 0 where
  pub cb : ℕ → ℕ
  pub inner : ℕ → ℕ
  pub avail : ℕ → Bool

-- Where a thread stands, with the local variables that are live there.
pub data Pc : Type 0 where
  -- between two calls
  ready : Pc
  -- the loop of `atomsnap_compare_exchange_version_slot`, before its weak compare-exchange
  comparing : (k exp_handle new_handle current_val : ℕ) → Pc
  -- start of `detach_and_adjust`
  swapped : (ver old_refs : ℕ) → Pc
  -- its loop, before the weak compare-exchange
  adjusting : (ver old_refs cur : ℕ) → Pc
  -- start of `try_finalize`
  checking : (ver state : ℕ) → Pc
  -- before its `atomic_fetch_or`
  claiming : (ver : ℕ) → Pc
  -- start of `finalize_and_free`
  reclaiming : (ver : ℕ) → Pc
  -- after `abort`
  aborted : Pc

-- `held` is the version between its acquire and the first step of its release, `fresh` the one
-- made and not yet published.
pub record Thread : Type 0 where
  pub held : Option ℕ
  pub fresh : Option ℕ
  pub pc : Pc

-- The handle of a version pointer: `ver ? ver->self_handle : HANDLE_NULL`.
abbrev pub handle_or_null : Option ℕ → ℕ
handle_or_null none = handle_null
handle_or_null (some h) = h

-- The version of a handle: `resolve_handle` for the handles of versions.
abbrev pub version_of : ℕ → Option ℕ
version_of h = if h == handle_null then none else some h

-- After a version is taken out of a control block: `if (old_ver) detach_and_adjust(...)`.
abbrev pub after_swap : (old_handle old_refs : ℕ) → Pc
after_swap old_handle old_refs =
    if old_handle == handle_null then ready else swapped old_handle old_refs

-- The loop head of the compare-exchange: `return false` unless the handle is still expected.
abbrev pub recheck : (k exp_handle new_handle current_val : ℕ) → Pc
recheck k exp_handle new_handle current_val =
    if handle_of current_val == exp_handle
    then comparing k exp_handle new_handle current_val
    else ready

-- The tests of `try_finalize`.
abbrev pub after_check : (ver state : ℕ) → Pc
after_check ver state =
    if has_detached (inner_flags state)
    then (if inner_cnt state == 0 then claiming ver else ready)
    else ready

-- One atomic operation of one thread. Calls keep to the rules of README.md: one version is held
-- at a time, and a compare-exchange expects NULL or the version that the caller still holds.
pub data Move (m : Mem) (t : Thread) : Mem → Thread → Type 0 where
  make :
      (h : ℕ)
      → t.pc ≡ ready
      → t.fresh ≡ none
      → m.avail h ≡ true
      → h < handle_null
      → Move m t
          (record m { inner = update m.inner h 0; avail = update m.avail h false })
          (record t { fresh = some h })
  discard :
      (h : ℕ)
      → t.pc ≡ ready
      → t.fresh ≡ some h
      → Move m t (record m { avail = update m.avail h true }) (record t { fresh = none })
  acquire :
      (k : ℕ)
      → t.pc ≡ ready
      → t.held ≡ none
      → Move m t
          (record m { cb = update m.cb k (u64 (m.cb k + ref_count_inc)) })
          (record t { held = version_of (handle_of (m.cb k)) })
  release :
      (h : ℕ)
      → t.pc ≡ ready
      → t.held ≡ some h
      → Move m t
          (record m { inner = update m.inner h (u64 (m.inner h + inner_cnt_inc)) })
          (record t { held = none; pc = checking h (u64 (m.inner h + inner_cnt_inc)) })
  exchange :
      (k : ℕ) (new_ver : Option ℕ)
      → t.pc ≡ ready
      → (new_ver ≡ none) ⊎ (new_ver ≡ t.fresh)
      → Move m t
          (record m { cb = update m.cb k (handle_or_null new_ver) })
          (record t {
            fresh = elim new_ver [ none ↦ t.fresh | some _ ↦ none ];
            pc = after_swap (handle_of (m.cb k)) (refs_of (m.cb k));
          })
  compare :
      (k : ℕ) (expected new_ver : Option ℕ)
      → t.pc ≡ ready
      → (expected ≡ none) ⊎ (expected ≡ t.held)
      → (new_ver ≡ none) ⊎ (new_ver ≡ t.fresh)
      → Move m t m
          (record t { pc = recheck k (handle_or_null expected) (handle_or_null new_ver) (m.cb k) })
  cas_win :
      (k exp_handle new_handle current_val : ℕ)
      → t.pc ≡ comparing k exp_handle new_handle current_val
      → m.cb k ≡ current_val
      → Move m t
          (record m { cb = update m.cb k new_handle })
          (record t {
            fresh = if new_handle == handle_null then t.fresh else none;
            pc = after_swap exp_handle (refs_of current_val);
          })
  -- the word has changed, or the weak compare-exchange fails for no reason
  cas_lose :
      (k exp_handle new_handle current_val : ℕ)
      → t.pc ≡ comparing k exp_handle new_handle current_val
      → Move m t m (record t { pc = recheck k exp_handle new_handle (m.cb k) })
  load_inner :
      (ver old_refs : ℕ)
      → t.pc ≡ swapped ver old_refs
      → Move m t m (record t { pc = adjusting ver old_refs (m.inner ver) })
  adjust_win :
      (ver old_refs cur : ℕ)
      → t.pc ≡ adjusting ver old_refs cur
      → m.inner ver ≡ cur
      → Move m t
          (record m { inner = update m.inner ver (detached_state cur old_refs) })
          (record t { pc = checking ver (detached_state cur old_refs) })
  adjust_lose :
      (ver old_refs cur : ℕ)
      → t.pc ≡ adjusting ver old_refs cur
      → Move m t m (record t { pc = adjusting ver old_refs (m.inner ver) })
  check :
      (ver state : ℕ)
      → t.pc ≡ checking ver state
      → Move m t m (record t { pc = after_check ver state })
  claim :
      (ver : ℕ)
      → t.pc ≡ claiming ver
      → Move m t
          (record m { inner = update m.inner ver (finalized_state (m.inner ver)) })
          (record t {
            pc = if has_finalized (inner_flags (m.inner ver)) then aborted else reclaiming ver;
          })
  -- the callback of the user, and `free_slot`
  reclaim :
      (ver : ℕ)
      → t.pc ≡ reclaiming ver
      → Move m t (record m { avail = update m.avail ver true }) (record t { pc = ready })

pub record System : Type 0 where
  pub mem : Mem
  pub thr : ℕ → Thread

-- Any of the `n` threads may move next.
pub data Step (n : ℕ) (s : System) : System → Type 0 where
  pick :
      (i : ℕ) {m : Mem} {t : Thread}
      → i < n
      → Move s.mem (s.thr i) m t
      → Step n s (record { mem = m; thr = update s.thr i t })

abbrev pub idle_thread : Thread
idle_thread = record { held = none; fresh = none; pc = ready }

-- A new gate, whose control blocks hold HANDLE_NULL, and a pool of which all is free.
abbrev pub init : System
init = record {
  mem = record { cb = λ _. handle_null; inner = λ _. 0; avail = λ _. true };
  thr = λ _. idle_thread;
}

pub data Reach (n : ℕ) : System → Type 0 where
  start : Reach n init
  later : {s t : System} → Reach n s → Step n s t → Reach n t
