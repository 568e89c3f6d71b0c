-- ===== src/Pool/Shared/Machine.antt =====
-- One arena of atomsnap.c as threads that push its slots back by `free_slot`, and its owner, which takes
-- the whole stack by the exchange of `alloc_slot` and then pops its private list by `pop_local`. One
-- atomic operation is one step.
use atomsnap.Common.{ℕ, ◌<◌, ◌≡◌, ◌≢◌, Bool, true, false, ◌==◌, if◌then◌else◌}
use atomsnap.Common.Family.{update}
use atomsnap.Word.Pair.{handle_null, handle_of, pushed_top}
use atomsnap.Word.Handle.{slot_idx, construct_handle}
use atomsnap.Pool.Memory.{Arena, zero_arena}
use atomsnap.Pool.Arenas.{setup_arena_stack}

-- Where a thread stands in `free_slot`, with `my_handle` and `old_top`.
pub data Pc : Type 0 where
  -- in no call
  ready : Pc
  -- before the first load of the top
  freeing : (slot my_handle : ℕ) → Pc
  -- in the loop, before the store of the link
  linking : (slot my_handle old_top : ℕ) → Pc
  -- before the weak compare-exchange
  swapping : (slot my_handle old_top : ℕ) → Pc

-- Where the owner stands in `alloc_slot`.
pub data OwnerPc : Type 0 where
  -- before the load of the top
  idle : OwnerPc
  -- after the load found a slot, before the exchange
  stealing : OwnerPc
  -- after the assertion failed
  failed : OwnerPc

-- `used` says which slots are allocated and not yet passed to `free_slot`.
pub record System : Type 0 where
  pub arena : Arena
  pub used : ℕ → Bool
  pub local_top : ℕ
  pub owner : OwnerPc
  pub thr : ℕ → Pc

abbrev pub link_at : Arena → ℕ → ℕ
link_at arena k = (arena.slots k).link

abbrev pub with_link : Arena → (k h : ℕ) → Arena
with_link arena k h = record arena {
  slots = update arena.slots k (record (arena.slots k) { link = h });
}

pub data Step (n id : ℕ) (s : System) : System → Type 0 where
  -- `my_handle = slot->self_handle`
  free :
      (i k : ℕ)
      → i < n
      → s.thr i ≡ ready
      → s.used k ≡ true
      → Step n id s (record s {
        used = update s.used k false;
        thr = update s.thr i (freeing k (link_at s.arena k));
      })
  load_top :
      (i k h : ℕ)
      → i < n
      → s.thr i ≡ freeing k h
      → Step n id s (record s { thr = update s.thr i (linking k h s.arena.top_handle) })
  store_link :
      (i k h old_top : ℕ)
      → i < n
      → s.thr i ≡ linking k h old_top
      → Step n id s (record s {
        arena = with_link s.arena k (handle_of old_top);
        thr = update s.thr i (swapping k h old_top);
      })
  swap_win :
      (i k h old_top : ℕ)
      → i < n
      → s.thr i ≡ swapping k h old_top
      → s.arena.top_handle ≡ old_top
      → Step n id s (record s {
        arena = record (s.arena) { top_handle = pushed_top old_top h };
        thr = update s.thr i ready;
      })
  -- the top has changed, or the weak compare-exchange fails for no reason
  swap_lose :
      (i k h old_top : ℕ)
      → i < n
      → s.thr i ≡ swapping k h old_top
      → Step n id s (record s { thr = update s.thr i (linking k h s.arena.top_handle) })
  -- the private list is empty, and the load finds another handle than the sentinel's
  look :
      s.owner ≡ idle
      → s.local_top ≡ handle_null
      → handle_of s.arena.top_handle ≢ construct_handle id 0
      → Step n id s (record s { owner = stealing })
  -- the exchange, the assertion and `ctx->local_top = batch_top`
  steal :
      s.owner ≡ stealing
      → Step n id s (record s {
        arena = record (s.arena) { top_handle = construct_handle id 0 };
        local_top = handle_of s.arena.top_handle;
        owner = if handle_of s.arena.top_handle == construct_handle id 0 then failed else idle;
      })
  -- `pop_local` at a slot
  pop :
      s.owner ≡ idle
      → s.local_top ≢ handle_null
      → slot_idx s.local_top ≢ 0
      → Step n id s (record s {
        arena = with_link s.arena (slot_idx s.local_top) s.local_top;
        local_top = link_at s.arena (slot_idx s.local_top);
        used = update s.used (slot_idx s.local_top) true;
      })
  -- `pop_local` at the sentinel
  drain :
      s.owner ≡ idle
      → s.local_top ≢ handle_null
      → slot_idx s.local_top ≡ 0
      → Step n id s (record s { local_top = handle_null })

-- A new arena: all slots are on the private list.
abbrev pub init : (id : ℕ) → System
init id = record {
  arena = (setup_arena_stack zero_arena id).0;
  used = λ _. false;
  local_top = (setup_arena_stack zero_arena id).1;
  owner = idle;
  thr = λ _. ready;
}

pub data Reach (n id : ℕ) : System → Type 0 where
  start : Reach n id (init id)
  later : {s t : System} → Reach n id s → Step n id s t → Reach n id t
