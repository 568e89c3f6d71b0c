-- ===== src/Pool/Alloc.antt =====
-- `alloc_slot` of atomsnap.c: the local stack, then the shared stacks of the active arenas, then a
-- new arena.
use atomsnap.Common.{ℕ, zero, suc, ◌+◌, ◌%◌, Option, none, some, ◌==◌, not, if◌then◌else◌}
use atomsnap.Common.Outcome.{Cmd, pure, ◌>>=◌, ◌>>◌, assert}
use atomsnap.Word.Pair.{u64, handle_null, handle_of}
use atomsnap.Word.Handle.{slots_per_arena, construct_handle}
use atomsnap.Pool.Memory.{Context, Pool, Host, entry, deref, load_arena, store_arena}
use atomsnap.Pool.Slots.{pop_local}
use atomsnap.Pool.Arenas.{reclaim_last_arena_if_empty, init_arena}

-- The body of the loop at an arena whose shared stack is not empty.
unfoldable pub steal : Context → (a sentinel : ℕ) → Cmd Pool (ℕ × Context)
steal ctx a sentinel = do
  arena ← load_arena a
  let batch_top = arena.top_handle
  store_arena a (record arena { top_handle = sentinel })
  assert (not (handle_of batch_top == sentinel))
  pop_local (record ctx { local_top = handle_of batch_top })

-- The loop over the active arenas from `i` on, for `rounds` rounds; `none` if all are empty.
unfoldable pub steal_loop : (rounds i : ℕ) → Context → Cmd Pool (Option (ℕ × Context))
steal_loop zero i ctx = pure none
steal_loop (suc rounds) i ctx = do
  owned ← entry ctx.owned_arenas i
  a ← deref owned
  arena_id ← entry ctx.arena_indices i
  arena ← load_arena a
  let rest = steal_loop rounds (i + 1) ctx
  if handle_of arena.top_handle == construct_handle arena_id 0
      then rest
      else (do got ← steal ctx a (construct_handle arena_id 0); pure (some got))

-- Step 3 of `alloc_slot`, after a search of the active arenas.
unfoldable pub steal_or_init : Host → Context → Option (ℕ × Context) → Cmd Pool (ℕ × Context)
steal_or_init host ctx (some got) = pure got
steal_or_init host ctx none = do
  (done, ctx') ← init_arena host ctx
  if done then pop_local ctx' else pure (handle_null, ctx')

-- Steps 1 to 3.
unfoldable pub take_slot : Host → Context → Cmd Pool (ℕ × Context)
take_slot host ctx = do
  (handle, ctx') ← pop_local ctx
  if handle == handle_null
      then (do found ← steal_loop ctx'.active_arena_count 0 ctx'; steal_or_init host ctx' found)
      else pure (handle, ctx')

unfoldable pub alloc_slot : Host → Context → Cmd Pool (ℕ × Context)
alloc_slot host ctx =
    let counted = record ctx { alloc_count = u64 (ctx.alloc_count + 1) } in
    if counted.alloc_count % slots_per_arena == 0
    then (do (_, ctx1) ← reclaim_last_arena_if_empty host counted; take_slot host ctx1)
    else take_slot host counted
