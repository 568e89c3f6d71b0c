-- ===== src/Pool/Slots.antt =====
-- Handles to slots, the local stack of a thread and the shared stack of an arena: `resolve_handle`,
-- `pop_local` and `free_slot` of atomsnap.c.
use atomsnap.Common.{ℕ, zero, suc, Option, none, some, ◌==◌, leb, if◌then◌else◌}
use atomsnap.Common.Outcome.{Outcome, ok, Cmd, pure, get, ◌>>=◌, ◌>>◌}
use atomsnap.Word.Pair.{handle_null, handle_of, pushed_top}
use atomsnap.Word.Handle.{max_arenas, arena_idx, slot_idx}
use atomsnap.Pool.Memory.{Context, Pool, deref, load_arena, store_arena, load_slot, store_slot}

-- The address of the arena and the index of the slot.
unfoldable pub resolve_handle : (ℕ → Option ℕ) → ℕ → Option (ℕ × ℕ)
resolve_handle table raw =
    if raw == handle_null
    then none
    else (if leb max_arenas (arena_idx raw)
        then none
        else elim (table (arena_idx raw)) [ none ↦ none | some a ↦ some (a, slot_idx raw) ])

-- A pointer that `resolve_handle` gave, followed: NULL faults.
abbrev pub follow : Option (ℕ × ℕ) → Cmd Pool (ℕ × ℕ)
follow none p = Outcome.fault
follow (some s) p = ok s p

unfoldable pub pop_local : Context → Cmd Pool (ℕ × Context)
unfolding resolve_handle load_slot store_slot
pop_local ctx =
    if ctx.local_top == handle_null
    then pure (handle_null, ctx)
    else (if slot_idx ctx.local_top == 0
        then pure (handle_null, record ctx { local_top = handle_null })
        else do
          p ← get
          slot ← follow (resolve_handle p.g_arena_table ctx.local_top)
          version ← load_slot slot
          store_slot slot (record version { link = ctx.local_top })
          pure (ctx.local_top, record ctx { local_top = version.link }))

-- The loop of `free_slot`: link the slot to the top that was read, and swap the top. It is left at
-- the first success, here after `spurious` failures.
unfoldable pub push_loop : (spurious a my_handle old_top : ℕ) → ℕ × ℕ → Cmd Pool (Unit {0})
unfolding load_slot store_slot
push_loop zero a my_handle old_top slot = do
  version ← load_slot slot
  store_slot slot (record version { link = handle_of old_top })
  arena ← load_arena a
  store_arena a (record arena { top_handle = pushed_top old_top my_handle })
push_loop (suc n) a my_handle old_top slot = do
  version ← load_slot slot
  store_slot slot (record version { link = handle_of old_top })
  arena ← load_arena a
  push_loop n a my_handle arena.top_handle slot

unfoldable pub free_slot : (spurious : ℕ) → ℕ × ℕ → Cmd Pool (Unit {0})
unfolding push_loop load_slot
free_slot spurious slot = do
  version ← load_slot slot
  p ← get
  a ← deref (p.g_arena_table (arena_idx version.link))
  arena ← load_arena a
  push_loop spurious a version.link arena.top_handle slot
