-- ===== src/Pool/Arenas.antt =====
-- The arenas of a thread in atomsnap.c: `reclaim_last_arena_if_empty`, `ensure_vector_capacity`,
-- `setup_arena_stack` and `init_arena`.
use atomsnap.Common.{
  ℕ, zero, suc, ◌+◌, ◌-◌, ◌*◌, Bool, true, false, Option, none, some, ◌==◌, leb, ltb, ◌&&◌,
  if◌then◌else◌,
}
use atomsnap.Common.Family.{update}
use atomsnap.Common.Outcome.{Cmd, pure, get, put, ◌>>=◌, ◌>>◌}
use atomsnap.Word.Pair.{u32, handle_null, depth_of}
use atomsnap.Word.Handle.{max_arenas, slots_per_arena, construct_handle}
use atomsnap.Pool.Memory.{
  Version, Arena, Block, live, dangling, Context, Pool, Host, zero_arena, entry, store_entry, deref,
  load_arena, store_arena,
}

unfoldable pub reclaim_last_arena_if_empty : Host → Context → Cmd Pool (Bool × Context)
reclaim_last_arena_if_empty host ctx = if ctx.active_arena_count == 0 then pure (false, ctx) else do
  owned ← entry ctx.owned_arenas (ctx.active_arena_count - 1)
  a ← deref owned
  arena ← load_arena a
  if depth_of arena.top_handle == slots_per_arena - 1
      then (do
        store_arena a (host.madvise arena)
        pure (true, record ctx { active_arena_count = ctx.active_arena_count - 1 }))
      else pure (false, ctx)

-- After `realloc`: the entries from the old capacity on are set to NULL.
unfoldable pub grown : Block (Option ℕ) → (cap new_cap : ℕ) → Block (Option ℕ)
grown (live size f) cap new_cap = live new_cap (λ k. if ltb k cap then f k else none)
grown dangling cap new_cap = dangling

unfoldable pub resized : Block ℕ → (new_cap : ℕ) → Block ℕ
resized (live size f) new_cap = live new_cap f
resized dangling new_cap = dangling

-- `false` is -1. A `realloc` that succeeds frees the old block, also when the other one fails.
unfoldable pub ensure_vector_capacity : Host → Context → Bool × Context
ensure_vector_capacity host ctx =
    let new_cap = if ctx.vector_capacity == 0 then 4 else ctx.vector_capacity * 2 in
    if ltb ctx.active_arena_count ctx.vector_capacity
    then (true, ctx)
    else (if host.realloc_arenas && host.realloc_indices
        then (
          true,
          record ctx {
            owned_arenas = grown ctx.owned_arenas ctx.vector_capacity new_cap;
            arena_indices = resized ctx.arena_indices new_cap;
            vector_capacity = new_cap;
          },
        )
        else (
          false,
          record ctx {
            owned_arenas = if host.realloc_arenas then dangling else ctx.owned_arenas;
            arena_indices = if host.realloc_indices then dangling else ctx.arena_indices;
          },
        ))

-- The loop over slots `i`, `i + 1`, …, for `rounds` rounds: each is linked to the one before it.
unfoldable pub link_slots :
    (rounds i arena_id next_in_stack : ℕ) → (ℕ → Version) → (ℕ → Version) × ℕ
link_slots zero i arena_id next_in_stack slots = (slots, next_in_stack)
link_slots (suc rounds) i arena_id next_in_stack slots =
    link_slots rounds (i + 1) arena_id (construct_handle arena_id i)
      (update slots i (record (slots i) { link = next_in_stack }))

unfoldable pub setup_arena_stack : Arena → (arena_id : ℕ) → Arena × ℕ
setup_arena_stack arena arena_id =
    let sentinel = construct_handle arena_id 0 in
    let (slots, top) =
      link_slots (slots_per_arena - 1) 1 arena_id sentinel
        (update arena.slots 0 (record (arena.slots 0) { link = handle_null })) in
    (record { top_handle = sentinel; slots = slots }, top)

-- The tail that both branches of `init_arena` share.
unfoldable pub start_arena : Context → (a arena_id : ℕ) → Cmd Pool (Bool × Context)
start_arena ctx a arena_id = do
  arena ← load_arena a
  let (fresh, top) = setup_arena_stack arena arena_id
  store_arena a fresh
  pure (true, record ctx { active_arena_count = ctx.active_arena_count + 1; local_top = top })

-- The end of the branch of `init_arena` that takes a new arena: its entries in the vectors.
unfoldable pub enlist : Context → (a arena_id : ℕ) → Cmd Pool (Bool × Context)
enlist ctx a arena_id = do
  owned ← store_entry ctx.owned_arenas ctx.active_arena_count (some a)
  indices ← store_entry ctx.arena_indices ctx.active_arena_count (u32 arena_id)
  start_arena (record ctx { owned_arenas = owned; arena_indices = indices }) a arena_id

-- After `ensure_vector_capacity`: -1, or the entries.
unfoldable pub enlist_if : (a arena_id : ℕ) → Bool × Context → Cmd Pool (Bool × Context)
enlist_if a arena_id (false, ctx) = pure (false, ctx)
enlist_if a arena_id (true, ctx) = enlist ctx a arena_id

-- After `aligned_alloc`: -1 for NULL, or the cleared memory in the table, and the vectors.
unfoldable pub register : Host → Context → (arena_id : ℕ) → Option ℕ → Cmd Pool (Bool × Context)
register host ctx arena_id none = pure (false, ctx)
register host ctx arena_id (some a) = do
  store_arena a zero_arena
  p ← get
  put (record p { g_arena_table = update p.g_arena_table arena_id (some a) })
  enlist_if a arena_id (ensure_vector_capacity host ctx)

-- The branch of `init_arena` that takes a new arena; `false` is -1.
unfoldable pub new_arena : Host → Context → Cmd Pool (Bool × Context)
new_arena host ctx = do
  p ← get
  let arena_id = p.g_global_arena_cnt
  put (record p { g_global_arena_cnt = arena_id + 1 })
  if leb max_arenas arena_id
      then pure (false, ctx)
      else register host ctx arena_id host.aligned_alloc

-- The arena that stands behind the active ones in the vector, if it was reclaimed before.
unfoldable pub reuse_or_new : Host → Context → Option ℕ → Cmd Pool (Bool × Context)
reuse_or_new host ctx none = new_arena host ctx
reuse_or_new host ctx (some a) = do
  arena_id ← entry ctx.arena_indices ctx.active_arena_count
  start_arena ctx a arena_id

unfoldable pub init_arena : Host → Context → Cmd Pool (Bool × Context)
init_arena host ctx =
    if ltb ctx.active_arena_count ctx.vector_capacity
    then (do owned ← entry ctx.owned_arenas ctx.active_arena_count; reuse_or_new host ctx owned)
    else new_arena host ctx
