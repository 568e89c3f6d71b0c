-- ===== src/Pool/Stack/Pop.antt =====
-- `pop_local` takes the top of the thread's own free list.
use atomsnap.Common.{ℕ, ◌<◌, ◌≡◌, Option, some, List, [], ◌∷◌, arith}
use atomsnap.Common.Family.{update}
use atomsnap.Common.Outcome.{ok}
use atomsnap.Word.Pair.{handle_null}
use atomsnap.Word.Handle.{max_arenas, slots_per_arena, construct_handle, construct_handle_fields}
use atomsnap.Pool.Memory.{Context, Pool}
use atomsnap.Pool.Slots.{resolve_handle, pop_local}
use atomsnap.Pool.Stack.Defs.{Chain, Chain-update}

-- A handle that `construct_handle` made resolves to its slot, if its arena is in the table.
pub resolve_handle-construct :
    (table : ℕ → Option ℕ) (id i a : ℕ)
    → id < max_arenas
    → i < slots_per_arena
    → table id ≡ some a
    → resolve_handle table (construct_handle id i) ≡ some (a, i)
unfolding resolve_handle
resolve_handle-construct table id i a small fits e =
    ground (arith, construct_handle_fields id i small fits)

-- What `pop_local` does to the slot `i` of the arena at `a`.
abbrev pub popped : Pool → (a i h : ℕ) → Pool
popped p a i h = record p {
  arenas = update p.arenas a (record (p.arenas a) {
    slots = update (p.arenas a).slots i (record ((p.arenas a).slots i) { link = h });
  });
}

module _ (ctx : Context) (p : Pool) (id a : ℕ) (small : id < max_arenas)
    (at : p.g_arena_table id ≡ some a) where
  -- The top slot of a free list is returned, with its own handle in it; the rest of the list stays.
  pub pop_local-cons :
      (i : ℕ) (xs : List ℕ)
      → Chain id (p.arenas a).slots ctx.local_top (i ∷ xs)
      → (pop_local ctx p
          ≡ ok
              (construct_handle id i, record ctx { local_top = ((p.arenas a).slots i).link })
              (popped p a i (construct_handle id i)))
        × Chain id
            ((popped p a i (construct_handle id i)).arenas a).slots
            ((p.arenas a).slots i).link
            xs
  unfolding pop_local
  pop_local-cons i xs c = (
    ground (arith, construct_handle_fields id i small c.2),
    (let same : (popped p a i (construct_handle id i)).arenas a ≡ record (p.arenas a) {
      slots =
          update (p.arenas a).slots i
            (record ((p.arenas a).slots i) { link = construct_handle id i });
    } =
          ground arith in
        rw same (Chain-update id (p.arenas a).slots ((p.arenas a).slots i).link xs i _ c.3 c.4)),
  )

  -- An empty free list gives HANDLE_NULL, and is forgotten.
  pub pop_local-nil :
      Chain id (p.arenas a).slots ctx.local_top []
      → pop_local ctx p ≡ ok (handle_null, record ctx { local_top = handle_null }) p
  unfolding pop_local
  pop_local-nil c = ground (arith, construct_handle_fields id 0 small (omega arith))
