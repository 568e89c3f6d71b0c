-- ===== src/Pool/Reclaim.antt =====
-- `reclaim_last_arena_if_empty` gives back an arena only if no slot of it is in use.
use atomsnap.Common.{
  ℕ, suc, ◌-◌, ◌<◌, ◌≡◌, ◌⊎◌, inl, inr, true, false, Option, some, List, ◌∷◌, length, arith, ◌==◌,
  Bool-cases,
}
use atomsnap.Common.Family.{update}
use atomsnap.Common.Outcome.{ok}
use atomsnap.Word.Pair.{handle_of, depth_of}
use atomsnap.Word.Handle.{slots_per_arena}
use atomsnap.Pool.Memory.{entry, Arena, live, Context, Pool, Host}
use atomsnap.Pool.Arenas.{reclaim_last_arena_if_empty}
use atomsnap.Pool.Stack.Defs.{has, IsStack}
use atomsnap.Pool.Stack.Bound.{length-Distinct, Chain-Distinct}

-- A shared stack as deep as the arena has slots has every one of them.
pub full-has :
    (id i : ℕ) (arena : Arena) (xs : List ℕ)
    → IsStack id arena xs
    → depth_of arena.top_handle ≡ slots_per_arena - 1
    → 0 < i
    → i < slots_per_arena
    → has i xs ≡ true
full-has id i arena xs stack full pos fits = elim (Bool-cases (has i xs)) [
  | inl on ↦ on
  | inr off ↦ absurd (
      omega (
        arith,
        stack.depth,
        length-Distinct 3275 (i ∷ xs) (
          pos,
          omega arith,
          off,
          Chain-Distinct id arena.slots (handle_of arena.top_handle) xs stack.chain,
        ),
      ))
]

-- The function never faults on a context whose last active arena has a shared stack `xs`. It says
-- that it gave the arena back exactly if every usable slot is on that stack; then one arena fewer is
-- active and only that arena's memory is changed. Else nothing is.
pub reclaim_lem :
    (host : Host) (ctx : Context) (p : Pool) (size : ℕ) (f : ℕ → Option ℕ) (k a id : ℕ)
    (xs : List ℕ)
    → ctx.active_arena_count ≡ suc k
    → ctx.owned_arenas ≡ live size f
    → k < size
    → f k ≡ some a
    → IsStack id (p.arenas a) xs
    → (((i : ℕ) → 0 < i → i < slots_per_arena → has i xs ≡ true)
        × (reclaim_last_arena_if_empty host ctx p
            ≡ ok
                (true, record ctx { active_arena_count = k })
                (record p { arenas = update p.arenas a (host.madvise (p.arenas a)) })))
      ⊎ ((length xs < slots_per_arena - 1)
          × (reclaim_last_arena_if_empty host ctx p ≡ ok (false, ctx) p))
unfolding reclaim_last_arena_if_empty entry
reclaim_lem host ctx p size f k a id xs some_active owned inside last stack =
    elim (Bool-cases (depth_of (p.arenas a).top_handle == slots_per_arena - 1)) [
      | inl full ↦ inl (λ i. full-has id i (p.arenas a) xs stack (ground arith), ground arith)
      | inr partial ↦ inr (
        ground (
          arith,
          stack.depth,
          length-Distinct 3275 xs (
              Chain-Distinct id (p.arenas a).slots (handle_of (p.arenas a).top_handle) xs
                stack.chain),
        ),
        ground arith,
      )
    ]
