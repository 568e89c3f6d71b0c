-- ===== src/Pool/Tests.antt =====
-- The theorems of the allocator on small pools.
use atomsnap.Common.{
  ℕ_discrete, ℕ, ◌-◌, ◌<◌, ◌≡◌, ◌≢◌, ◌⊎◌, refl, true, false, none, some, [], ◌∷◌, arith,
}
use atomsnap.Common.Family.{update}
use atomsnap.Common.Outcome.{ok}
use atomsnap.Word.Pair.{handle_null}
use atomsnap.Word.Handle.{slots_per_arena, construct_handle}
use atomsnap.Pool.Memory.{Arena, Pool, Context, Host, live, zero_version, zero_arena}
use atomsnap.Pool.Slots.{free_slot}
use atomsnap.Pool.Arenas.{reclaim_last_arena_if_empty}
use atomsnap.Pool.Stack.Defs.{has, Chain, IsStack}
use atomsnap.Pool.Stack.Push.{pushed, free_slot-IsStack}
use atomsnap.Pool.Reclaim.{reclaim_lem}

-- Arena 3 at the address 100: an empty shared stack, slot 5 in use, and a private list of slot 6.
abbrev arena : Arena
unfolding construct_handle
arena = record {
  top_handle = construct_handle 3 0;
  slots =
      update (update (λ _. zero_version) 5 (record zero_version { link = construct_handle 3 5 })) 6
        (record zero_version { link = construct_handle 3 0 });
}

abbrev pool : Pool
pool = record { arenas = λ _. arena; g_arena_table = λ _. some 100; g_global_arena_cnt = 4 }

abbrev context_at : ℕ → Context
context_at top = record {
  thread_id = 0;
  owned_arenas = live 8 (λ _. some 100);
  arena_indices = live 8 (λ _. 3);
  active_arena_count = 1;
  vector_capacity = 8;
  local_top = top;
  alloc_count = 0;
}

stack : IsStack 3 arena []
unfolding construct_handle
stack = record { chain = omega arith; depth = omega arith }

private_list : Chain 3 arena.slots (construct_handle 3 6) (6 ∷ [])
unfolding construct_handle arena ℕ_discrete
private_list = (refl, omega arith, omega arith, refl, refl)

free_slot-IsStack_example :
    (free_slot 2 (100, 5) pool ≡ ok tt (pushed pool 100 5 3))
    × IsStack 3 ((pushed pool 100 5 3).arenas 100) (5 ∷ [])
    × ((b : ℕ) → b ≢ 100 → (pushed pool 100 5 3).arenas b ≡ arena)
unfolding construct_handle arena ℕ_discrete
free_slot-IsStack_example =
    free_slot-IsStack 2 100 5 3 pool [] (omega arith) refl (omega arith) (omega arith) refl refl
      stack

abbrev host : Host
host = record {
  aligned_alloc = none;
  realloc_arenas = true;
  realloc_indices = true;
  calloc = none;
  calloc_blocks = true;
  setspecific = true;
  key_create = true;
  madvise = λ _. zero_arena;
  spurious = 0;
}

reclaim_lem_example :
    (((i : ℕ) → 0 < i → i < slots_per_arena → has i [] ≡ true)
      × (reclaim_last_arena_if_empty host (context_at handle_null) pool
          ≡ ok
              (true, record (context_at handle_null) { active_arena_count = 0 })
              (record pool { arenas = update pool.arenas 100 zero_arena })))
    ⊎ ((0 < slots_per_arena - 1)
        × (reclaim_last_arena_if_empty host (context_at handle_null) pool
            ≡ ok (false, context_at handle_null) pool))
reclaim_lem_example =
    reclaim_lem host (context_at handle_null) pool 8 (λ _. some 100) 0 100 3 [] refl refl
      (omega arith) refl stack
