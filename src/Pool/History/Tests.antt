-- ===== src/Pool/History/Tests.antt =====
-- The first allocation of a thread, and the free of what it gave.
use atomsnap.Common.{ℕ, ◌≡◌, ◌≢◌, ◌⊎◌, inl, inr, refl, true, false, none, some, [], arith}
use atomsnap.Common.Outcome.{ok}
use atomsnap.Word.Pair.{handle_null}
use atomsnap.Pool.Memory.{Pool, Context, Host, zero_arena}
use atomsnap.Pool.Slots.{free_slot, resolve_handle}
use atomsnap.Pool.Alloc.{alloc_slot}
use atomsnap.Pool.Stack.Defs.{has}
use atomsnap.Pool.Owned.Init.{Refused}
use atomsnap.Pool.History.Defs.{System, with_given, IsFair, alloc, Unlike}
use atomsnap.Pool.History.Safety.{
  Reach, start, later, alloc_slot_refines, free_slot_returns, held_apart,
}
use atomsnap.Api.Threads.{new_context}

-- The system has memory at the address 100.
abbrev host : Host
host = record {
  aligned_alloc = some 100;
  realloc_arenas = true;
  realloc_indices = true;
  calloc = none;
  calloc_blocks = true;
  setspecific = true;
  key_create = true;
  madvise = λ _. zero_arena;
  spurious = 0;
}

abbrev pool : Pool
pool = record { arenas = λ _. zero_arena; g_arena_table = λ _. none; g_global_arena_cnt = 0 }

fair : IsFair host pool
fair = record { new = λ a id memory. ground arith; both = refl }

abbrev empty : System
empty = record { ctx = new_context 0; pool = pool; held = [] }

outcome :
    (h : ℕ) × (ctx' : Context) × (p' : Pool) × (alloc_slot host (new_context 0) pool
      ≡ ok (h, ctx') p')
    × (((h ≡ handle_null) × Refused host pool) ⊎ ((h ≢ handle_null) × (has h [] ≡ false)))
outcome = alloc_slot_refines {tid = 0} {p = pool} {s = empty} host start fair

alloc_slot_refines_example :
    (h : ℕ) × (ctx' : Context) × (p' : Pool) × (alloc_slot host (new_context 0) pool
      ≡ ok (h, ctx') p')
    × (((h ≡ handle_null) × Refused host pool) ⊎ ((h ≢ handle_null) × (has h [] ≡ false)))
alloc_slot_refines_example = alloc_slot_refines {tid = 0} {p = pool} {s = empty} host start fair

not-Refused : Refused host pool → ⊥
not-Refused refused = ground arith

record First : Type 0 where
  h : ℕ
  ctx' : Context
  p' : Pool
  runs : alloc_slot host (new_context 0) pool ≡ ok (h, ctx') p'
  real : h ≢ handle_null

first : First
first = elim outcome.4 [
  | inl refused ↦ absurd (not-Refused refused.1)
  | inr given ↦ record {
    h = outcome.0;
    ctx' = outcome.1;
    p' = outcome.2;
    runs = outcome.3;
    real = given.0;
  }
]

-- The handle of the first allocation is held.
abbrev one_held : System
one_held = record { ctx = first.ctx'; pool = first.p'; held = with_given first.h [] }

one_held-Reach : Reach 0 pool one_held
one_held-Reach = later start (alloc host first.h first.ctx' first.p' fair first.runs)

there : has first.h one_held.held ≡ true
there = ground (arith, first.real)

free_slot_returns_example :
    (slot : ℕ × ℕ) × (p' : Pool) × (resolve_handle one_held.pool.g_arena_table first.h ≡ some slot)
    × (free_slot 2 slot one_held.pool ≡ ok tt p')
free_slot_returns_example =
    free_slot_returns {tid = 0} {p = pool} {s = one_held} 2 first.h one_held-Reach there

resolved :
    (slot : ℕ × ℕ) × (p' : Pool) × (resolve_handle one_held.pool.g_arena_table first.h ≡ some slot)
    × (free_slot 2 slot one_held.pool ≡ ok tt p')
resolved = free_slot_returns {tid = 0} {p = pool} {s = one_held} 2 first.h one_held-Reach there

held_apart_example : Unlike one_held.held × (first.h ≡ first.h)
held_apart_example =
    held_apart {tid = 0} {p = pool} {s = one_held} first.h first.h resolved.0 one_held-Reach there
      there resolved.2 resolved.2
