-- ===== src/Pool/Owned/Frame.antt =====
-- Changes of one arena and what they leave of the others.
use atomsnap.Common.{ℕ, ◌≤◌, ◌<◌, ◌≡◌, ◌≢◌, sym, subst, ℕ_discrete, false, Option, List, arith}
use atomsnap.Common.Family.{update}
use atomsnap.Pool.Memory.{Version, Arena, Pool}
use atomsnap.Pool.Stack.Defs.{has, Chain-update, IsStack}
use atomsnap.Pool.Owned.Defs.{IsTable}

-- A pool in which the arena at `a` is another.
abbrev pub with_arena : Pool → (a : ℕ) → Arena → Pool
with_arena p a arena = record p { arenas = update p.arenas a arena }

pub with_arena_self : (p : Pool) (a : ℕ) (arena : Arena) → (with_arena p a arena).arenas a ≡ arena
with_arena_self p a arena = ground arith

pub with_arena-ne :
    (p : Pool) (a b : ℕ) (arena : Arena) → b ≢ a → (with_arena p a arena).arenas b ≡ p.arenas b
with_arena-ne p a b arena ne = ground arith

-- A shared stack does not notice a change of a slot that is not on it.
pub IsStack-slot :
    (id : ℕ) (arena : Arena) (xs : List ℕ) (i : ℕ) (version : Version)
    → has i xs ≡ false
    → IsStack id arena xs
    → IsStack id (record arena { slots = update arena.slots i version }) xs
IsStack-slot id arena xs i version out stack = record {
  chain = Chain-update id arena.slots _ xs i version out stack.chain;
  depth = stack.depth;
}

-- The tables name addresses, and do not notice what is there.
pub IsTable-memory :
    (f : ℕ → Option ℕ) (g : ℕ → ℕ) (cap : ℕ) (p p' : Pool) (n : ℕ) (addr id : ℕ → ℕ)
    → p'.g_arena_table ≡ p.g_arena_table
    → p'.g_global_arena_cnt ≡ p.g_global_arena_cnt
    → IsTable f g cap p n addr id
    → IsTable f g cap p' n addr id
IsTable-memory f g cap p p' n addr id table cnt t = record {
  room = t.room;
  addr_at = t.addr_at;
  id_at = t.id_at;
  id_small = t.id_small;
  id_old = λ k lt. rw cnt (t.id_old k lt);
  table_at = λ k lt. rw table (t.table_at k lt);
  empty_at = t.empty_at;
  distinct = t.distinct;
}

-- When the arena at place `k0` is replaced, the stacks of the other active arenas stay.
module _ (p : Pool) (addr id : ℕ → ℕ) (n active' k0 : ℕ) (arena : Arena)
    (shared shared' : ℕ → List ℕ) (distinct : (j k : ℕ) → j < n → k < n → addr j ≡ addr k → j ≡ k)
    (inside : k0 < n) (within : active' ≤ n)
    (others : (k : ℕ) → k < active' → k0 ≢ k → IsStack (id k) (p.arenas (addr k)) (shared k))
    (same : (k : ℕ) → k0 ≢ k → shared' k ≡ shared k)
    (own : k0 < active' → IsStack (id k0) arena (shared' k0)) where
  pub stacks-replace :
      (k : ℕ)
      → k < active'
      → IsStack (id k) ((with_arena p (addr k0) arena).arenas (addr k)) (shared' k)
  stacks-replace k lt = elim (ℕ_discrete k0 k) [
    | yes e ↦
        subst (λ j. IsStack (id j) ((with_arena p (addr k0) arena).arenas (addr j)) (shared' j)) e
          (rw (with_arena_self p (addr k0) arena) (own (omega (arith, e, lt))))
    | no ne ↦
        let apart : addr k ≢ addr k0 =
          (λ e. ne (distinct k0 k inside (omega (arith, lt, within)) (sym e))) in
        rw (with_arena-ne p (addr k0) (addr k) arena apart, same k ne) (others k lt ne)
  ]
