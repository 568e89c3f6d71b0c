-- ===== src/Pool/Owned/Fresh.antt =====
-- New memory: what is owned stays owned, and one arena more can be.
use atomsnap.Common.{ℕ, ◌+◌, ◌≤◌, ◌<◌, ◌≡◌, ◌≢◌, inl, inr, ◌∙◌, Option, some, arith}
use atomsnap.Common.Family.{update}
use atomsnap.Pool.Memory.{Pool, Context, zero_arena}
use atomsnap.Pool.Owned.Defs.{View, IsLocal, IsTable, IsSplit, IsOwned}

-- A pool that keeps the arenas at `addr` below `n`.
pub record Keeps (p p' : Pool) (n : ℕ) (addr id : ℕ → ℕ) : Type 0 where
  pub memory : (k : ℕ) → k < n → p'.arenas (addr k) ≡ p.arenas (addr k)
  pub named : (k : ℕ) → k < n → p'.g_arena_table (id k) ≡ p.g_arena_table (id k)
  pub count : p.g_global_arena_cnt ≤ p'.g_global_arena_cnt

IsTable-Keeps :
    (f : ℕ → Option ℕ) (g : ℕ → ℕ) (cap : ℕ) (p p' : Pool) (n : ℕ) (addr id : ℕ → ℕ)
    → Keeps p p' n addr id
    → IsTable f g cap p n addr id
    → IsTable f g cap p' n addr id
IsTable-Keeps f g cap p p' n addr id keeps t = record {
  room = t.room;
  addr_at = t.addr_at;
  id_at = t.id_at;
  id_small = t.id_small;
  id_old = λ k lt. omega (arith, keeps.count, t.id_old k lt);
  table_at = λ k lt. keeps.named k lt ∙ t.table_at k lt;
  empty_at = t.empty_at;
  distinct = t.distinct;
}

IsLocal-Keeps :
    (top active : ℕ) (p p' : Pool) (v : View)
    → Keeps p p' v.n v.addr v.id
    → IsLocal top active p v
    → IsLocal top active p' v
IsLocal-Keeps top active p p' v keeps (inl e) = inl e
IsLocal-Keeps top active p p' v keeps (inr (lt, chain, listed)) =
    inr (lt, rw (keeps.memory v.at lt) chain, listed)

pub IsSplit-Keeps :
    (top active : ℕ) (p p' : Pool) (v : View)
    → Keeps p p' v.n v.addr v.id
    → IsSplit top active p v
    → IsSplit top active p' v
IsSplit-Keeps top active p p' v keeps s = record {
  within = s.within;
  stacks = λ k lt. rw (keeps.memory k (omega (arith, lt, s.within))) (s.stacks k lt);
  local = IsLocal-Keeps top active p p' v keeps s.local;
  one_place = s.one_place;
  idle = s.idle;
  used_at = s.used_at;
  used_link = λ k i on. ground (arith, s.used_link k i on, s.idle k i, s.within, keeps.memory k);
}

pub IsOwned-Keeps :
    (ctx : Context) (p p' : Pool) (v : View)
    → Keeps p p' v.n v.addr v.id
    → IsOwned ctx p v
    → IsOwned ctx p' v
IsOwned-Keeps ctx p p' v keeps o = record {
  f = o.f;
  g = o.g;
  owned = o.owned;
  indices = o.indices;
  table = IsTable-Keeps o.f o.g ctx.vector_capacity p p' v.n v.addr v.id keeps o.table;
  split = IsSplit-Keeps ctx.local_top ctx.active_arena_count p p' v keeps o.split;
}

-- The pool with a cleared arena at `a` under the next index.
abbrev pub with_fresh : Pool → (a : ℕ) → Pool
with_fresh p a = record {
  arenas = update p.arenas a zero_arena;
  g_arena_table = update p.g_arena_table p.g_global_arena_cnt (some a);
  g_global_arena_cnt = p.g_global_arena_cnt + 1;
}

pub with_fresh-Keeps :
    (f : ℕ → Option ℕ) (g : ℕ → ℕ) (cap : ℕ) (p : Pool) (n : ℕ) (addr id : ℕ → ℕ) (a : ℕ)
    → IsTable f g cap p n addr id
    → ((k : ℕ) → k < n → addr k ≢ a)
    → Keeps p (with_fresh p a) n addr id
with_fresh-Keeps f g cap p n addr id a t unlike = record {
  memory = λ k lt. ground (arith, unlike k lt);
  named = λ k lt. ground (arith, t.id_old k lt);
  count = omega arith;
}

-- The view with one place more.
abbrev pub more_view : View → (a id : ℕ) → View
more_view v a id = record v { n = v.n + 1; addr = update v.addr v.n a; id = update v.id v.n id }
