-- ===== src/Pool/Owned/Enlist.antt =====
-- `ensure_vector_capacity`, and the new place that `enlist` fills.
use atomsnap.Common.{
  ℕ, ◌+◌, ◌*◌, ◌<◌, ◌≡◌, ◌≢◌, ◌⊎◌, inl, inr, refl, sym, ap, ◌∙◌, true, false, Option, none, some,
  [], arith, ◌==◌, ltb, if◌then◌else◌, Bool-cases,
}
use atomsnap.Common.Family.{update}
use atomsnap.Word.Pair.{u32, handle_null}
use atomsnap.Word.Handle.{max_arenas}
use atomsnap.Pool.Memory.{Pool, Context, Host, live}
use atomsnap.Pool.Arenas.{ensure_vector_capacity, grown, resized}
use atomsnap.Pool.Owned.Defs.{View, IsTable, IsSplit}
use atomsnap.Pool.Owned.Fresh.{Keeps, with_fresh, with_fresh-Keeps, more_view, IsSplit-Keeps}

-- The vectors have room for one place more.
pub record HasRoom (host : Host) (ctx : Context) (g : ℕ → ℕ) (p : Pool) (n : ℕ) (addr id : ℕ → ℕ)
    : Type 0 where
  pub f' : ℕ → Option ℕ
  pub cap' : ℕ
  pub runs : ensure_vector_capacity host ctx ≡ (
    true,
    record ctx { owned_arenas = live cap' f'; arena_indices = live cap' g; vector_capacity = cap' },
  )
  pub table' : IsTable f' g cap' p n addr id
  pub free_place : n < cap'

module _ (host : Host) (ctx : Context) (f : ℕ → Option ℕ) (g : ℕ → ℕ) (p : Pool) (n : ℕ)
    (addr id : ℕ → ℕ) (owned : ctx.owned_arenas ≡ live ctx.vector_capacity f)
    (indices : ctx.arena_indices ≡ live ctx.vector_capacity g)
    (t : IsTable f g ctx.vector_capacity p n addr id) (last : ctx.active_arena_count ≡ n) where
  abbrev doubled : ℕ
  doubled = if ctx.vector_capacity == 0 then 4 else ctx.vector_capacity * 2

  abbrev longer : ℕ → Option ℕ
  longer k = if ltb k ctx.vector_capacity then f k else none

  grown_lem : grown ctx.owned_arenas ctx.vector_capacity doubled ≡ live doubled longer
  unfolding grown
  grown_lem = rw owned refl

  resized_lem : resized ctx.arena_indices doubled ≡ live doubled g
  unfolding resized
  resized_lem = rw indices refl

  longer-IsTable : ctx.vector_capacity ≡ n → IsTable longer g doubled p n addr id
  longer-IsTable e = record {
    room = ground arith;
    addr_at = λ k lt. ground (arith, t.addr_at k lt);
    id_at = t.id_at;
    id_small = t.id_small;
    id_old = t.id_old;
    table_at = t.table_at;
    empty_at = λ k le lt. ground arith;
    distinct = t.distinct;
  }

  pub ensure_vector_capacity_cases :
      host.realloc_arenas ≡ host.realloc_indices
      → HasRoom host ctx g p n addr id
        ⊎ ((ensure_vector_capacity host ctx ≡ (false, ctx)) × (host.realloc_arenas ≡ false))
  unfolding ensure_vector_capacity
  ensure_vector_capacity_cases both =
      elim (Bool-cases (ltb ctx.active_arena_count ctx.vector_capacity)) [
        | inl room ↦ inl (record {
          f' = f;
          cap' = ctx.vector_capacity;
          runs = ground arith;
          table' = t;
          free_place = ground arith;
        })
        | inr full ↦ elim (Bool-cases host.realloc_arenas) [
          | inl done ↦ inl (record {
            f' = longer;
            cap' = doubled;
            runs =
                rw (full, done, sym both ∙ done)
                  (ap
                      (λ b. (
                        true,
                        record ctx {
                          owned_arenas = b;
                          arena_indices = resized ctx.arena_indices doubled;
                          vector_capacity = doubled;
                        },
                      ))
                      grown_lem
                    ∙ ap
                        (λ b. (
                          true,
                          record ctx {
                            owned_arenas = live doubled longer;
                            arena_indices = b;
                            vector_capacity = doubled;
                          },
                        ))
                        resized_lem);
            table' = longer-IsTable (ground (arith, t.room));
            free_place = ground (arith, t.room);
          })
          | inr lost ↦ inr (ground arith, lost)
        ]
      ]

-- The new arena in the tables.
module _ (f : ℕ → Option ℕ) (g : ℕ → ℕ) (cap top : ℕ) (p : Pool) (v : View) (a : ℕ)
    (t : IsTable f g cap p v.n v.addr v.id) (split : IsSplit top v.n p v) (free_place : v.n < cap)
    (small : p.g_global_arena_cnt < max_arenas) (empty : v.own_list ≡ [])
    (drained : top ≡ handle_null) (unlike : (k : ℕ) → k < v.n → v.addr k ≢ a) where
  abbrev p1 : Pool
  p1 = with_fresh p a

  abbrev v1 : View
  v1 = more_view v a p.g_global_arena_cnt

  abbrev f1 : ℕ → Option ℕ
  f1 = update f v.n (some a)

  abbrev g1 : ℕ → ℕ
  g1 = update g v.n (u32 p.g_global_arena_cnt)

  pub more-IsTable :
      IsTable
        (update f v.n (some a))
        (update g v.n (u32 p.g_global_arena_cnt))
        cap
        (with_fresh p a)
        (v.n + 1)
        (update v.addr v.n a)
        (update v.id v.n p.g_global_arena_cnt)
  more-IsTable = record {
    room = omega (arith, free_place);
    addr_at = λ k lt. ground (arith, t.addr_at k);
    id_at = λ k lt. ground (arith, t.id_at k);
    id_small = λ k lt. ground (arith, t.id_small k);
    id_old = λ k lt. ground (arith, t.id_old k);
    table_at = λ k lt. ground (arith, t.table_at k, t.id_old k);
    empty_at = λ k le lt. ground (arith, t.empty_at k);
    distinct = λ j k lj lk e. ground (arith, t.distinct j k, unlike j, unlike k);
  }

  keeps : Keeps p p1 v.n v.addr v.id
  keeps = with_fresh-Keeps f g cap p v.n v.addr v.id a t unlike

  pub more-IsSplit : IsSplit top v.n (with_fresh p a) (more_view v a p.g_global_arena_cnt)
  more-IsSplit =
      let s = IsSplit-Keeps top v.n p p1 v keeps split in
      record {
        within = omega arith;
        stacks = λ k lt.
            let same_id : v1.id k ≡ v.id k = ground arith in
            let same_addr : v1.addr k ≡ v.addr k = ground arith in
            rw (same_id, same_addr) (s.stacks k lt);
        local = inl (drained, empty);
        one_place = s.one_place;
        idle = s.idle;
        used_at = s.used_at;
        used_link = λ k i on. ground (arith, s.used_link k i on, s.idle k i);
      }
