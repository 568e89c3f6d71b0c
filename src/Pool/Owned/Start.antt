-- ===== src/Pool/Owned/Start.antt =====
-- `start_arena`: an owned arena that is not active becomes the last active one, all of its slots free.
use atomsnap.Common.{ℕ, suc, ◌+◌, ◌-◌, ◌<◌, ◌≡◌, inr, refl, subst, true, [], arith}
use atomsnap.Common.Family.{update, update_self}
use atomsnap.Common.Outcome.{ok}
use atomsnap.Word.Handle.{max_arenas, slots_per_arena}
use atomsnap.Pool.Memory.{Arena, Pool, Context}
use atomsnap.Pool.Arenas.{setup_arena_stack, start_arena}
use atomsnap.Pool.Stack.Setup.{countdown, has-countdown_inside, setup_arena_stack-Chain}
use atomsnap.Pool.Owned.Defs.{View, places, IsSplit, IsOwned}
use atomsnap.Pool.Owned.Frame.{with_arena, with_arena_self, IsTable-memory, stacks-replace}

-- The view after the arena at place `k` has become active.
abbrev pub start_view : View → (k : ℕ) → View
start_view v k = record v {
  shared = update v.shared k [];
  at = k;
  own_list = countdown (slots_per_arena - 1);
}

module _ (top k0 : ℕ) (p : Pool) (v : View) (split : IsSplit top k0 p v)
    (distinct : (j k : ℕ) → j < v.n → k < v.n → v.addr j ≡ v.addr k → j ≡ k)
    (small : v.id k0 < max_arenas) (empty : v.own_list ≡ []) (lt : k0 < v.n) where
  abbrev arena_after : Arena
  arena_after = (setup_arena_stack (p.arenas (v.addr k0)) (v.id k0)).0

  one_place_started :
      (k i : ℕ) → k < suc k0 → 0 < i → i < slots_per_arena → places (start_view v k0) k i ≡ 1
  one_place_started k i l pos fits =
      ground (arith, empty, split.one_place k i, split.idle k i, has-countdown_inside i 3275)

  pub started :
      IsSplit
        (setup_arena_stack (p.arenas (v.addr k0)) (v.id k0)).1
        (suc k0)
        (with_arena p (v.addr k0) (setup_arena_stack (p.arenas (v.addr k0)) (v.id k0)).0)
        (start_view v k0)
  started =
      let (stack, chain, len) = setup_arena_stack-Chain (p.arenas (v.addr k0)) (v.id k0) small in
      record {
        within = lt;
        stacks =
            stacks-replace p v.addr v.id v.n (suc k0) k0 arena_after v.shared
              (update v.shared k0 []) distinct lt lt
              (λ k l ne. split.stacks k (omega (arith, l, ne))) (λ k ne. ground arith)
              (λ l. rw (update_self v.shared k0 []) stack);
        local = inr (lt, rw (with_arena_self p (v.addr k0) arena_after) chain, λ i on. omega arith);
        one_place = one_place_started;
        idle = λ k i more. split.idle k i (omega (arith, more));
        used_at = split.used_at;
        used_link = λ k i on.
            ground (arith, split.used_link k i on, split.idle k i, split.within, distinct k0 k);
      }

-- `start_arena` on the first arena that is not active.
module _ (ctx : Context) (p : Pool) (v : View) (o : IsOwned ctx p v) (empty : v.own_list ≡ [])
    (lt : ctx.active_arena_count < v.n) where
  open o use {f, g, owned, indices, table, split}

  abbrev k1 : ℕ
  k1 = ctx.active_arena_count

  abbrev ready : Arena × ℕ
  ready = setup_arena_stack (p.arenas (v.addr k1)) (v.id k1)

  -- `start_arena` returns 0 with every slot of the arena on the private list.
  pub start_arena-IsOwned :
      (ctx' : Context) × (p' : Pool) × (start_arena ctx (v.addr k1) (v.id k1) p
        ≡ ok (true, ctx') p')
      × IsOwned ctx' p' (start_view v k1)
  unfolding start_arena
  start_arena-IsOwned = (
    record ctx { active_arena_count = k1 + 1; local_top = ready.1 },
    with_arena p (v.addr k1) ready.0,
    refl,
    record {
      f = f;
      g = g;
      owned = owned;
      indices = indices;
      table =
          IsTable-memory f g ctx.vector_capacity p (with_arena p (v.addr k1) ready.0) v.n v.addr
            v.id refl refl table;
      split =
          subst (λ c. IsSplit ready.1 c (with_arena p (v.addr k1) ready.0) (start_view v k1))
            (omega arith)
            (started ctx.local_top k1 p v split table.distinct (table.id_small k1 lt) empty lt);
    },
  )
