-- ===== src/Pool/Owned/Steal.antt =====
-- The shared stacks of the active arenas: the first that is not empty becomes the private list.
use atomsnap.Common.{
  ℕ, zero, suc, ◌+◌, ◌<◌, ◌≡◌, ◌≢◌, inl, inr, refl, ◌∙◌, subst, Option, none, some, [], arith,
  ==_iff, ==_ne, ℕ_discrete,
}
use atomsnap.Common.Family.{update, update_self}
use atomsnap.Common.Outcome.{Outcome, ok}
use atomsnap.Word.Pair.{handle_null, handle_of}
use atomsnap.Word.Handle.{max_arenas, construct_handle, construct_handle_fields}
use atomsnap.Pool.Memory.{Arena, Pool, Context}
use atomsnap.Pool.Slots.{pop_local}
use atomsnap.Pool.Alloc.{steal, steal_loop}
use atomsnap.Pool.Stack.Defs.{Chain, IsStack}
use atomsnap.Pool.Owned.Defs.{View, IsSplit, IsOwned, Extends}
use atomsnap.Pool.Owned.Frame.{with_arena, with_arena_self, IsTable-memory, stacks-replace}
use atomsnap.Pool.Owned.Pop.{take_top}
use atomsnap.Pool.Owned.Take.{owned_entry, index_entry, Gives, pop_local_cases}

-- The view after the shared stack at place `k` has become the private list.
abbrev pub take_shared : View → (k : ℕ) → View
take_shared v k = record v { shared = update v.shared k []; at = k; own_list = v.shared k }

-- An arena whose shared stack is only the sentinel.
abbrev pub emptied : Arena → (id : ℕ) → Arena
emptied arena id = record arena { top_handle = construct_handle id 0 }

emptied-IsStack : (arena : Arena) (id : ℕ) → id < max_arenas → IsStack id (emptied arena id) []
emptied-IsStack arena id small = record {
  chain = omega (arith, construct_handle_fields id 0 small);
  depth = omega (arith, construct_handle_fields id 0 small);
}

module _ (active k0 : ℕ) (p : Pool) (v : View) (split : IsSplit handle_null active p v)
    (distinct : (j k : ℕ) → j < v.n → k < v.n → v.addr j ≡ v.addr k → j ≡ k)
    (small : v.id k0 < max_arenas) (empty : v.own_list ≡ []) (lt : k0 < active) where
  abbrev after : Pool
  after = with_arena p (v.addr k0) (emptied (p.arenas (v.addr k0)) (v.id k0))

  stacks_after :
      (k : ℕ) → k < active → IsStack (v.id k) (after.arenas (v.addr k)) (update v.shared k0 [] k)
  stacks_after =
      stacks-replace p v.addr v.id v.n active k0 (emptied (p.arenas (v.addr k0)) (v.id k0)) v.shared
        (update v.shared k0 []) distinct (omega (arith, split.within)) split.within
        (λ k l ne. split.stacks k l) (λ k ne. ground arith)
        (λ l.
          rw (update_self v.shared k0 []) (emptied-IsStack (p.arenas (v.addr k0)) (v.id k0) small))

  pub stolen : IsSplit (handle_of (p.arenas (v.addr k0)).top_handle) active after (take_shared v k0)
  stolen = record {
    within = split.within;
    stacks = stacks_after;
    local = inr (
      omega (arith, split.within),
      rw (with_arena_self p (v.addr k0) (emptied (p.arenas (v.addr k0)) (v.id k0)))
          ((split.stacks k0 lt).chain),
      λ i on. lt,
    );
    one_place = λ k i l pos fits. ground (arith, empty, split.one_place k i l pos fits);
    idle = split.idle;
    used_at = split.used_at;
    used_link = λ k i on. ground (arith, split.used_link k i on);
  }

-- A slot out of a shared stack, or that all of them are empty.
pub data Steals (v : View) (p : Pool) (m : Outcome Pool (Option (ℕ × Context))) : Type 0 where
  all_empty : m ≡ ok none p → Steals v p m
  got :
      (h : ℕ) (ctx' : Context) (p' : Pool) (v' : View)
      → m ≡ ok (some (h, ctx')) p'
      → IsOwned ctx' p' v'
      → Extends v v'
      → Gives v v' p' h
      → Steals v p m

module _ {ctx : Context} {p : Pool} {v : View} (o : IsOwned ctx p v)
    (top : ctx.local_top ≡ handle_null) (empty : v.own_list ≡ []) where
  open o use {f, g, owned, indices, table, split}

  split_null : IsSplit handle_null ctx.active_arena_count p v
  split_null = subst (λ t. IsSplit t ctx.active_arena_count p v) top split

  abbrev batch : ℕ → Context
  batch k = record ctx { local_top = handle_of (p.arenas (v.addr k)).top_handle }

  abbrev pool_after : ℕ → Pool
  pool_after k = with_arena p (v.addr k) (emptied (p.arenas (v.addr k)) (v.id k))

  batch-IsOwned :
      (k : ℕ) → k < ctx.active_arena_count → IsOwned (batch k) (pool_after k) (take_shared v k)
  batch-IsOwned k lt = record {
    f = f;
    g = g;
    owned = owned;
    indices = indices;
    table = IsTable-memory f g ctx.vector_capacity p (pool_after k) v.n v.addr v.id refl refl table;
    split =
        stolen ctx.active_arena_count k p v split_null table.distinct
          (table.id_small k (omega (arith, split.within, lt))) empty lt;
  }

  steal_pops :
      (k : ℕ)
      → handle_of (p.arenas (v.addr k)).top_handle ≢ construct_handle (v.id k) 0
      → steal ctx (v.addr k) (construct_handle (v.id k) 0) p ≡ pop_local (batch k) (pool_after k)
  unfolding steal
  steal_pops k more =
      rw (==_ne (handle_of (p.arenas (v.addr k)).top_handle) (construct_handle (v.id k) 0) more)
        refl

  steal_lem :
      (k : ℕ)
      → k < ctx.active_arena_count
      → handle_of (p.arenas (v.addr k)).top_handle ≢ construct_handle (v.id k) 0
      → (h : ℕ) × (ctx' : Context) × (p' : Pool) × (v' : View) × (steal ctx
            (v.addr k)
            (construct_handle (v.id k) 0)
            p
          ≡ ok (h, ctx') p')
        × IsOwned ctx' p' v'
        × Extends v v'
        × Gives v v' p' h
  steal_lem k lt more = elim (pop_local_cases (batch-IsOwned k lt)) [
    | inl d ↦ absurd (
        more (
          subst
            (λ xs.
              Chain (v.id k) (p.arenas (v.addr k)).slots
                (handle_of (p.arenas (v.addr k)).top_handle) xs)
            d.empty (split.stacks k lt).chain))
    | inr q ↦ (
      construct_handle (v.id k) q.i,
      q.ctx',
      q.p',
      take_top (take_shared v k) q.i q.xs,
      steal_pops k more ∙ q.runs,
      q.owned,
      record { more = omega arith; same_addr = λ j l. refl; same_id = λ j l. refl },
      record {
        k = q.given.k;
        i = q.given.i;
        handle_is = q.given.handle_is;
        resolves = q.given.resolves;
        was_free = q.given.was_free;
        now_used = q.given.now_used;
      },
    )
  ]

  pub steal_loop_cases :
      (rounds i : ℕ) → i + rounds ≡ ctx.active_arena_count → Steals v p (steal_loop rounds i ctx p)
  unfolding steal_loop
  steal_loop_cases zero i e = all_empty refl
  steal_loop_cases (suc rounds) i e =
      let lt : i < ctx.active_arena_count = omega (arith, e) in
      let inside : i < v.n = omega (arith, lt, split.within) in
      elim (ℕ_discrete (handle_of (p.arenas (v.addr i)).top_handle) (construct_handle (v.id i) 0)) [
        | yes same ↦
            rw
              (
                owned_entry o i (some (v.addr i)) (omega (arith, inside, table.room))
                    (table.addr_at i inside),
                index_entry o i inside,
                (==_iff (handle_of (p.arenas (v.addr i)).top_handle)
                      (construct_handle (v.id i) 0)).1
                    same,
              )
              (steal_loop_cases rounds (i + 1) (omega (arith, e)))
        | no more ↦
            let (h, ctx', p', v', runs, o', ext, given) = steal_lem i lt more in
            got h ctx' p' v'
              (rw
                (
                  owned_entry o i (some (v.addr i)) (omega (arith, inside, table.room))
                      (table.addr_at i inside),
                  index_entry o i inside,
                  ==_ne (handle_of (p.arenas (v.addr i)).top_handle) (construct_handle (v.id i) 0)
                      more,
                  runs,
                )
                refl)
              o' ext given
      ]
