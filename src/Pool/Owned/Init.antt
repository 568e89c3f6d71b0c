-- ===== src/Pool/Owned/Init.antt =====
-- `init_arena`: one arena more is active, with all of its slots on the private list, or the system
-- refused.
use atomsnap.Common.{
  ℕ, ◌+◌, ◌-◌, ◌≤◌, ◌<◌, ◌≡◌, ◌≢◌, ◌⊎◌, inl, inr, refl, sym, subst, ap, ◌∙◌, Bool, true, false,
  none, some, [], arith, ltb, leb, dec_lt, Bool-cases, Option-cases,
}
use atomsnap.Common.Family.{update}
use atomsnap.Common.Outcome.{Outcome, ok}
use atomsnap.Word.Pair.{u32, handle_null}
use atomsnap.Word.Handle.{max_arenas, slots_per_arena}
use atomsnap.Pool.Memory.{Pool, Context, Host, live, store_entry}
use atomsnap.Pool.Arenas.{
  enlist_if, enlist, start_arena, register, new_arena, reuse_or_new, init_arena,
}
use atomsnap.Pool.Stack.Setup.{countdown}
use atomsnap.Pool.Owned.Defs.{View, IsSplit, IsOwned, Extends}
use atomsnap.Pool.Owned.Fresh.{with_fresh, with_fresh-Keeps, more_view, IsOwned-Keeps}
use atomsnap.Pool.Owned.Start.{start_view, start_arena-IsOwned}
use atomsnap.Pool.Owned.Enlist.{HasRoom, ensure_vector_capacity_cases, more-IsTable, more-IsSplit}
use atomsnap.Pool.Owned.Take.{owned_entry, index_entry}

-- Why no arena could be had.
abbrev pub Refused : Host → Pool → Type 0
Refused host p =
    (host.aligned_alloc ≡ none)
    ⊎ (host.realloc_arenas ≡ false)
    ⊎ (max_arenas ≤ p.g_global_arena_cnt)

pub data Inits (host : Host) (p : Pool) (v : View) (m : Outcome Pool (Bool × Context))
    : Type 0 where
  started :
      (ctx' : Context) (p' : Pool) (v' : View)
      → m ≡ ok (true, ctx') p'
      → IsOwned ctx' p' v'
      → Extends v v'
      → v'.used ≡ v.used
      → v'.own_list ≡ countdown (slots_per_arena - 1)
      → Inits host p v m
  failed :
      (ctx' : Context) (p' : Pool)
      → m ≡ ok (false, ctx') p'
      → IsOwned ctx' p' v
      → Refused host p
      → Inits host p v m

-- Memory that the system gives is not memory that the thread owns.
abbrev pub IsNew : Host → View → Type 0
IsNew host v = (a : ℕ) → host.aligned_alloc ≡ some a → (k : ℕ) → k < v.n → v.addr k ≢ a

module _ (host : Host) (ctx : Context) (p : Pool) (v : View) (o : IsOwned ctx p v)
    (empty : v.own_list ≡ []) (drained : ctx.local_top ≡ handle_null) where
  open o use {f, g, owned, indices, table, split}

  abbrev k1 : ℕ
  k1 = ctx.active_arena_count

  -- `enlist` at the place after the last.
  module _ (a : ℕ) (last : k1 ≡ v.n) (unlike : (k : ℕ) → k < v.n → v.addr k ≢ a)
      (small : p.g_global_arena_cnt < max_arenas)
      (room : HasRoom host ctx g p v.n v.addr v.id) where
    abbrev ctx1 : Context
    ctx1 = record ctx {
      owned_arenas = live room.cap' room.f';
      arena_indices = live room.cap' g;
      vector_capacity = room.cap';
    }

    abbrev ctx2 : Context
    ctx2 = record ctx1 {
      owned_arenas = live room.cap' (update room.f' k1 (some a));
      arena_indices = live room.cap' (update g k1 (u32 p.g_global_arena_cnt));
    }

    abbrev v1 : View
    v1 = more_view v a p.g_global_arena_cnt

    split_last : IsSplit ctx.local_top v.n p v
    split_last = subst (λ c. IsSplit ctx.local_top c p v) last split

    enlisted : IsOwned ctx2 (with_fresh p a) v1
    enlisted = record {
      f = update room.f' v.n (some a);
      g = update g v.n (u32 p.g_global_arena_cnt);
      owned = rw last refl;
      indices = rw last refl;
      table =
          more-IsTable room.f' g room.cap' ctx.local_top p v a room.table' split_last
            room.free_place small empty drained unlike;
      split = rw last (
          more-IsSplit room.f' g room.cap' ctx.local_top p v a room.table' split_last
            room.free_place small empty drained unlike);
    }

    enlist_lem :
        (ctx' : Context) × (p' : Pool) × (enlist ctx1 a p.g_global_arena_cnt (with_fresh p a)
          ≡ ok (true, ctx') p')
        × IsOwned ctx' p' (start_view v1 k1)
    unfolding enlist store_entry
    enlist_lem =
        let (ctx', p', runs, o') =
          start_arena-IsOwned ctx2 (with_fresh p a) v1 enlisted empty (omega (arith, last)) in
        let inside : ltb k1 room.cap' ≡ true = ground (arith, last, room.free_place) in
        let addr_is : a ≡ v1.addr k1 = ground arith in
        let id_is : p.g_global_arena_cnt ≡ v1.id k1 = ground arith in
        (
          ctx',
          p',
          rw (inside, inside)
              (ap (λ (b : ℕ). start_arena ctx2 b p.g_global_arena_cnt (with_fresh p a)) addr_is
                ∙ ap (λ (b : ℕ). start_arena ctx2 (v1.addr k1) b (with_fresh p a)) id_is
                ∙ runs),
          o',
        )

  -- The new arena has its place, or a failed `realloc` denies it.
  register-some :
      (a : ℕ)
      → host.realloc_arenas ≡ host.realloc_indices
      → ((k : ℕ) → k < v.n → v.addr k ≢ a)
      → k1 ≡ v.n
      → p.g_global_arena_cnt < max_arenas
      → Inits host p v (
          register host ctx p.g_global_arena_cnt
            (some a)
            (record p { g_global_arena_cnt = p.g_global_arena_cnt + 1 }))
  unfolding register enlist_if
  register-some a both unlike last small =
      elim (ensure_vector_capacity_cases host ctx f g p v.n v.addr v.id owned indices table last
        both) [
          | inl room ↦
              let (ctx', p', runs, o') = enlist_lem a last unlike small room in
              started ctx' p' (start_view (more_view v a p.g_global_arena_cnt) k1)
                (ap (λ r. enlist_if a p.g_global_arena_cnt r (with_fresh p a)) room.runs ∙ runs) o'
                (record {
                  more = omega arith;
                  same_addr = λ k lt. ground arith;
                  same_id = λ k lt. ground arith;
                })
                refl refl
          | inr (runs, lost) ↦
              failed ctx (with_fresh p a)
                (ap (λ r. enlist_if a p.g_global_arena_cnt r (with_fresh p a)) runs)
                (IsOwned-Keeps ctx p (with_fresh p a) v
                  (with_fresh-Keeps f g ctx.vector_capacity p v.n v.addr v.id a table unlike) o)
                (inr (inl lost))
        ]

  -- The next index is spent.
  abbrev spent : Pool
  spent = record p { g_global_arena_cnt = p.g_global_arena_cnt + 1 }

  spent-IsOwned : IsOwned ctx spent v
  spent-IsOwned =
      IsOwned-Keeps ctx p spent v
        (record { memory = λ k lt. refl; named = λ k lt. refl; count = omega arith }) o

  register_cases :
      host.realloc_arenas ≡ host.realloc_indices
      → IsNew host v
      → k1 ≡ v.n
      → p.g_global_arena_cnt < max_arenas
      → Inits host p v (register host ctx p.g_global_arena_cnt host.aligned_alloc spent)
  unfolding register
  register_cases both new last small = elim (Option-cases host.aligned_alloc) [
    | inl none_left ↦
        failed ctx spent (ap (λ m. register host ctx p.g_global_arena_cnt m spent) none_left)
          spent-IsOwned (inl none_left)
    | inr (a, memory) ↦
        subst (λ m. Inits host p v (register host ctx p.g_global_arena_cnt m spent)) (sym memory)
          (register-some a both (new a memory) last small)
  ]

  new_arena_cases :
      host.realloc_arenas ≡ host.realloc_indices
      → IsNew host v
      → k1 ≡ v.n
      → Inits host p v (new_arena host ctx p)
  unfolding new_arena
  new_arena_cases both new last = elim (dec_lt p.g_global_arena_cnt max_arenas) [
    | yes small ↦
        let below : leb max_arenas p.g_global_arena_cnt ≡ false = ground arith in
        rw below (register_cases both new last small)
    | no large ↦
        let above : leb max_arenas p.g_global_arena_cnt ≡ true = ground arith in
        failed ctx spent (rw above refl) spent-IsOwned (inr (inr (omega (arith, large))))
  ]

  -- An arena that is owned and not active is taken before the system is asked.
  reuse_lem : k1 < v.n → Inits host p v (reuse_or_new host ctx (some (v.addr k1)) p)
  unfolding reuse_or_new
  reuse_lem lt =
      let (ctx', p', runs, o') = start_arena-IsOwned ctx p v o empty lt in
      started ctx' p' (start_view v k1) (rw (index_entry o k1 lt) runs) o'
        (record { more = omega arith; same_addr = λ k l. refl; same_id = λ k l. refl }) refl refl

  pub init_arena_cases :
      host.realloc_arenas ≡ host.realloc_indices
      → IsNew host v
      → Inits host p v (init_arena host ctx p)
  unfolding init_arena
  init_arena_cases both new = elim (Bool-cases (ltb k1 ctx.vector_capacity)) [
    | inl room ↦ elim (dec_lt k1 v.n) [
      | yes lt ↦
          rw (room, owned_entry o k1 (some (v.addr k1)) (ground arith) (table.addr_at k1 lt))
            (reuse_lem lt)
      | no ge ↦
          rw
            (
              room,
              owned_entry o k1 none (ground arith)
                  (table.empty_at k1 (omega (arith, ge)) (ground arith)),
            )
            (unfold reuse_or_new in new_arena_cases both new (omega (arith, ge, split.within)))
    ]
    | inr full ↦ rw full (new_arena_cases both new (ground (arith, table.room, split.within)))
  ]
