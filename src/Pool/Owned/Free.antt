-- ===== src/Pool/Owned/Free.antt =====
-- `free_slot`, by any thread: a slot in use goes to the shared stack of its arena.
use atomsnap.Common.{
  ℕ, ◌<◌, ◌≡◌, ◌≢◌, inl, inr, refl, sym, subst, true, false, ◌&&◌, List, ◌∷◌, arith, ◌==◌,
  if◌then◌else◌, ℕ_discrete,
}
use atomsnap.Common.Family.{update, update_self}
use atomsnap.Common.Outcome.{ok}
use atomsnap.Word.Handle.{slots_per_arena, construct_handle}
use atomsnap.Pool.Memory.{Pool, Context}
use atomsnap.Pool.Slots.{free_slot}
use atomsnap.Pool.Stack.Defs.{has, Chain, Chain-update}
use atomsnap.Pool.Stack.Push.{
  pushed, pushed_arena, linked_arena, free_slot_lem, pushed_arena-IsStack,
}
use atomsnap.Pool.Owned.Defs.{View, link_of, IsLocal, IsSplit, IsOwned}
use atomsnap.Pool.Owned.Frame.{with_arena_self, with_arena-ne, IsTable-memory, stacks-replace}

-- The view after slot `i` of the arena at place `k` is freed.
abbrev pub free_view : View → (k i : ℕ) → View
free_view v k i = record v {
  used = λ j m. if (k == j) && (i == m) then false else v.used j m;
  shared = update v.shared k (i ∷ v.shared k);
}

module _ (ctx : Context) (p : Pool) (v : View) (o : IsOwned ctx p v) (k i : ℕ)
    (on : v.used k i ≡ true) where
  open o use {f, g, owned, indices, table, split}

  abbrev active : ℕ
  active = ctx.active_arena_count

  active_at : k < active
  active_at = ground (arith, split.idle k i)

  inside : k < v.n
  inside = omega (arith, active_at, split.within)

  fits : (0 < i) × (i < slots_per_arena)
  fits = split.used_at k i on

  not_shared : has i (v.shared k) ≡ false
  not_shared = ground (arith, split.one_place k i active_at fits.0 fits.1)

  abbrev after : Pool
  after = pushed p (v.addr k) i (v.id k)

  same_links :
      (m : ℕ)
      → i ≢ m
      → ((pushed_arena (p.arenas (v.addr k)) i (v.id k)).slots m).link
        ≡ ((p.arenas (v.addr k)).slots m).link
  unfolding pushed_arena linked_arena
  same_links m ne = ground arith

  Chain-after :
      (h : ℕ) (xs : List ℕ)
      → has i xs ≡ false
      → Chain (v.id k) (p.arenas (v.addr k)).slots h xs
      → Chain (v.id k) (pushed_arena (p.arenas (v.addr k)) i (v.id k)).slots h xs
  unfolding pushed_arena linked_arena
  Chain-after h xs out c = Chain-update (v.id k) (p.arenas (v.addr k)).slots h xs i _ out c

  IsLocal-after : IsLocal ctx.local_top active after (free_view v k i)
  IsLocal-after = elim split.local [
    | inl none_there ↦ inl none_there
    | inr (lt, chain, listed) ↦ elim (ℕ_discrete k v.at) [
      | yes e ↦
          let out : has i v.own_list ≡ false =
            ground (arith, split.one_place k i active_at fits.0 fits.1) in
          inr (
            lt,
            subst (λ j. Chain (v.id j) (after.arenas (v.addr j)).slots ctx.local_top v.own_list) e
                (rw (with_arena_self p (v.addr k) (pushed_arena (p.arenas (v.addr k)) i (v.id k))) (
                  Chain-after ctx.local_top v.own_list out (
                    subst (λ j. Chain (v.id j) (p.arenas (v.addr j)).slots ctx.local_top v.own_list)
                      (sym e) chain))),
            listed,
          )
      | no ne ↦ inr (
        lt,
        rw
            (with_arena-ne p (v.addr k) (v.addr v.at)
              (pushed_arena (p.arenas (v.addr k)) i (v.id k))
              (λ e. ne (table.distinct k v.at inside lt (sym e))))
            chain,
        listed,
      )
    ]
  ]

  used_link_after :
      (j m : ℕ)
      → (free_view v k i).used j m ≡ true
      → link_of after (v.addr j) m ≡ construct_handle (v.id j) m
  used_link_after j m still = ground (
    arith,
    same_links m,
    split.used_link j m,
    split.idle j m,
    split.within,
    inside,
    table.distinct k j,
  )

  freed_split : IsSplit ctx.local_top active after (free_view v k i)
  freed_split = record {
    within = split.within;
    stacks =
        stacks-replace p v.addr v.id v.n active k (pushed_arena (p.arenas (v.addr k)) i (v.id k))
          v.shared (update v.shared k (i ∷ v.shared k)) table.distinct inside split.within
          (λ j lt ne. split.stacks j lt) (λ j ne. ground arith)
          (λ lt. rw (update_self v.shared k (i ∷ v.shared k)) (
            pushed_arena-IsStack (p.arenas (v.addr k)) i (v.id k) (v.shared k)
              (table.id_small k inside) fits.0 fits.1 not_shared (split.stacks k lt)));
    local = IsLocal-after;
    one_place = λ j m lt pos small. ground (arith, split.one_place j m lt pos small);
    idle = λ j m more. ground (arith, split.idle j m more);
    used_at = λ j m still. ground (arith, split.used_at j m);
    used_link = used_link_after;
  }

  -- `free_slot` on a slot in use, by any thread and after any number of failures of its weak
  -- compare-exchange: that slot is no longer in use, every other is as before, and what the thread owns
  -- is well formed.
  pub free_slot-IsOwned :
      (n : ℕ)
      → (free_slot n (v.addr k, i) p ≡ ok tt (pushed p (v.addr k) i (v.id k)))
        × IsOwned ctx (pushed p (v.addr k) i (v.id k)) (free_view v k i)
  free_slot-IsOwned n = (
    free_slot_lem n (v.addr k) i (v.id k) p (table.id_small k inside) (table.table_at k inside)
        fits.1 (split.used_link k i on),
    record {
      f = f;
      g = g;
      owned = owned;
      indices = indices;
      table = IsTable-memory f g ctx.vector_capacity p after v.n v.addr v.id refl refl table;
      split = freed_split;
    },
  )
