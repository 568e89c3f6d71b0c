-- ===== src/Pool/Owned/Reclaim.antt =====
-- `reclaim_last_arena_if_empty` keeps all that is owned.
use atomsnap.Common.{
  ℕ, zero, suc, ◌≤◌, ◌<◌, ◌≡◌, ◌≢◌, ◌⊎◌, inl, inr, refl, sym, subst, Bool, true, false, List, ◌∷◌,
  arith,
}
use atomsnap.Common.Outcome.{ok}
use atomsnap.Word.Handle.{slots_per_arena}
use atomsnap.Pool.Memory.{Arena, Pool, Context, Host}
use atomsnap.Pool.Arenas.{reclaim_last_arena_if_empty}
use atomsnap.Pool.Reclaim.{reclaim_lem}
use atomsnap.Pool.Stack.Defs.{has, Chain}
use atomsnap.Pool.Owned.Defs.{View, link_of, IsLocal, IsSplit, IsOwned}
use atomsnap.Pool.Owned.Frame.{with_arena, with_arena-ne, IsTable-memory}
use atomsnap.Pool.Owned.Take.{List-cases}

module _ (top k0 : ℕ) (p : Pool) (v : View) (arena : Arena) (split : IsSplit top (suc k0) p v)
    (distinct : (j k : ℕ) → j < v.n → k < v.n → v.addr j ≡ v.addr k → j ≡ k)
    (full : (i : ℕ) → 0 < i → i < slots_per_arena → has i (v.shared k0) ≡ true) where
  abbrev after : Pool
  after = with_arena p (v.addr k0) arena

  idle_after : (k i : ℕ) → k0 ≤ k → v.used k i ≡ false
  idle_after k i more =
      ground (arith, split.idle k i, split.used_at k i, split.one_place k i, full i)

  apart : (k : ℕ) → k < v.n → k ≢ k0 → after.arenas (v.addr k) ≡ p.arenas (v.addr k)
  apart k lt ne =
      with_arena-ne p (v.addr k0) (v.addr k) arena
        (λ e. ne (distinct k k0 lt (omega (arith, split.within)) e))

  -- A private list in the arena that is given back is empty.
  listed_apart :
      (i : ℕ) (xs : List ℕ)
      → v.own_list ≡ i ∷ xs
      → 0 < i
      → i < slots_per_arena
      → v.at < suc k0
      → v.at ≢ k0
  listed_apart i xs list pos fits lt e =
      ground (arith, split.one_place v.at i lt pos fits, full i pos fits)

  IsLocal-after : IsLocal top k0 after v
  IsLocal-after = elim split.local [
    | inl none_there ↦ inl none_there
    | inr (inside, chain, listed) ↦ elim (List-cases v.own_list) [
      | inl e ↦ inr (
        inside,
        subst (λ xs. Chain (v.id v.at) (after.arenas (v.addr v.at)).slots top xs) (sym e)
            (subst (λ xs. Chain (v.id v.at) (p.arenas (v.addr v.at)).slots top xs) e chain),
        λ i on. ground (arith, e),
      )
      | inr (i, xs, e) ↦
          let c = subst (λ ys. Chain (v.id v.at) (p.arenas (v.addr v.at)).slots top ys) e chain in
          let lt : v.at < suc k0 = listed i (ground (arith, e)) in
          let ne = listed_apart i xs e c.1 c.2 lt in
          inr (inside, rw (apart v.at inside ne) chain, λ j on. omega (arith, lt, ne))
    ]
  ]

  pub given_back : IsSplit top k0 after v
  given_back = record {
    within = omega (arith, split.within);
    stacks = λ k lt.
        rw (apart k (omega (arith, split.within, lt)) (omega (arith, lt)))
          (split.stacks k (omega (arith, lt)));
    local = IsLocal-after;
    one_place = λ k i lt. split.one_place k i (omega (arith, lt));
    idle = idle_after;
    used_at = split.used_at;
    used_link = λ k i on.
        let lt : k < k0 = ground (arith, idle_after k i) in
        rw (link_of, apart k (omega (arith, split.within, lt)) (omega (arith, lt)))
          (split.used_link k i on);
  }

ℕ-cases : (n : ℕ) → (n ≡ 0) ⊎ ((k : ℕ) × (n ≡ suc k))
ℕ-cases zero = inl refl
ℕ-cases (suc k) = inr (k, refl)

-- The arena that is given back, or nothing; the view stays the same.
pub record Reclaims (host : Host) (ctx : Context) (p : Pool) (v : View) : Type 0 where
  pub done : Bool
  pub ctx' : Context
  pub p' : Pool
  pub runs : reclaim_last_arena_if_empty host ctx p ≡ ok (done, ctx') p'
  pub owned : IsOwned ctx' p' v
  pub same_count : p'.g_global_arena_cnt ≡ p.g_global_arena_cnt

Reclaims-suc :
    (host : Host) (ctx : Context) (p : Pool) (v : View) (k0 : ℕ)
    → ctx.active_arena_count ≡ suc k0
    → (o : IsOwned ctx p v) → Reclaims host ctx p v
Reclaims-suc host ctx p v k0 e o =
    let split' : IsSplit ctx.local_top (suc k0) p v = rw (← e) o.split in
    elim (reclaim_lem host ctx p ctx.vector_capacity o.f k0 (v.addr k0) (v.id k0) (v.shared k0) e
      o.owned (omega (arith, split'.within, o.table.room))
      (o.table.addr_at k0 (omega (arith, split'.within))) (split'.stacks k0 (omega arith))) [
        | inl (full, runs) ↦ record {
          done = true;
          ctx' = record ctx { active_arena_count = k0 };
          p' = with_arena p (v.addr k0) (host.madvise (p.arenas (v.addr k0)));
          runs = runs;
          owned = record {
            f = o.f;
            g = o.g;
            owned = o.owned;
            indices = o.indices;
            table =
                IsTable-memory o.f o.g ctx.vector_capacity p
                  (with_arena p (v.addr k0) (host.madvise (p.arenas (v.addr k0)))) v.n v.addr v.id
                  refl refl o.table;
            split =
                given_back ctx.local_top k0 p v (host.madvise (p.arenas (v.addr k0))) split'
                  o.table.distinct full;
          };
          same_count = refl;
        }
        | inr (partial, runs) ↦ record {
          done = false;
          ctx' = ctx;
          p' = p;
          runs = runs;
          owned = o;
          same_count = refl;
        }
      ]

pub reclaim-IsOwned :
    (host : Host) (ctx : Context) (p : Pool) (v : View) → IsOwned ctx p v → Reclaims host ctx p v
unfolding reclaim_last_arena_if_empty
reclaim-IsOwned host ctx p v o = elim (ℕ-cases ctx.active_arena_count) [
  | inl e ↦ record {
    done = false;
    ctx' = ctx;
    p' = p;
    runs = ground arith;
    owned = o;
    same_count = refl;
  }
  | inr (k0, e) ↦ Reclaims-suc host ctx p v k0 e o
]
