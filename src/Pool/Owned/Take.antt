-- ===== src/Pool/Owned/Take.antt =====
-- What an allocation promises, and `pop_local` as one.
use atomsnap.Common.{
  ℕ, ◌<◌, ◌≡◌, ◌≢◌, ◌⊎◌, inl, inr, refl, subst, false, Option, some, List, [], ◌∷◌, arith,
}
use atomsnap.Common.Outcome.{Outcome, ok}
use atomsnap.Word.Pair.{handle_null}
use atomsnap.Word.Handle.{max_arenas, construct_handle, construct_handle_fields}
use atomsnap.Pool.Memory.{Pool, Context, entry}
use atomsnap.Pool.Slots.{pop_local, resolve_handle}
use atomsnap.Pool.Stack.Defs.{Chain}
use atomsnap.Pool.Stack.Pop.{popped, pop_local-cons, pop_local-nil, resolve_handle-construct}
use atomsnap.Pool.Owned.Defs.{View, IsOwned, Extends}
use atomsnap.Pool.Owned.Frame.{IsTable-memory}
use atomsnap.Pool.Owned.Pop.{use_slot, take_top, top_taken}

-- The handle `h` names a slot that was not used in `v`, and that is the one more in `v'`.
pub record Gives (v v' : View) (p' : Pool) (h : ℕ) : Type 0 where
  pub k : ℕ
  pub i : ℕ
  pub handle_is : h ≡ construct_handle (v'.id k) i
  pub resolves : resolve_handle p'.g_arena_table h ≡ some (v'.addr k, i)
  pub was_free : v.used k i ≡ false
  pub now_used : (j m : ℕ) → v'.used j m ≡ use_slot v.used k i j m

-- A command of the allocator either gives a slot, or gives HANDLE_NULL and leaves all in use as it is;
-- the second only under the condition `excuse`.
pub data Allocates (excuse : Type 0) (v : View) (m : Outcome Pool (ℕ × Context)) : Type 0 where
  gives :
      (h : ℕ) (ctx' : Context) (p' : Pool) (v' : View)
      → m ≡ ok (h, ctx') p'
      → IsOwned ctx' p' v'
      → Extends v v'
      → Gives v v' p' h
      → Allocates excuse v m
  refuses :
      (ctx' : Context) (p' : Pool) (v' : View)
      → m ≡ ok (handle_null, ctx') p'
      → IsOwned ctx' p' v'
      → Extends v v'
      → ((j m : ℕ) → v'.used j m ≡ v.used j m)
      → excuse
      → Allocates excuse v m

-- The loads of the two arrays of the context.
module _ {ctx : Context} {p : Pool} {v : View} (o : IsOwned ctx p v) where
  open o use {f, owned, indices, table}

  pub owned_entry :
      (k : ℕ) (e : Option ℕ)
      → k < ctx.vector_capacity
      → f k ≡ e
      → entry ctx.owned_arenas k p ≡ ok e p
  unfolding entry
  owned_entry k e lt at = rw owned (ground (arith, lt, at))

  pub index_entry : (k : ℕ) → k < v.n → entry ctx.arena_indices k p ≡ ok (v.id k) p
  unfolding entry
  index_entry k lt = rw indices (ground (arith, lt, table.room, table.id_at k lt))

pub Extends-refl : (v : View) → Extends v v
Extends-refl v = record { more = omega arith; same_addr = λ k lt. refl; same_id = λ k lt. refl }

pub List-cases : (xs : List ℕ) → (xs ≡ []) ⊎ ((i : ℕ) × (ys : List ℕ) × (xs ≡ i ∷ ys))
List-cases [] = inl refl
List-cases (i ∷ xs) = inr (i, xs, refl)

-- The private list is empty: HANDLE_NULL, and no context holds a list any more.
pub record IsDrained (ctx : Context) (p : Pool) (v : View) : Type 0 where
  pub empty : v.own_list ≡ []
  pub runs : pop_local ctx p ≡ ok (handle_null, record ctx { local_top = handle_null }) p
  pub owned : IsOwned (record ctx { local_top = handle_null }) p v

-- The private list has a slot on top.
pub record IsPopped (ctx : Context) (p : Pool) (v : View) : Type 0 where
  pub i : ℕ
  pub xs : List ℕ
  pub ctx' : Context
  pub p' : Pool
  pub list : v.own_list ≡ i ∷ xs
  pub runs : pop_local ctx p ≡ ok (construct_handle (v.id v.at) i, ctx') p'
  pub not_null : construct_handle (v.id v.at) i ≢ handle_null
  pub owned : IsOwned ctx' p' (take_top v i xs)
  pub given : Gives v (take_top v i xs) p' (construct_handle (v.id v.at) i)

module _ {ctx : Context} {p : Pool} {v : View} (o : IsOwned ctx p v) where
  open o use {f, g, owned, indices, table, split}

  drained-IsOwned : v.own_list ≡ [] → IsOwned (record ctx { local_top = handle_null }) p v
  drained-IsOwned e = record {
    f = f;
    g = g;
    owned = owned;
    indices = indices;
    table = table;
    split = record {
      within = split.within;
      stacks = split.stacks;
      local = inl (refl, e);
      one_place = split.one_place;
      idle = split.idle;
      used_at = split.used_at;
      used_link = split.used_link;
    };
  }

  pop_null :
      ctx.local_top ≡ handle_null
      → pop_local ctx p ≡ ok (handle_null, record ctx { local_top = handle_null }) p
  unfolding pop_local
  pop_null e = ground arith

  at_small : v.at < v.n → v.id v.at < max_arenas
  at_small lt = table.id_small v.at lt

  pop_cons :
      (i : ℕ) (xs : List ℕ)
      → v.own_list ≡ i ∷ xs
      → v.at < v.n
      → v.at < ctx.active_arena_count
      → Chain (v.id v.at) (p.arenas (v.addr v.at)).slots ctx.local_top (i ∷ xs)
      → IsPopped ctx p v
  pop_cons i xs list inside active_at chain = record {
    i = i;
    xs = xs;
    ctx' = record ctx { local_top = ((p.arenas (v.addr v.at)).slots i).link };
    p' = popped p (v.addr v.at) i (construct_handle (v.id v.at) i);
    list = list;
    not_null = (construct_handle_fields (v.id v.at) i (at_small inside) chain.2).3;
    runs =
        (pop_local-cons ctx p (v.id v.at) (v.addr v.at) (at_small inside)
          (table.table_at v.at inside) i xs chain).0;
    owned = record {
      f = f;
      g = g;
      owned = owned;
      indices = indices;
      table =
          IsTable-memory f g ctx.vector_capacity p
            (popped p (v.addr v.at) i (construct_handle (v.id v.at) i)) v.n v.addr v.id refl refl
            table;
      split =
          top_taken ctx.local_top ctx.active_arena_count p v i xs split table.distinct list chain
            active_at;
    };
    given = record {
      k = v.at;
      i = i;
      handle_is = refl;
      resolves =
          resolve_handle-construct p.g_arena_table (v.id v.at) i (v.addr v.at) (at_small inside)
            chain.2 (table.table_at v.at inside);
      was_free = ground (arith, split.one_place v.at i active_at chain.1 chain.2);
      now_used = λ j m. refl;
    };
  }

  -- `pop_local` takes the top of the private list into use, if there is one.
  pub pop_local_cases : IsDrained ctx p v ⊎ IsPopped ctx p v
  pop_local_cases = elim split.local [
    | inl (top, e) ↦ inl (record { empty = e; runs = pop_null top; owned = drained-IsOwned e })
    | inr (inside, chain, listed) ↦ elim (List-cases v.own_list) [
      | inl e ↦ inl (record {
        empty = e;
        runs =
            pop_local-nil ctx p (v.id v.at) (v.addr v.at) (at_small inside)
              (table.table_at v.at inside)
              (subst (λ xs. Chain (v.id v.at) (p.arenas (v.addr v.at)).slots ctx.local_top xs) e
                chain);
        owned = drained-IsOwned e;
      })
      | inr (i, xs, e) ↦ inr (
          pop_cons i xs e inside (listed i (ground (arith, e))) (
            subst (λ ys. Chain (v.id v.at) (p.arenas (v.addr v.at)).slots ctx.local_top ys) e
              chain))
    ]
  ]
