-- ===== src/Pool/Owned/Alloc.antt =====
-- `alloc_slot`: a slot that was not in use, or a refusal of the system.
use atomsnap.Common.{
  ℕ, ◌+◌, ◌-◌, ◌%◌, ◌≤◌, ◌≡◌, ◌≢◌, ◌⊎◌, inl, inr, refl, sym, subst, ap, ◌∙◌, false, none, [], arith,
  ◌==◌, ==_ne, Bool-cases,
}
use atomsnap.Word.Pair.{u64, handle_null}
use atomsnap.Word.Handle.{max_arenas, slots_per_arena, construct_handle}
use atomsnap.Pool.Memory.{Pool, Context, Host}
use atomsnap.Pool.Slots.{pop_local}
use atomsnap.Pool.Alloc.{steal_or_init, take_slot, alloc_slot}
use atomsnap.Pool.Stack.Setup.{countdown}
use atomsnap.Pool.Owned.Defs.{View, IsOwned, Extends}
use atomsnap.Pool.Owned.Pop.{take_top, use_slot}
use atomsnap.Pool.Owned.Take.{Allocates, gives, refuses, Extends-refl, pop_local_cases}
use atomsnap.Pool.Owned.Steal.{all_empty, got, steal_loop_cases}
use atomsnap.Pool.Owned.Reclaim.{reclaim-IsOwned}
use atomsnap.Pool.Owned.Init.{Refused, started, failed, IsNew, init_arena_cases}

module _ (host : Host) (both : host.realloc_arenas ≡ host.realloc_indices) where
  -- The slot that `pop_local` takes from a list that was made for it.
  pops :
      (excuse : Type 0) (ctx : Context) (p : Pool) (v v' : View)
      → IsOwned ctx p v'
      → Extends v v'
      → v'.used ≡ v.used
      → v'.own_list ≢ []
      → Allocates excuse v (pop_local ctx p)
  pops excuse ctx p v v' o ext same more = elim (pop_local_cases o) [
    | inl d ↦ absurd (more d.empty)
    | inr q ↦
        gives (construct_handle (v'.id v'.at) q.i) q.ctx' q.p' (take_top v' q.i q.xs) q.runs q.owned
          (record { more = ext.more; same_addr = ext.same_addr; same_id = ext.same_id })
          (record {
            k = q.given.k;
            i = q.given.i;
            handle_is = q.given.handle_is;
            resolves = q.given.resolves;
            was_free = ap (λ u. u q.given.k q.given.i) (sym same) ∙ q.given.was_free;
            now_used =
                λ j m. q.given.now_used j m ∙ ap (λ u. use_slot u q.given.k q.given.i j m) same;
          })
  ]

  countdown-ne : countdown (slots_per_arena - 1) ≢ []
  unfolding countdown
  countdown-ne e = ground arith

  -- Step 3: the stacks were empty, and a new arena is asked for.
  init-Allocates :
      (ctx : Context) (p : Pool) (v : View)
      → IsOwned ctx p v
      → v.own_list ≡ []
      → ctx.local_top ≡ handle_null
      → IsNew host v
      → Allocates (Refused host p) v (steal_or_init host ctx none p)
  unfolding steal_or_init
  init-Allocates ctx p v o empty drained new =
      elim (init_arena_cases host ctx p v o empty drained both new) [
        | started ctx' p' v' runs o' ext same list ↦
            rw runs
              (pops (Refused host p) ctx' p' v v' o' ext same (λ e. countdown-ne (sym list ∙ e)))
        | failed ctx' p' runs o' why ↦
            refuses ctx' p' v (rw runs refl) o' (Extends-refl v) (λ j m. refl) why
      ]

  pub take_slot-Allocates :
      (ctx : Context) (p : Pool) (v : View)
      → IsOwned ctx p v
      → IsNew host v
      → Allocates (Refused host p) v (take_slot host ctx p)
  unfolding take_slot
  take_slot-Allocates ctx p v o new = elim (pop_local_cases o) [
    | inl d ↦ elim (steal_loop_cases d.owned refl d.empty ctx.active_arena_count 0 (omega arith)) [
      | all_empty runs ↦
          rw (d.runs, runs)
            (init-Allocates (record ctx { local_top = handle_null }) p v d.owned d.empty refl new)
      | got h ctx' p' v' runs o' ext given ↦
          gives h ctx' p' v' (rw (d.runs, runs) (unfold steal_or_init in refl)) o' ext given
    ]
    | inr q ↦
        gives (construct_handle (v.id v.at) q.i) q.ctx' q.p' (take_top v q.i q.xs)
          (rw (q.runs, ==_ne (construct_handle (v.id v.at) q.i) handle_null q.not_null) refl)
          q.owned (record { more = omega arith; same_addr = λ j l. refl; same_id = λ j l. refl })
          q.given
  ]

  -- The count of calls is no part of what is owned.
  counted-IsOwned :
      (ctx : Context) (p : Pool) (v : View) (c : ℕ)
      → IsOwned ctx p v
      → IsOwned (record ctx { alloc_count = c }) p v
  counted-IsOwned ctx p v c o = record {
    f = o.f;
    g = o.g;
    owned = o.owned;
    indices = o.indices;
    table = o.table;
    split = o.split;
  }

  -- `alloc_slot` on what a thread owns gives the handle of a slot that was not in use, and that slot is
  -- then the one more in use; or the system refuses, and all in use stays as it is. What the thread
  -- owns is well formed after it. Both calls of `realloc` succeed or both fail, and memory that the
  -- system gives is new.
  pub alloc_slot-Allocates :
      (ctx : Context) (p : Pool) (v : View)
      → IsOwned ctx p v
      → IsNew host v
      → Allocates (Refused host p) v (alloc_slot host ctx p)
  unfolding alloc_slot
  alloc_slot-Allocates ctx p v o new =
      let counted = record ctx { alloc_count = u64 (ctx.alloc_count + 1) } in
      let oc : IsOwned counted p v = counted-IsOwned ctx p v (u64 (ctx.alloc_count + 1)) o in
      elim (Bool-cases (u64 (ctx.alloc_count + 1) % slots_per_arena == 0)) [
        | inl now ↦
            let r = reclaim-IsOwned host counted p v oc in
            rw (now, r.runs)
              (subst
                (λ (c : ℕ).
                  Allocates
                    ((host.aligned_alloc ≡ none) ⊎ (host.realloc_arenas ≡ false) ⊎ (max_arenas ≤ c))
                    v (take_slot host r.ctx' r.p'))
                r.same_count (take_slot-Allocates r.ctx' r.p' v r.owned new))
        | inr later ↦ rw later (take_slot-Allocates counted p v oc new)
      ]
