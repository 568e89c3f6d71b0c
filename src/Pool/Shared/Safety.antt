-- ===== src/Pool/Shared/Safety.antt =====
-- What holds in every reachable state of one arena.
use atomsnap.Common.{ℕ, ◌+◌, ◌-◌, ◌<◌, ◌≡◌, ◌≢◌, refl, subst, ap, true, false, List, [], inr, arith}
use atomsnap.Common.Family.{total, le-total, total-eq-zero}
use atomsnap.Word.Pair.{depth_of}
use atomsnap.Word.Handle.{max_arenas, slots_per_arena}
use atomsnap.Pool.Memory.{zero_arena}
use atomsnap.Pool.Stack.Defs.{has, IsStack}
use atomsnap.Pool.Stack.Setup.{has-countdown_inside, setup_arena_stack-Chain, countdown}
use atomsnap.Pool.Reclaim.{full-has}
use atomsnap.Pool.Shared.Machine.{
  Pc, ready, freeing, linking, swapping, failed, System, Step, free, load_top, store_link, swap_win,
  swap_lose, look, steal, pop, drain, init, Reach, start, later,
}
use atomsnap.Pool.Shared.Invariant.{bit, pushes, IsUsable, Stands, IsLocal, OwnerStands, Inv}
use atomsnap.Pool.Shared.Pushes.{moved-Inv, free-Inv, store_link-Inv, swap_win-Inv}
use atomsnap.Pool.Shared.Owner.{look-Inv, steal-Inv, pop-Inv, drain-Inv}

module _ (n id : ℕ) (small : id < max_arenas) where
  start-Inv : Inv n id (init id)
  start-Inv =
      let (stack, chain, len) = setup_arena_stack-Chain zero_arena id small in
      record {
        shared = [];
        own_list = countdown (slots_per_arena - 1);
        stack = stack;
        local = inr chain;
        one_place = λ k pos fits. omega (
          arith,
          ap bit (has-countdown_inside k 3275 pos (omega arith)),
          total-eq-zero (pushes k) n (λ _. ready) (λ _. refl),
        );
        used_at = λ k on. ground arith;
        used_link = λ k on. ground arith;
        stands = λ i. tt;
        apart = λ i j k on. absurd (omega (arith, on));
        owner_stands = tt;
      }

  Step-Inv : (s t : System) → Inv n id s → Step n id s t → Inv n id t
  Step-Inv s t inv (free i k lt at on) = free-Inv n id s inv i lt k at on
  Step-Inv s t inv (load_top i k h lt at) =
      moved-Inv n id s inv i lt (linking k h s.arena.top_handle) (λ m. ground arith)
        (ground (arith, inv.stands i))
  Step-Inv s t inv (store_link i k h old lt at) = store_link-Inv n id s inv i lt k h old at
  Step-Inv s t inv (swap_win i k h old lt at same) =
      swap_win-Inv n id s inv i lt k h old small at same
  Step-Inv s t inv (swap_lose i k h old lt at) =
      moved-Inv n id s inv i lt (linking k h s.arena.top_handle) (λ m. ground arith)
        (ground (arith, inv.stands i))
  Step-Inv s t inv (look at drained more) = look-Inv n id small s inv drained more
  Step-Inv s t inv (steal at) = steal-Inv n id small s inv at
  Step-Inv s t inv (pop at real at_slot) = pop-Inv n id small s inv at real at_slot
  Step-Inv s t inv (drain at real at_zero) = drain-Inv n id small s inv at at_zero real

  pub Reach-Inv : (s : System) → Reach n id s → Inv n id s
  Reach-Inv s start = start-Inv
  Reach-Inv t (later {s} r step) = Step-Inv s t (Reach-Inv s r) step

-- In every reachable state the shared stack is a list of distinct slots with as many in its depth field,
-- the private list is one too or is drained, and each slot but the sentinel is in use, on the shared
-- stack, on the private list or being pushed by one thread, and is in one of these places only; and the
-- assertion of `alloc_slot` that the stolen batch is not empty has not failed.
pub slots_conserved :
    (n id : ℕ) (s : System)
    → id < max_arenas
    → Reach n id s
    → (shared : List ℕ) × (own_list : List ℕ) × IsStack id s.arena shared
      × IsLocal id s.arena s.local_top own_list
      × ((k : ℕ)
          → 0 < k
          → k < slots_per_arena
          → bit (s.used k) + bit (has k shared) + bit (has k own_list) + total (pushes k) n s.thr
            ≡ 1)
      × (s.owner ≢ failed)
slots_conserved n id s small r =
    let inv = Reach-Inv n id small s r in
    (
      inv.shared,
      inv.own_list,
      inv.stack,
      inv.local,
      inv.one_place,
      λ e. subst (OwnerStands id s.arena s.local_top) e inv.owner_stands,
    )

-- A thread that pushes no slot is in no call.
in_no_call :
    (n id i : ℕ) (s : System) (pc : Pc)
    → Stands n id i s.arena pc
    → ((k : ℕ) → i < n → IsUsable k → pushes k pc ≡ 0)
    → pc ≡ ready
in_no_call n id i s ready st none_there = refl
in_no_call n id i s (freeing k h) st none_there = ground (arith, none_there k)
in_no_call n id i s (linking k h old) st none_there = ground (arith, none_there k)
in_no_call n id i s (swapping k h old) st none_there = ground (arith, none_there k)

-- When the depth field counts all slots but the sentinel, as `reclaim_last_arena_if_empty` asks of it,
-- no slot is in use and no thread is in `free_slot`.
pub full_stack_idle :
    (n id : ℕ) (s : System)
    → id < max_arenas
    → Reach n id s
    → depth_of s.arena.top_handle ≡ slots_per_arena - 1
    → ((k : ℕ) → s.used k ≡ false) × ((i : ℕ) → s.thr i ≡ ready)
full_stack_idle n id s small r full =
    let inv = Reach-Inv n id small s r in
    let there : (k : ℕ) → 0 < k → k < slots_per_arena → has k inv.shared ≡ true =
      λ k pos fits. full-has id k s.arena inv.shared inv.stack full pos fits in
    (
      λ k. ground (arith, inv.used_at k, inv.one_place k, there k),
      λ i.
          in_no_call n id i s (s.thr i) (inv.stands i) (λ k lt usable.
            ground (arith, inv.one_place k, there k, le-total (pushes k) n s.thr i)),
    )
