-- ===== src/Pool/Shared/Tests.antt =====
-- One arena through a whole round: each slot allocated and freed, then the private list drained, and the
-- shared stack about to be stolen.
use atomsnap.Common.{
  ℕ, zero, suc, ◌+◌, ◌^◌, ◌≤◌, ◌<◌, ◌≡◌, ◌≢◌, refl, sym, subst, ap, ◌∙◌, true, false, List, [], ◌∷◌,
  ◌==◌, if◌then◌else◌, length, arith,
}
use atomsnap.Common.Family.{total, update, update_self}
use atomsnap.Word.Pair.{handle_null, handle_of, depth_of, pushed_top, pushed_top_lem}
use atomsnap.Word.Handle.{slot_idx, slots_per_arena, construct_handle, construct_handle_fields}
use atomsnap.Pool.Memory.{Version, zero_arena}
use atomsnap.Pool.Stack.Defs.{has, Chain, Chain-update, IsStack}
use atomsnap.Pool.Stack.Setup.{setup_arena_stack-Chain, countdown}
use atomsnap.Pool.Shared.Machine.{
  Pc, ready, freeing, linking, swapping, idle, stealing, failed, System, free, load_top, store_link,
  swap_win, look, steal, pop, drain, init, Reach, start, later, link_at, with_link,
}
use atomsnap.Pool.Shared.Invariant.{bit, pushes, IsLocal}
use atomsnap.Pool.Shared.Safety.{slots_conserved, full_stack_idle}

-- The slots from `m + 1` on went through the thread 0, and no thread is in a call.
record At (m : ℕ) (s : System) : Type 0 where
  private_list : Chain 3 s.arena.slots s.local_top (countdown m)
  deep : depth_of s.arena.top_handle + m ≡ 3275
  at_rest : s.thr 0 ≡ ready
  owner_idle : s.owner ≡ idle

abbrev popped : System → (k : ℕ) → System
popped s k = record s {
  arena = with_link s.arena k s.local_top;
  local_top = link_at s.arena k;
  used = update s.used k true;
}

abbrev moved : System → Pc → System
moved s pc = record s { thr = update s.thr 0 pc }

abbrev asked : System → (k : ℕ) → System
asked s k = record s {
  used = update s.used k false;
  thr = update s.thr 0 (freeing k (link_at s.arena k));
}

abbrev stored : System → (k h old : ℕ) → System
stored s k h old = record s {
  arena = with_link s.arena k (handle_of old);
  thr = update s.thr 0 (swapping k h old);
}

abbrev swapped : System → (h old : ℕ) → System
swapped s h old = record s {
  arena = record (s.arena) { top_handle = pushed_top old h };
  thr = update s.thr 0 ready;
}

-- `free_slot` by the thread 0, without interference.
abbrev freed : System → (k : ℕ) → System
freed s k =
    let h = link_at s.arena k in
    let old = s.arena.top_handle in
    swapped (stored (moved (asked s k) (linking k h old)) k h old) h old

free-Reach :
    (s : System) (k : ℕ) → s.thr 0 ≡ ready → s.used k ≡ true → Reach 2 3 s → Reach 2 3 (freed s k)
free-Reach s k at on r =
    let h = link_at s.arena k in
    let old = s.arena.top_handle in
    let r1 : Reach 2 3 (asked s k) = later r (free 0 k (omega arith) at on) in
    let r2 : Reach 2 3 (moved (asked s k) (linking k h old)) =
      later r1 (load_top 0 k h (omega arith) (update_self s.thr 0 (freeing k h))) in
    let r3 : Reach 2 3 (stored (moved (asked s k) (linking k h old)) k h old) =
      later r2
        (store_link 0 k h old (omega arith) (update_self (asked s k).thr 0 (linking k h old))) in
    later r3 (
      swap_win 0 k h old (omega arith)
        (update_self (moved (asked s k) (linking k h old)).thr 0 (swapping k h old)) refl)

deeper :
    (s : System) (m : ℕ)
    → s.local_top < 2 ^ 32
    → depth_of s.arena.top_handle + suc m ≡ 3275
    → depth_of (freed (popped s (suc m)) (suc m)).arena.top_handle + m ≡ 3275
deeper s m small deep =
    rw
      (ap (λ (v : Version). v.link)
        (update_self s.arena.slots (suc m) (record (s.arena.slots (suc m)) { link = s.local_top })))
      (omega (arith, pushed_top_lem s.arena.top_handle s.local_top small, deep))

round :
    (s : System) (m : ℕ)
    → suc m ≤ 3275
    → At (suc m) s
    → Reach 2 3 s
    → (t : System) × At m t × Reach 2 3 t
unfolding countdown
round s m le at r =
    let (word, pos, fits, out, tail) = at.private_list in
    let (in_arena, slot, small, real) = construct_handle_fields 3 (suc m) (omega arith) fits in
    let slot' : slot_idx s.local_top ≡ suc m = ap slot_idx word ∙ slot in
    let r1 : Reach 2 3 (popped s (suc m)) =
      subst (λ k. Reach 2 3 (popped s k)) slot'
        (later r (pop at.owner_idle (omega (arith, word, real)) (omega (arith, slot')))) in
    let t = freed (popped s (suc m)) (suc m) in
    (
      t,
      record {
        private_list =
            Chain-update 3 _ _ (countdown m) (suc m) _ out
              (Chain-update 3 s.arena.slots _ (countdown m) (suc m) _ out tail);
        deep = deeper s m (omega (arith, word, small)) at.deep;
        at_rest = ground arith;
        owner_idle = at.owner_idle;
      },
      free-Reach (popped s (suc m)) (suc m) at.at_rest (update_self s.used (suc m) true) r1,
    )

rounds :
    (m : ℕ) (s : System) → m ≤ 3275 → At m s → Reach 2 3 s → (t : System) × At 0 t × Reach 2 3 t
rounds zero s le at r = (s, at, r)
rounds (suc m) s le at r =
    let (t, at', r') = round s m le at r in rounds m t (omega (arith, le)) at' r'

start-At : At 3275 (init 3)
start-At =
    let (stack, chain, len) = setup_arena_stack-Chain zero_arena 3 (omega arith) in
    record {
      private_list = chain;
      deep = omega (arith, stack.depth);
      at_rest = refl;
      owner_idle = refl;
    }

unfoldable full : (t : System) × At 0 t × Reach 2 3 t
full = rounds 3275 (init 3) (omega arith) start-At start

full_stack_idle_example : ((k : ℕ) → (full.0).used k ≡ false) × ((i : ℕ) → (full.0).thr i ≡ ready)
full_stack_idle_example =
    full_stack_idle 2 3 full.0 (omega arith) full.2 (omega (arith, (full.1).deep))

-- The owner drains its list and sees the slots that thread 0 has freed.
abbrev looking : System
looking = record (record (full.0) { local_top = handle_null }) { owner = stealing }

at_sentinel : (s : System) → At 0 s → s.local_top ≡ construct_handle 3 0
unfolding countdown
at_sentinel s at = at.private_list

not_empty :
    (top : ℕ) (xs : List ℕ) (slots : ℕ → Version)
    → Chain 3 slots top xs
    → length xs ≡ 3275
    → top ≢ construct_handle 3 0
not_empty top [] slots c len e = absurd (omega (arith, len))
not_empty top (x ∷ xs) slots c len e =
    let f = construct_handle_fields 3 x (omega arith) c.2 in
    let g = construct_handle_fields 3 0 (omega arith) (omega arith) in
    omega (arith, ap slot_idx (sym c.0 ∙ e), f.1, g.1, c.1)

looking-Reach : Reach 2 3 looking
looking-Reach =
    let g = construct_handle_fields 3 0 (omega arith) (omega arith) in
    let top = at_sentinel full.0 full.1 in
    let (shared, own_list, stack, local, places, running) =
      slots_conserved 2 3 full.0 (omega arith) full.2 in
    later
      (later full.2 (drain (full.1).owner_idle (omega (arith, top, g.3)) (ap slot_idx top ∙ g.1)))
      (look (full.1).owner_idle refl (
        not_empty _ shared (full.0).arena.slots stack.chain
          (omega (arith, stack.depth, (full.1).deep))))

-- The state after the steal.
abbrev stolen : System
stolen = record looking {
  arena = record (looking.arena) { top_handle = construct_handle 3 0 };
  local_top = handle_of looking.arena.top_handle;
  owner = if handle_of looking.arena.top_handle == construct_handle 3 0 then failed else idle;
}

stolen-Reach : Reach 2 3 stolen
stolen-Reach = later looking-Reach (steal refl)

slots_conserved_example :
    (shared : List ℕ) × (own_list : List ℕ) × IsStack 3 stolen.arena shared
    × IsLocal 3 stolen.arena stolen.local_top own_list
    × ((k : ℕ)
        → 0 < k
        → k < slots_per_arena
        → bit (stolen.used k)
            + bit (has k shared)
            + bit (has k own_list)
            + total (pushes k) 2 stolen.thr
          ≡ 1)
    × (stolen.owner ≢ failed)
slots_conserved_example = slots_conserved 2 3 stolen (omega arith) stolen-Reach
