-- ===== src/Pool/Stack/Setup.antt =====
-- `setup_arena_stack` links all slots but the sentinel into one free list.
use atomsnap.Common.{
  ℕ, zero, suc, ◌+◌, ◌-◌, ◌<◌, ◌≤◌, ◌≡◌, refl, true, false, List, [], ◌∷◌, length, ap, arith,
}
use atomsnap.Common.Family.{update}
use atomsnap.Word.Pair.{handle_null}
use atomsnap.Word.Handle.{max_arenas, slots_per_arena, construct_handle, construct_handle_fields}
use atomsnap.Pool.Memory.{Version, Arena}
use atomsnap.Pool.Arenas.{link_slots, setup_arena_stack}
use atomsnap.Pool.Stack.Defs.{has, Chain, IsStack, Chain-push}

-- n, …, 2, 1
unfoldable pub countdown : ℕ → List ℕ
countdown zero = []
countdown (suc n) = suc n ∷ countdown n

pub has-countdown : (i n : ℕ) → n < i → has i (countdown n) ≡ false
unfolding countdown
has-countdown i zero h = refl
has-countdown i (suc n) h = ground (arith, has-countdown i n)

-- The list has every number from 1 to `n`.
pub has-countdown_inside : (i n : ℕ) → 0 < i → i ≤ n → has i (countdown n) ≡ true
unfolding countdown
has-countdown_inside i zero pos le = absurd (omega arith)
has-countdown_inside i (suc n) pos le = ground (arith, has-countdown_inside i n)

link_slots-Chain :
    (rounds m i id next n : ℕ) (slots : ℕ → Version)
    → i ≡ suc m
    → m + rounds ≡ n
    → n < slots_per_arena
    → Chain id slots next (countdown m)
    → Chain id
        (link_slots rounds i id next slots).0
        (link_slots rounds i id next slots).1
        (countdown n)
unfolding link_slots countdown
link_slots-Chain zero m i id next n slots e sum small c =
    let e' : m ≡ n = omega arith in rw (← e') c
link_slots-Chain (suc rounds) m i id next n slots e sum small c =
    link_slots-Chain rounds (suc m) (i + 1) id (construct_handle id i) n
      (update slots i (record (slots i) { link = next })) (omega arith) (omega arith) small
      (rw (← e) (
        Chain-push id slots next (countdown m) i (record (slots i) { link = next }) refl
          (omega arith) (omega arith) (has-countdown i m (omega arith)) c))

length-countdown : (n : ℕ) → length (countdown n) ≡ n
unfolding countdown
length-countdown zero = refl
length-countdown (suc n) = ap suc (length-countdown n)

sentinel_only :
    (slots : ℕ → Version) (id : ℕ) → Chain id slots (construct_handle id 0) (countdown 0)
unfolding countdown
sentinel_only slots id = refl

-- A new arena has an empty shared stack, and the handle returned heads a free list of all slots but
-- the sentinel, the last one first.
pub setup_arena_stack-Chain :
    (arena : Arena) (id : ℕ)
    → id < max_arenas
    → IsStack id (setup_arena_stack arena id).0 []
      × Chain id
          ((setup_arena_stack arena id).0).slots
          (setup_arena_stack arena id).1
          (countdown (slots_per_arena - 1))
      × (length (countdown (slots_per_arena - 1)) ≡ slots_per_arena - 1)
unfolding setup_arena_stack
setup_arena_stack-Chain arena id small = (
  record {
    chain = omega (arith, construct_handle_fields id 0 small);
    depth = omega (arith, construct_handle_fields id 0 small);
  },
  link_slots-Chain (slots_per_arena - 1) 0 1 id (construct_handle id 0) (slots_per_arena - 1) _
      (omega arith) (omega arith) (omega arith)
      (sentinel_only (update arena.slots 0 (record (arena.slots 0) { link = handle_null })) id),
  length-countdown (slots_per_arena - 1),
)
