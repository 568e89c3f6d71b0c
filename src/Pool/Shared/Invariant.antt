-- ===== src/Pool/Shared/Invariant.antt =====
-- Where the slots of one arena are in every reachable state.
use atomsnap.Common.{ℕ, ◌+◌, ◌<◌, ◌≡◌, ◌≢◌, ◌⊎◌, Bool, true, false, List, [], ◌==◌}
use atomsnap.Common.Family.{total}
use atomsnap.Word.Pair.{handle_null, handle_of}
use atomsnap.Word.Handle.{slots_per_arena, construct_handle}
use atomsnap.Pool.Memory.{Arena}
use atomsnap.Pool.Stack.Defs.{has, Chain, IsStack}
use atomsnap.Pool.Shared.Machine.{
  Pc, ready, freeing, linking, swapping, OwnerPc, idle, stealing, failed, System, link_at,
}

abbrev pub bit : Bool → ℕ
bit true = 1
bit false = 0

-- Whether a thread is pushing the slot.
abbrev pub pushes : ℕ → Pc → ℕ
pushes k ready = 0
pushes k (freeing slot h) = bit (slot == k)
pushes k (linking slot h old) = bit (slot == k)
pushes k (swapping slot h old) = bit (slot == k)

abbrev pub IsUsable : ℕ → Type 0
IsUsable k = (0 < k) × (k < slots_per_arena)

-- What thread `i` knows where it stands.
abbrev pub Stands : (n id i : ℕ) → Arena → Pc → Type 0
Stands n id i arena ready = Unit {0}
Stands n id i arena (freeing k h) = (i < n) × IsUsable k × (h ≡ construct_handle id k)
Stands n id i arena (linking k h old) = (i < n) × IsUsable k × (h ≡ construct_handle id k)
Stands n id i arena (swapping k h old) =
    (i < n) × IsUsable k × (h ≡ construct_handle id k) × (link_at arena k ≡ handle_of old)

-- The private list of the owner.
abbrev pub IsLocal : (id : ℕ) → Arena → (top : ℕ) → List ℕ → Type 0
IsLocal id arena top ys = ((top ≡ handle_null) × (ys ≡ [])) ⊎ Chain id arena.slots top ys

abbrev pub OwnerStands : (id : ℕ) → Arena → (top : ℕ) → OwnerPc → Type 0
OwnerStands id arena top idle = Unit {0}
OwnerStands id arena top stealing =
    (top ≡ handle_null) × (handle_of arena.top_handle ≢ construct_handle id 0)
OwnerStands id arena top failed = ⊥

pub record Inv (n id : ℕ) (s : System) : Type 0 where
  pub shared : List ℕ
  pub own_list : List ℕ
  pub stack : IsStack id s.arena shared
  pub local : IsLocal id s.arena s.local_top own_list
  pub one_place :
      (k : ℕ)
      → 0 < k
      → k < slots_per_arena
      → bit (s.used k) + bit (has k shared) + bit (has k own_list) + total (pushes k) n s.thr ≡ 1
  pub used_at : (k : ℕ) → s.used k ≡ true → IsUsable k
  pub used_link : (k : ℕ) → s.used k ≡ true → link_at s.arena k ≡ construct_handle id k
  pub stands : (i : ℕ) → Stands n id i s.arena (s.thr i)
  pub apart : (i j k : ℕ) → pushes k (s.thr i) ≡ 1 → pushes k (s.thr j) ≡ 1 → i ≡ j
  pub owner_stands : OwnerStands id s.arena s.local_top s.owner
