-- ===== src/Pool/Shared/Frame.antt =====
-- What does not depend on the top or on one link of an arena.
use atomsnap.Common.{ℕ, ◌≡◌, ◌⊎◌, inl, inr, false, List, arith}
use atomsnap.Pool.Memory.{Arena}
use atomsnap.Pool.Stack.Defs.{has, Chain-update}
use atomsnap.Pool.Shared.Machine.{
  Pc, ready, freeing, linking, swapping, OwnerPc, idle, stealing, failed, with_link,
}
use atomsnap.Pool.Shared.Invariant.{pushes, Stands, IsLocal, OwnerStands}

-- A thread knows nothing of the top.
pub Stands-top :
    (n id j : ℕ) (arena : Arena) (top : ℕ) (pc : Pc)
    → Stands n id j arena pc
    → Stands n id j (record arena { top_handle = top }) pc
Stands-top n id j arena top ready st = st
Stands-top n id j arena top (freeing k h) st = st
Stands-top n id j arena top (linking k h old) st = st
Stands-top n id j arena top (swapping k h old) st = st

-- A thread knows the link of the slot that it pushes.
pub Stands-linked :
    (n id j : ℕ) (arena : Arena) (k h : ℕ) (pc : Pc)
    → pushes k pc ≡ 0
    → Stands n id j arena pc
    → Stands n id j (with_link arena k h) pc
Stands-linked n id j arena k h ready none_there st = st
Stands-linked n id j arena k h (freeing k' h') none_there st = st
Stands-linked n id j arena k h (linking k' h' old) none_there st = st
Stands-linked n id j arena k h (swapping k' h' old) none_there st = ground arith

-- The private list does not change with the link of a slot that it does not have.
pub IsLocal-linked :
    (id : ℕ) (arena : Arena) (top : ℕ) (ys : List ℕ) (k h : ℕ)
    → has k ys ≡ false
    → IsLocal id arena top ys
    → IsLocal id (with_link arena k h) top ys
IsLocal-linked id arena top ys k h out (inl e) = inl e
IsLocal-linked id arena top ys k h out (inr c) = inr (Chain-update id arena.slots top ys k _ out c)

-- The owner reads no link.
pub owner_linked :
    (id : ℕ) (arena : Arena) (top k h : ℕ) (o : OwnerPc)
    → OwnerStands id arena top o
    → OwnerStands id (with_link arena k h) top o
owner_linked id arena top k h idle o = o
owner_linked id arena top k h stealing o = o
owner_linked id arena top k h failed o = o

pub pushes_bit : (k : ℕ) (pc : Pc) → (pushes k pc ≡ 0) ⊎ (pushes k pc ≡ 1)
pushes_bit k pc = ground arith
