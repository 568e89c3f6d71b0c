-- ===== src/Pool/History/Safety.antt =====
-- What every history of allocations and frees keeps.
use atomsnap.Common.{
  ℕ, ◌≡◌, ◌≢◌, ◌⊎◌, inl, inr, refl, sym, subst, ap, ◌∙◌, true, false, none, some, List, [], arith,
}
use atomsnap.Common.Outcome.{Outcome, ok, stopped, fault}
use atomsnap.Word.Pair.{handle_null}
use atomsnap.Pool.Memory.{Pool, Context, Host}
use atomsnap.Pool.Slots.{free_slot, resolve_handle}
use atomsnap.Pool.Alloc.{alloc_slot}
use atomsnap.Pool.Stack.Defs.{has}
use atomsnap.Pool.Owned.Defs.{View, IsOwned}
use atomsnap.Pool.Owned.Take.{gives, refuses}
use atomsnap.Pool.Owned.Init.{Refused}
use atomsnap.Pool.Owned.Alloc.{alloc_slot-Allocates}
use atomsnap.Pool.History.Defs.{
  System, less, IsFair, Step, alloc, free, Unlike, Inv, used_inside, used_resolves, IsFair-IsNew,
}
use atomsnap.Pool.History.Given
use atomsnap.Pool.History.Freed
use atomsnap.Pool.History.Given.{alloc_slot-After}
use atomsnap.Pool.History.Freed.{free_slot-After}
use atomsnap.Api.Threads.{new_context}

-- The histories of a thread that starts with a new context.
pub data Reach (tid : ℕ) (p : Pool) : System → Type 0 where
  start : Reach tid p (record { ctx = new_context tid; pool = p; held = [] })
  later : {s t : System} → Reach tid p s → Step s t → Reach tid p t

-- Nothing is owned at first.
abbrev pub nothing : View
nothing = record {
  n = 0;
  addr = λ _. 0;
  id = λ _. 0;
  used = λ _ _. false;
  shared = λ _. [];
  at = 0;
  own_list = [];
}

pub start-IsOwned : (tid : ℕ) (p : Pool) → IsOwned (new_context tid) p nothing
start-IsOwned tid p = record {
  f = λ _. none;
  g = λ _. 0;
  owned = refl;
  indices = refl;
  table = record {
    room = omega arith;
    addr_at = λ k lt. absurd (omega (arith, lt));
    id_at = λ k lt. absurd (omega (arith, lt));
    id_small = λ k lt. absurd (omega (arith, lt));
    id_old = λ k lt. absurd (omega (arith, lt));
    table_at = λ k lt. absurd (omega (arith, lt));
    empty_at = λ k le lt. refl;
    distinct = λ j k lt lt'. absurd (omega (arith, lt));
  };
  split = record {
    within = omega arith;
    stacks = λ k lt. absurd (omega (arith, lt));
    local = inl (refl, refl);
    one_place = λ k i lt. absurd (omega (arith, lt));
    idle = λ k i more. refl;
    used_at = λ k i on. ground arith;
    used_link = λ k i on. ground arith;
  };
}

Step-Inv : (s t : System) → Inv s → Step s t → Inv t
Step-Inv s t inv (alloc host h ctx' p' fair runs) =
    subst (Given.After s.held) runs (alloc_slot-After s host inv fair)
Step-Inv s t inv (free n h slot p' there at runs) =
    let (slot', at', after) = free_slot-After s n h inv there in
    let same : slot' ≡ slot = ground (arith, at', at) in
    subst (Freed.After s.ctx (less h s.held)) (ap (λ q. free_slot n q s.pool) same ∙ runs) after

pub Reach-Inv : {tid : ℕ} {p : Pool} {s : System} → Reach tid p s → Inv s
Reach-Inv {tid} {p} start = record {
  view = nothing;
  owned = start-IsOwned tid p;
  unlike = tt;
  held_used = λ h on. ground arith;
  used_held = λ k i on. ground arith;
}
Reach-Inv (later {s} {t} r step) = Step-Inv s t (Reach-Inv r) step

-- A command after which something holds has returned.
freed_of :
    (ctx : Context) (held : List ℕ) (o : Outcome Pool (Unit {0}))
    → Freed.After ctx held o
    → (p' : Pool) × (o ≡ ok tt p')
freed_of ctx held (ok u p) a = (p, refl)
freed_of ctx held stopped a = absurd a
freed_of ctx held fault a = absurd a

-- In every history that a thread starts with a new context, where each free is of a handle that is held,
-- the system gives new memory and both calls of `realloc` succeed or both fail: `alloc_slot` returns. It
-- returns a handle that no one holds, or HANDLE_NULL when memory is refused or all arenas are taken.
pub alloc_slot_refines :
    {tid : ℕ} {p : Pool} {s : System} (host : Host)
    → Reach tid p s
    → IsFair host s.pool
    → (h : ℕ) × (ctx' : Context) × (p' : Pool) × (alloc_slot host s.ctx s.pool ≡ ok (h, ctx') p')
      × (((h ≡ handle_null) × Refused host s.pool) ⊎ ((h ≢ handle_null) × (has h s.held ≡ false)))
alloc_slot_refines {s = s} host r fair =
    let inv = Reach-Inv r in
    elim (alloc_slot-Allocates host fair.both s.ctx s.pool inv.view inv.owned
      (IsFair-IsNew inv.owned host fair)) [
        | gives h ctx' p' v' runs o' ext given ↦ (
          h,
          ctx',
          p',
          runs,
          inr (
            Given.given-ne_null s inv h ctx' p' v' o' ext given,
            Given.not_held s inv h ctx' p' v' o' ext given,
          ),
        )
        | refuses ctx' p' v' runs o' ext same excuse ↦
            (handle_null, ctx', p', runs, inl (refl, excuse))
      ]

-- In every such history a handle that is held resolves to a slot, and `free_slot` of that slot returns,
-- however often its weak compare-exchange fails for no reason.
pub free_slot_returns :
    {tid : ℕ} {p : Pool} {s : System} (n h : ℕ)
    → Reach tid p s
    → has h s.held ≡ true
    → (slot : ℕ × ℕ) × (p' : Pool) × (resolve_handle s.pool.g_arena_table h ≡ some slot)
      × (free_slot n slot s.pool ≡ ok tt p')
free_slot_returns {s = s} n h r there =
    let (slot, at, after) = free_slot-After s n h (Reach-Inv r) there in
    let (p', runs) = freed_of s.ctx (less h s.held) (free_slot n slot s.pool) after in
    (slot, p', at, runs)

-- In every such history no handle is held twice, and two handles that are held name different slots.
pub held_apart :
    {tid : ℕ} {p : Pool} {s : System} (h1 h2 : ℕ) (slot : ℕ × ℕ)
    → Reach tid p s
    → has h1 s.held ≡ true
    → has h2 s.held ≡ true
    → resolve_handle s.pool.g_arena_table h1 ≡ some slot
    → resolve_handle s.pool.g_arena_table h2 ≡ some slot
    → Unlike s.held × (h1 ≡ h2)
held_apart h1 h2 slot r there1 there2 at1 at2 =
    let inv = Reach-Inv r in
    let (k1, i1, on1, named1) = inv.held_used h1 there1 in
    let (k2, i2, on2, named2) = inv.held_used h2 there2 in
    let same =
      sym (used_resolves inv.owned k1 i1 h1 on1 named1)
      ∙ at1
      ∙ sym at2
      ∙ used_resolves inv.owned k2 i2 h2 on2 named2 in
    let (lt1, fits1) = used_inside inv.owned k1 i1 on1 in
    let (lt2, fits2) = used_inside inv.owned k2 i2 on2 in
    let same_k : k1 ≡ k2 = inv.owned.table.distinct k1 k2 lt1 lt2 (ground arith) in
    let same_i : i1 ≡ i2 = ground arith in (inv.unlike, named1 ∙ rw (same_k, same_i) (sym named2))
