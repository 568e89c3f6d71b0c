-- ===== src/Pool/History/Defs.antt =====
-- Histories of `alloc_slot` by one thread and `free_slot` by any, against the handles that are held.
use atomsnap.Common.{
  ℕ, ◌<◌, ◌≡◌, ◌≢◌, sym, ap, ◌∙◌, true, false, some, List, [], ◌∷◌, arith, ◌==◌, if◌then◌else◌,
}
use atomsnap.Common.Outcome.{ok}
use atomsnap.Word.Pair.{handle_null}
use atomsnap.Word.Handle.{
  slots_per_arena, arena_idx, slot_idx, construct_handle, construct_handle_fields,
}
use atomsnap.Pool.Memory.{Pool, Context, Host}
use atomsnap.Pool.Slots.{free_slot, resolve_handle}
use atomsnap.Pool.Alloc.{alloc_slot}
use atomsnap.Pool.Stack.Defs.{has}
use atomsnap.Pool.Stack.Pop.{resolve_handle-construct}
use atomsnap.Pool.Owned.Defs.{View, IsOwned}
use atomsnap.Pool.Owned.Init.{IsNew}

-- The thread's context, the memory, and the handles that were given and not freed since.
pub record System : Type 0 where
  pub ctx : Context
  pub pool : Pool
  pub held : List ℕ

-- The list less the first `h`.
abbrev pub less : ℕ → List ℕ → List ℕ
less h [] = []
less h (x ∷ xs) = if x == h then xs else x ∷ less h xs

-- The handles that are held after `alloc_slot` returned `h`.
abbrev pub with_given : ℕ → List ℕ → List ℕ
with_given h held = if h == handle_null then held else h ∷ held

-- The system gives memory that no entry of the global table names, and the two calls of `realloc`
-- succeed or fail together.
pub record IsFair (host : Host) (p : Pool) : Type 0 where
  pub new : (a id : ℕ) → host.aligned_alloc ≡ some a → p.g_arena_table id ≢ some a
  pub both : host.realloc_arenas ≡ host.realloc_indices

-- A call of `alloc_slot` by the thread, or of `free_slot` by any thread on a handle that is held.
pub data Step (s : System) : System → Type 0 where
  alloc :
      (host : Host) (h : ℕ) (ctx' : Context) (p' : Pool)
      → IsFair host s.pool
      → alloc_slot host s.ctx s.pool ≡ ok (h, ctx') p'
      → Step s (record { ctx = ctx'; pool = p'; held = with_given h s.held })
  free :
      (spurious h : ℕ) (slot : ℕ × ℕ) (p' : Pool)
      → has h s.held ≡ true
      → resolve_handle s.pool.g_arena_table h ≡ some slot
      → free_slot spurious slot s.pool ≡ ok tt p'
      → Step s (record { ctx = s.ctx; pool = p'; held = less h s.held })

-- No handle stands twice.
abbrev pub Unlike : List ℕ → Type 0
Unlike [] = Unit {0}
Unlike (h ∷ hs) = (has h hs ≡ false) × Unlike hs

-- The handles that are held name the slots in use.
pub record Inv (s : System) : Type 0 where
  pub view : View
  pub owned : IsOwned s.ctx s.pool view
  pub unlike : Unlike s.held
  pub held_used :
      (h : ℕ)
      → has h s.held ≡ true
      → (k : ℕ) × (i : ℕ) × (view.used k i ≡ true) × (h ≡ construct_handle (view.id k) i)
  pub used_held :
      (k i : ℕ) → view.used k i ≡ true → has (construct_handle (view.id k) i) s.held ≡ true

-- A handle names one slot.
module _ {ctx : Context} {p : Pool} {v : View} (o : IsOwned ctx p v) where
  open o use {table, split}

  pub used_inside : (k i : ℕ) → v.used k i ≡ true → (k < v.n) × (i < slots_per_arena)
  used_inside k i on = ground (arith, split.idle k i, split.within, split.used_at k i)

  pub one_slot :
      (j m k i : ℕ)
      → v.used j m ≡ true
      → v.used k i ≡ true
      → construct_handle (v.id j) m ≡ construct_handle (v.id k) i
      → (j ≡ k) × (m ≡ i)
  one_slot j m k i on_j on_k e =
      let (lj, sj) = used_inside j m on_j in
      let (lk, sk) = used_inside k i on_k in
      let fj = construct_handle_fields (v.id j) m (table.id_small j lj) sj in
      let fk = construct_handle_fields (v.id k) i (table.id_small k lk) sk in
      let same_id : v.id j ≡ v.id k = sym fj.0 ∙ ap arena_idx e ∙ fk.0 in
      let same_addr : v.addr j ≡ v.addr k =
        ground (arith, table.table_at j lj, table.table_at k lk) in
      (table.distinct j k lj lk same_addr, sym fj.1 ∙ ap slot_idx e ∙ fk.1)

  pub IsFair-IsNew : (host : Host) → IsFair host p → IsNew host v
  IsFair-IsNew host fair a memory k lt e =
      fair.new a (v.id k) memory (table.table_at k lt ∙ ap some e)

  pub used_resolves :
      (k i h : ℕ)
      → v.used k i ≡ true
      → h ≡ construct_handle (v.id k) i
      → resolve_handle p.g_arena_table h ≡ some (v.addr k, i)
  used_resolves k i h on named =
      let (lt, fits) = used_inside k i on in
      ap (resolve_handle p.g_arena_table) named
      ∙ resolve_handle-construct p.g_arena_table (v.id k) i (v.addr k) (table.id_small k lt) fits
          (table.table_at k lt)
