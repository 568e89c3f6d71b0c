-- ===== src/Pool/Owned/Defs.antt =====
-- What a thread owns: its arenas by their place in the vectors, and where each slot is.
use atomsnap.Common.{
  ℕ, ◌+◌, ◌≤◌, ◌<◌, ◌≡◌, ◌⊎◌, Bool, true, false, ◌&&◌, Option, none, some, List, [], ◌==◌,
}
use atomsnap.Word.Pair.{handle_null}
use atomsnap.Word.Handle.{max_arenas, slots_per_arena, construct_handle}
use atomsnap.Pool.Memory.{live, Context, Pool}
use atomsnap.Pool.Stack.Defs.{has, Chain, IsStack}

-- The arena at place `k` of the vectors has the address `addr k` and the index `id k`, and its shared
-- stack is `shared k`; the first `n` places are filled. The private list `own_list` is in the arena at
-- place `at`. `used k i` says that slot `i` of that arena is allocated.
pub record View : Type 0 where
  pub n : ℕ
  pub addr : ℕ → ℕ
  pub id : ℕ → ℕ
  pub used : ℕ → ℕ → Bool
  pub shared : ℕ → List ℕ
  pub at : ℕ
  pub own_list : List ℕ

abbrev pub bit : Bool → ℕ
bit true = 1
bit false = 0

-- In how many places slot `i` of the arena at place `k` is.
abbrev pub places : View → (k i : ℕ) → ℕ
places v k i = bit (v.used k i) + bit (has i (v.shared k)) + bit ((v.at == k) && has i v.own_list)

abbrev pub link_of : Pool → (a i : ℕ) → ℕ
link_of p a i = ((p.arenas a).slots i).link

-- The private list: none, or one in an active arena, or the sentinel of any owned arena.
abbrev pub IsLocal : (top active : ℕ) → Pool → View → Type 0
IsLocal top active p v =
    ((top ≡ handle_null) × (v.own_list ≡ []))
    ⊎ ((v.at < v.n)
        × Chain (v.id v.at) (p.arenas (v.addr v.at)).slots top v.own_list
        × ((i : ℕ) → has i v.own_list ≡ true → v.at < active))

-- The first `n` places of the vectors and of the global table.
pub record IsTable (f : ℕ → Option ℕ) (g : ℕ → ℕ) (cap : ℕ) (p : Pool) (n : ℕ) (addr id : ℕ → ℕ)
    : Type 0 where
  pub room : n ≤ cap
  pub addr_at : (k : ℕ) → k < n → f k ≡ some (addr k)
  pub id_at : (k : ℕ) → k < n → g k ≡ id k
  pub id_small : (k : ℕ) → k < n → id k < max_arenas
  pub id_old : (k : ℕ) → k < n → id k < p.g_global_arena_cnt
  pub table_at : (k : ℕ) → k < n → p.g_arena_table (id k) ≡ some (addr k)
  pub empty_at : (k : ℕ) → n ≤ k → k < cap → f k ≡ none
  pub distinct : (j k : ℕ) → j < n → k < n → addr j ≡ addr k → j ≡ k

-- Where the slots are: each usable slot of an active arena is used, or on the shared stack, or on the
-- private list, and in one of these places only; no slot of another arena is used. A used slot holds
-- its own handle.
pub record IsSplit (top active : ℕ) (p : Pool) (v : View) : Type 0 where
  pub within : active ≤ v.n
  pub stacks : (k : ℕ) → k < active → IsStack (v.id k) (p.arenas (v.addr k)) (v.shared k)
  pub local : IsLocal top active p v
  pub one_place : (k i : ℕ) → k < active → 0 < i → i < slots_per_arena → places v k i ≡ 1
  pub idle : (k i : ℕ) → active ≤ k → v.used k i ≡ false
  pub used_at : (k i : ℕ) → v.used k i ≡ true → (0 < i) × (i < slots_per_arena)
  pub used_link :
      (k i : ℕ) → v.used k i ≡ true → link_of p (v.addr k) i ≡ construct_handle (v.id k) i

pub record IsOwned (ctx : Context) (p : Pool) (v : View) : Type 0 where
  pub f : ℕ → Option ℕ
  pub g : ℕ → ℕ
  pub owned : ctx.owned_arenas ≡ live ctx.vector_capacity f
  pub indices : ctx.arena_indices ≡ live ctx.vector_capacity g
  pub table : IsTable f g ctx.vector_capacity p v.n v.addr v.id
  pub split : IsSplit ctx.local_top ctx.active_arena_count p v

-- The same places and more.
pub record Extends (v v' : View) : Type 0 where
  pub more : v.n ≤ v'.n
  pub same_addr : (k : ℕ) → k < v.n → v'.addr k ≡ v.addr k
  pub same_id : (k : ℕ) → k < v.n → v'.id k ≡ v.id k
