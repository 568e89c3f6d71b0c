-- ===== src/Api/World.antt =====
-- All of the state of atomsnap.c: the allocator, the contexts of threads, the gates, and the calls
-- made of the user's `free_impl`.
use atomsnap.Common.{ℕ, ◌≡◌, Bool, Option, none, some, List, ◌∷◌}
use atomsnap.Common.Family.{update}
use atomsnap.Common.Int.{ℤ}
use atomsnap.Common.Outcome.{ok, stopped, fault, Cmd}
use atomsnap.Pool.Memory.{Version, Context, Pool, load_slot, store_slot}

-- `struct atomsnap_gate`; a NULL function and NULL blocks are `none`.
pub record Gate : Type 0 where
  pub control_block : ℕ
  pub free_impl : Option ℕ
  pub extra_control_blocks : Option (ℕ → ℕ)
  pub num_extra_slots : ℤ

-- One call `free_impl(object, free_context)`.
pub record Callback : Type 0 where
  pub function : ℕ
  pub object : ℕ
  pub free_context : ℕ

-- `contexts` is `g_thread_contexts`, `tid_used` is `g_tid_used`. The thread-local pointer of an OS
-- thread is the index of its context, `gates` has the gates by address, and `callbacks` the calls
-- of `free_impl`, the last one first.
pub record World : Type 0 where
  pub pool : Pool
  pub contexts : ℕ → Option Context
  pub tid_used : ℕ → Bool
  pub once_done : Bool
  pub tls : ℕ → Option ℕ
  pub gates : ℕ → Option Gate
  pub callbacks : List Callback

-- A pointer to a version: the address of the arena, and the index of the slot.
abbrev pub Ptr : Type 0
Ptr = ℕ × ℕ

abbrev pub on_pool : {A : Type 0} → Cmd Pool A → Cmd World A
on_pool m w = elim (m w.pool) [
  | ok a p ↦ ok a (record w { pool = p })
  | stopped ↦ stopped
  | fault ↦ fault
]

abbrev pub load_version : Ptr → Cmd World Version
load_version v = on_pool (load_slot v)

abbrev pub store_version : Ptr → Version → Cmd World (Unit {0})
store_version v version = on_pool (store_slot v version)

-- A gate by its address; one that was freed faults.
unfoldable pub load_gate : ℕ → Cmd World Gate
load_gate g w = elim (w.gates g) [ none ↦ fault | some gate ↦ ok gate w ]

unfoldable pub store_gate : ℕ → Option Gate → Cmd World (Unit {0})
store_gate g gate w = ok tt (record w { gates = update w.gates g gate })

unfoldable pub log_callback : Callback → Cmd World (Unit {0})
log_callback c w = ok tt (record w { callbacks = c ∷ w.callbacks })

-- A command on the allocator that succeeds, in the whole state.
pub on_pool_ok :
    {A : Type 0} (m : Cmd Pool A) (w : World) (a : A) (p : Pool)
    → m w.pool ≡ ok a p
    → on_pool m w ≡ ok a (record w { pool = p })
on_pool_ok m w a p e = rw (e, on_pool)
