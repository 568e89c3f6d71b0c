-- ===== src/Pool/Memory.antt =====
-- The memory of the allocator in atomsnap.c: version slots, arenas, the global arena table, and the
-- context of a thread. Pointers to arenas and to user objects are numbers.
use atomsnap.Common.{ℕ, Bool, Option, none, some, ltb, if◌then◌else◌}
use atomsnap.Common.Family.{update}
use atomsnap.Common.Outcome.{ok, fault, Cmd}
use atomsnap.Word.Handle.{slots_per_arena}

-- `struct atomsnap_version`. `self_handle` and `next_handle` are one word of a union, `link`; a
-- NULL gate is `none`.
pub record Version : Type 0 where
  pub object : ℕ
  pub free_context : ℕ
  pub gate : Option ℕ
  pub inner_state : ℕ
  pub link : ℕ

-- `struct memory_arena`
pub record Arena : Type 0 where
  pub top_handle : ℕ
  pub slots : ℕ → Version

-- A vector that `realloc` gives: its entries, of which NULL has none, or freed behind a pointer that still
-- names it.
pub data Block (A : Type 0) : Type 0 where
  live : (size : ℕ) → (ℕ → A) → Block A
  dangling : Block A

-- `struct thread_context`
pub record Context : Type 0 where
  pub thread_id : ℕ
  pub owned_arenas : Block (Option ℕ)
  pub arena_indices : Block ℕ
  pub active_arena_count : ℕ
  pub vector_capacity : ℕ
  pub local_top : ℕ
  pub alloc_count : ℕ

-- The arenas by address, `g_arena_table` and `g_global_arena_cnt`.
pub record Pool : Type 0 where
  pub arenas : ℕ → Arena
  pub g_arena_table : ℕ → Option ℕ
  pub g_global_arena_cnt : ℕ

-- What the system answers during one call: the address that `aligned_alloc` returns, whether the
-- calls of `realloc`, `calloc`, `pthread_setspecific` and `pthread_key_create` succeed, what
-- `madvise` leaves in an arena, and how often a weak compare-exchange fails for no reason.
pub record Host : Type 0 where
  pub aligned_alloc : Option ℕ
  pub realloc_arenas : Bool
  pub realloc_indices : Bool
  pub calloc : Option ℕ
  pub calloc_blocks : Bool
  pub setspecific : Bool
  pub key_create : Bool
  pub madvise : Arena → Arena
  pub spurious : ℕ

abbrev pub zero_version : Version
zero_version = record { object = 0; free_context = 0; gate = none; inner_state = 0; link = 0 }

-- Memory after `memset(arena, 0, ...)`.
abbrev pub zero_arena : Arena
zero_arena = record { top_handle = 0; slots = λ _. zero_version }

-- An entry of a vector of the context, a fault beyond its end.
unfoldable pub entry : {A : Type 0} → Block A → ℕ → Cmd Pool A
entry (live size f) i p = if ltb i size then ok (f i) p else fault
entry dangling i p = fault

unfoldable pub store_entry : {A : Type 0} → Block A → ℕ → A → Cmd Pool (Block A)
store_entry (live size f) i a p = if ltb i size then ok (live size (update f i a)) p else fault
store_entry dangling i a p = fault

-- The arena that a pointer names; NULL faults.
abbrev pub deref : Option ℕ → Cmd Pool ℕ
deref none p = fault
deref (some a) p = ok a p

abbrev pub load_arena : ℕ → Cmd Pool Arena
load_arena a p = ok (p.arenas a) p

abbrev pub store_arena : ℕ → Arena → Cmd Pool (Unit {0})
store_arena a arena p = ok tt (record p { arenas = update p.arenas a arena })

-- `arena->slots[i]`, a fault beyond the array.
unfoldable pub load_slot : ℕ × ℕ → Cmd Pool Version
load_slot (a, i) p = if ltb i slots_per_arena then ok ((p.arenas a).slots i) p else fault

unfoldable pub store_slot : ℕ × ℕ → Version → Cmd Pool (Unit {0})
store_slot (a, i) v p =
    if ltb i slots_per_arena
    then ok tt (record p {
      arenas = update p.arenas a (record (p.arenas a) { slots = update (p.arenas a).slots i v });
    })
    else fault
