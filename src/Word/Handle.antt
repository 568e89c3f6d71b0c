-- ===== src/Word/Handle.antt =====
-- 32-bit handles, `atomsnap_handle_t` of atomsnap.c: 12 bits of slot index below 20 bits of arena
-- index.
use atomsnap.Common.{ℕ, ◌+◌, ◌*◌, ◌/◌, ◌%◌, ◌^◌, ◌≡◌, ◌≢◌, ◌<◌, arith}
use atomsnap.Word.Pair.{handle_null}

abbrev pub max_threads : ℕ
max_threads = 1048576

abbrev pub max_arenas : ℕ
max_arenas = 1048576

abbrev pub slots_per_arena : ℕ
slots_per_arena = 3276

-- The bit fields of the union, read from `raw`.
abbrev pub slot_idx : ℕ → ℕ
slot_idx raw = raw % 2 ^ 12

abbrev pub arena_idx : ℕ → ℕ
arena_idx raw = raw / 2 ^ 12 % 2 ^ 20

-- Both fields are stored truncated to their widths.
unfoldable pub construct_handle : (aid sid : ℕ) → ℕ
construct_handle aid sid = aid % 2 ^ 20 * 2 ^ 12 + sid % 2 ^ 12

-- A handle of an arena and a slot in range has both of them in its fields, fits in 32 bits and is not
-- HANDLE_NULL.
pub construct_handle_fields :
    (aid sid : ℕ)
    → aid < max_arenas
    → sid < slots_per_arena
    → (arena_idx (construct_handle aid sid) ≡ aid)
      × (slot_idx (construct_handle aid sid) ≡ sid)
      × (construct_handle aid sid < 2 ^ 32)
      × (construct_handle aid sid ≢ handle_null)
unfolding construct_handle
construct_handle_fields aid sid a s = omega arith
