-- ===== src/Api/Cases.antt =====
-- The theorems of the public functions on a small world.
use atomsnap.Common.{
  if◌then◌else◌, ◌==◌, ℕ_discrete, ℕ, ◌+◌, ◌*◌, ◌-◌, ◌^◌, ◌<◌, ◌≡◌, ◌≢◌, refl, Bool, true, false,
  Option, none, some, [], arith,
}
use atomsnap.Common.Family.{update}
use atomsnap.Common.Int.{pos}
use atomsnap.Common.Outcome.{ok, pure, ◌>>◌}
use atomsnap.Word.Pair.{handle_of, handle_null, u32, inner_f_detached}
use atomsnap.Word.Handle.{arena_idx, slot_idx, construct_handle, construct_handle_fields}
use atomsnap.Pool.Memory.{load_slot, Host, zero_version, zero_arena}
use atomsnap.Api.World.{World}
use atomsnap.Api.Gates.{load_cb, read_block}
use atomsnap.Api.Swaps.{
  self_handle, atomsnap_release_version, atomsnap_exchange_version_slot,
  atomsnap_compare_exchange_version_slot,
}
use atomsnap.Api.Compare.{compare_exchange_lem}
use atomsnap.Api.Published.Defs.{IsPublished}
use atomsnap.Api.Published.Used.{IsUsed, ended_calls}
use atomsnap.Api.Published.Exchange.{acquire_times}
use atomsnap.Api.Published.Cycle.{
  release_times, last_release_frees, exchange_frees, exchange_defers,
}

-- A host whose `calloc` and `pthread_setspecific` answer as told.
abbrev host : Option ℕ → Bool → Host
host calloc setspecific = record {
  aligned_alloc = none;
  realloc_arenas = true;
  realloc_indices = true;
  calloc = calloc;
  calloc_blocks = true;
  setspecific = setspecific;
  key_create = true;
  madvise = λ _. zero_arena;
  spurious = 2;
}

-- The gate 200 holds, in its first slot, the slot 5 of arena 3, whose inner state is `st`.
abbrev shelf : (st : ℕ) → World
shelf st = record {
  pool = record {
    arenas = λ _. record {
      top_handle = 3 * 2 ^ 12;
      slots =
          update (λ _. zero_version) 5
            (record {
              object = 11;
              free_context = 12;
              gate = some 200;
              inner_state = st;
              link = 3 * 2 ^ 12 + 5;
            });
    };
    g_arena_table = λ _. some 100;
    g_global_arena_cnt = 4;
  };
  contexts = λ _. none;
  tid_used = λ _. false;
  once_done = true;
  tls = λ _. none;
  gates = λ _. some (record {
    control_block = 3 * 2 ^ 12 + 5;
    free_impl = some 7;
    extra_control_blocks = none;
    num_extra_slots = pos 0;
  });
  callbacks = [];
}

published : IsPublished 200 0 100 5 3 7 0 0 (shelf 0)
unfolding construct_handle ℕ_discrete read_block
published = record {
  gate = record {
    control_block = 3 * 2 ^ 12 + 5;
    free_impl = some 7;
    extra_control_blocks = none;
    num_extra_slots = pos 0;
  };
  gate_is = refl;
  impl = refl;
  block = refl;
  arena = omega arith;
  fits = omega arith;
  table = refl;
  owner = refl;
  link = refl;
  inner = refl;
  few_refs = omega arith;
  few_cnt = omega arith;
}

used : IsUsed 200 7 100 5 3 ((2 ^ 32 - 1 - 1) * 2 ^ 32 + 1) (shelf ((2 ^ 32 - 1 - 1) * 2 ^ 32 + 1))
unfolding construct_handle ℕ_discrete
used = record {
  gate = record {
    control_block = 3 * 2 ^ 12 + 5;
    free_impl = some 7;
    extra_control_blocks = none;
    num_extra_slots = pos 0;
  };
  gate_is = refl;
  impl = refl;
  arena = omega arith;
  fits = omega arith;
  table = refl;
  owner = refl;
  link = refl;
  inner = refl;
}

-- Two readers hold the version, which is detached.
last_release_frees_example :
    (w1 w2 : World) × (release_times
        (host none true)
        1
        100
        5
        (shelf ((2 ^ 32 - 1 - 1) * 2 ^ 32 + 1))
      ≡ ok tt w1)
    × (w1.callbacks ≡ [])
    × (atomsnap_release_version (host none true) (some (100, 5)) w1 ≡ ok tt w2)
    × (w2.callbacks ≡ ended_calls (shelf ((2 ^ 32 - 1 - 1) * 2 ^ 32 + 1)) 7 100 5)
last_release_frees_example =
    last_release_frees (host none true) 1 (shelf ((2 ^ 32 - 1 - 1) * 2 ^ 32 + 1)) (omega arith) used

-- 2^32 acquires that are not released look like none.
exchange_frees_example :
    (w1 w2 : World) × (acquire_times (2 ^ 32) 200 0 (shelf 0) ≡ ok tt w1)
    × (atomsnap_exchange_version_slot (host none true) 200 0 none w1 ≡ ok tt w2)
    × (w2.callbacks ≡ ended_calls (shelf 0) 7 100 5)
exchange_frees_example = exchange_frees (host none true) (2 ^ 32) (shelf 0) published (omega arith)

exchange_defers_example :
    (w1 w2 : World) × (acquire_times 2 200 0 (shelf 0) ≡ ok tt w1)
    × (atomsnap_exchange_version_slot (host none true) 200 0 none w1 ≡ ok tt w2)
    × (w2.callbacks ≡ [])
    × IsUsed 200 7 100 5 3 (u32 (0 + 2 ^ 32 - u32 (0 + 2)) * 2 ^ 32 + inner_f_detached) w2
exchange_defers_example = exchange_defers (host none true) 2 (shelf 0) published (omega arith)

abbrev shelf_handle : ℕ
shelf_handle = 3 * 2 ^ 12 + 5

self : self_handle (some (100, 5)) (shelf 0) ≡ ok shelf_handle (shelf 0)
unfolding self_handle load_slot ℕ_discrete
self = refl

compare_exchange_lem_example :
    atomsnap_compare_exchange_version_slot (host none true) 200 0 (some (100, 5)) none (shelf 0)
    ≡ (if handle_of shelf_handle == shelf_handle
          then (do atomsnap_exchange_version_slot (host none true) 200 0 none; pure true)
          else pure false)
        (shelf 0)
unfolding self_handle load_cb read_block
compare_exchange_lem_example =
    compare_exchange_lem (host none true) 200 0 shelf_handle (2 ^ 32 - 1) shelf_handle
      (some (100, 5)) none (shelf 0) refl self refl

abbrev block_at : Option ℕ
block_at = some 300

construct_handle_fields_example :
    (arena_idx (construct_handle 3 5) ≡ 3)
    × (slot_idx (construct_handle 3 5) ≡ 5)
    × (construct_handle 3 5 < 2 ^ 32)
    × (construct_handle 3 5 ≢ handle_null)
construct_handle_fields_example = construct_handle_fields 3 5 (omega arith) (omega arith)
