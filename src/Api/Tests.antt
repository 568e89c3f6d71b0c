-- ===== src/Api/Tests.antt =====
-- Runs of the public functions on small programs.
use atomsnap.Common.{◌≡◌, refl, true, false, Option, none, some, List, [], ◌∷◌, ℕ_discrete}
use atomsnap.Common.Int.{pos}
use atomsnap.Common.Outcome.{Outcome, ok, stopped, fault, Cmd, pure, get, ◌>>=◌, ◌>>◌}
use atomsnap.Pool.Slots.{pop_local, free_slot, resolve_handle}
use atomsnap.Pool.Memory.{store_entry, Host, zero_arena}
use atomsnap.Word.Pair.{detached_state, finalized_state}
use atomsnap.Word.Handle.{construct_handle}
use atomsnap.Pool.Alloc.{take_slot, steal_loop, steal_or_init}
use atomsnap.Pool.Arenas.{
  link_slots, init_arena, new_arena, register, ensure_vector_capacity, grown, resized, enlist,
  enlist_if, start_arena, setup_arena_stack,
}
use atomsnap.Api.Threads.{find_tid}
use atomsnap.Api.World.{World, Callback, Ptr}
use atomsnap.Api.Gates.{load_cb, store_cb, read_block, write_block, atomsnap_init_gate}
use atomsnap.Api.Versions.{
  detach_and_adjust, adjust_loop, try_finalize, claim_and_free, finalize_and_free,
  atomsnap_make_version, atomsnap_set_object,
}
use atomsnap.Api.Swaps.{
  self_handle, detach_handle, detach_version, atomsnap_acquire_version_slot,
  atomsnap_release_version, atomsnap_exchange_version_slot,
}

-- Every call of the system succeeds; memory for gates is at 200, for arenas at 100.
abbrev host : Host
host = record {
  aligned_alloc = some 100;
  realloc_arenas = true;
  realloc_indices = true;
  calloc = some 200;
  calloc_blocks = true;
  setspecific = true;
  key_create = true;
  madvise = λ _. zero_arena;
  spurious = 2;
}

abbrev boot : World
boot = record {
  pool = record { arenas = λ _. zero_arena; g_arena_table = λ _. none; g_global_arena_cnt = 0 };
  contexts = λ _. none;
  tid_used = λ _. false;
  once_done = false;
  tls = λ _. none;
  gates = λ _. none;
  callbacks = [];
}

-- A gate with one extra slot, and a version with object 11 in its first slot.
publish : Cmd World (Option Ptr)
unfolding atomsnap_init_gate atomsnap_make_version atomsnap_set_object
    atomsnap_exchange_version_slot find_tid link_slots construct_handle ℕ_discrete
publish = do
  _ ← atomsnap_init_gate host (record { free_impl = some 7; num_extra_control_blocks = pos 1 })
  v ← atomsnap_make_version host 1 (some 200)
  atomsnap_set_object v 11 12
  atomsnap_exchange_version_slot host 200 0 v
  pure v

abbrev result : {A : Type 0} → Outcome World A → Option (A × List Callback)
result (ok a w) = some (a, w.callbacks)
result stopped = none
result fault = none

-- A version that is replaced while it is read is freed by the release.
replaced_while_read : Cmd World (List Callback)
unfolding publish atomsnap_acquire_version_slot atomsnap_release_version
replaced_while_read = do
  _ ← publish
  r ← atomsnap_acquire_version_slot 200 0
  w ← atomsnap_make_version host 1 (some 200)
  atomsnap_exchange_version_slot host 200 0 w
  before ← get
  atomsnap_release_version host r
  pure before.callbacks

replaced_while_read_run :
    result (replaced_while_read boot)
    ≡ some ([], record { function = 7; object = 11; free_context = 12 } ∷ [])
unfolding replaced_while_read detach_and_adjust adjust_loop try_finalize claim_and_free
    finalize_and_free free_slot detached_state finalized_state self_handle detach_handle
    detach_version load_cb store_cb resolve_handle read_block write_block take_slot pop_local
    steal_loop steal_or_init init_arena new_arena register ensure_vector_capacity grown resized
    store_entry enlist start_arena setup_arena_stack enlist_if
replaced_while_read_run = refl
