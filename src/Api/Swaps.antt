-- ===== src/Api/Swaps.antt =====
-- Acquire, release, exchange and compare-exchange of atomsnap.c.
use atomsnap.Common.{
  ℕ, zero, suc, ◌+◌, Bool, true, false, Option, none, some, ◌==◌, not, if◌then◌else◌,
}
use atomsnap.Common.Outcome.{Cmd, pure, get, ◌>>=◌, ◌>>◌}
use atomsnap.Word.Pair.{u64, handle_null, ref_count_inc, inner_cnt_inc, handle_of, refs_of}
use atomsnap.Pool.Memory.{Host}
use atomsnap.Pool.Slots.{resolve_handle}
use atomsnap.Api.World.{World, Ptr, load_version, store_version}
use atomsnap.Api.Gates.{load_cb, store_cb}
use atomsnap.Api.Versions.{try_finalize, detach_and_adjust}

unfoldable pub atomsnap_acquire_version_slot : (gate slot_idx : ℕ) → Cmd World (Option Ptr)
atomsnap_acquire_version_slot gate slot_idx = do
  val ← load_cb gate slot_idx
  store_cb gate slot_idx (u64 (val + ref_count_inc))
  w ← get
  pure (resolve_handle w.pool.g_arena_table (handle_of val))

unfoldable pub atomsnap_release_version : Host → Option Ptr → Cmd World (Unit {0})
unfolding try_finalize
atomsnap_release_version host none = pure tt
atomsnap_release_version host (some v) = do
  version ← load_version v
  store_version v (record version { inner_state = u64 (version.inner_state + inner_cnt_inc) })
  try_finalize host v (u64 (version.inner_state + inner_cnt_inc))

-- `ver ? ver->self_handle : HANDLE_NULL`
unfoldable pub self_handle : Option Ptr → Cmd World ℕ
self_handle none = pure handle_null
self_handle (some v) = do version ← load_version v; pure version.link

-- `if (old_ver) detach_and_adjust(old_ver, old_refs);`
unfoldable pub detach_version :
    Host → (old_ver : Option Ptr) → (old_refs : ℕ) → Cmd World (Unit {0})
detach_version host none old_refs = pure tt
detach_version host (some v) old_refs = detach_and_adjust host v old_refs

-- `old_ver = resolve_handle(old_handle);` and the call of `detach_version`.
unfoldable pub detach_handle : Host → (old_handle old_refs : ℕ) → Cmd World (Unit {0})
detach_handle host old_handle old_refs = do
  w ← get
  detach_version host (resolve_handle w.pool.g_arena_table old_handle) old_refs

unfoldable pub atomsnap_exchange_version_slot :
    Host → (gate slot_idx : ℕ) → (new_ver : Option Ptr) → Cmd World (Unit {0})
atomsnap_exchange_version_slot host gate slot_idx new_ver = do
  new_handle ← self_handle new_ver
  old_val ← load_cb gate slot_idx
  store_cb gate slot_idx new_handle
  detach_handle host (handle_of old_val) (refs_of old_val)

-- The loop from the value `current_val` on: the value that was replaced, or `none` for
-- `return false`. The weak compare-exchange fails `spurious` times.
unfoldable pub exchange_loop :
    (spurious gate slot_idx exp_handle new_handle current_val : ℕ) → Cmd World (Option ℕ)
unfolding load_cb store_cb
exchange_loop zero gate slot_idx exp_handle new_handle current_val =
    if not (handle_of current_val == exp_handle)
    then pure none
    else (do store_cb gate slot_idx new_handle; pure (some current_val))
exchange_loop (suc n) gate slot_idx exp_handle new_handle current_val =
    if not (handle_of current_val == exp_handle) then pure none else (do
      reloaded ← load_cb gate slot_idx
      exchange_loop n gate slot_idx exp_handle new_handle reloaded)

-- After the loop: the version that was replaced is detached.
unfoldable pub finish_exchange : Host → (exp_handle : ℕ) → Option ℕ → Cmd World Bool
finish_exchange host exp_handle none = pure false
finish_exchange host exp_handle (some current_val) = do
  detach_handle host exp_handle (refs_of current_val)
  pure true

unfoldable pub atomsnap_compare_exchange_version_slot :
    Host → (gate slot_idx : ℕ) → (expected new_ver : Option Ptr) → Cmd World Bool
unfolding finish_exchange
atomsnap_compare_exchange_version_slot host gate slot_idx expected new_ver = do
  new_handle ← self_handle new_ver
  exp_handle ← self_handle expected
  current_val ← load_cb gate slot_idx
  if not (handle_of current_val == exp_handle) then pure false else (do
    replaced ← exchange_loop host.spurious gate slot_idx exp_handle new_handle current_val
    finish_exchange host exp_handle replaced)
