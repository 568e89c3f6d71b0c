-- ===== src/Api/Versions.antt =====
-- Versions of atomsnap.c: making, filling and freeing them, and the end of a detached version.
use atomsnap.Common.{ℕ, zero, suc, Option, none, some, ◌==◌, not, if◌then◌else◌}
use atomsnap.Common.Outcome.{stopped, Cmd, pure, get, ◌>>=◌, ◌>>◌}
use atomsnap.Word.Pair.{
  handle_null, inner_cnt, inner_flags, has_detached, has_finalized, detached_state, finalized_state,
}
use atomsnap.Pool.Memory.{Version, Host}
use atomsnap.Pool.Slots.{resolve_handle, free_slot}
use atomsnap.Pool.Alloc.{alloc_slot}
use atomsnap.Api.World.{World, Ptr, on_pool, load_version, store_version, load_gate, log_callback}
use atomsnap.Api.Threads.{get_or_init_thread_context, load_context, store_context}

-- The fields that a new version is given.
abbrev pub made : Option ℕ → Version → Version
made gate version = record version { object = 0; free_context = 0; gate = gate; inner_state = 0 }

-- `alloc_slot` on the context `tid`.
unfoldable pub alloc_for : Host → (tid : ℕ) → Cmd World ℕ
unfolding alloc_slot load_context store_context
alloc_for host tid = do
  ctx ← load_context tid
  (handle, ctx') ← on_pool (alloc_slot host ctx)
  store_context tid ctx'
  pure handle

-- The slot of a new handle, initialized. The assertion that it resolves stops the program.
unfoldable pub init_version : (gate : Option ℕ) → Option Ptr → Cmd World (Option Ptr)
init_version gate none w = stopped
init_version gate (some v) w =
    (do version ← load_version v; store_version v (made gate version); pure (some v)) w

unfoldable pub make_in : Host → (gate tid : Option ℕ) → Cmd World (Option Ptr)
unfolding alloc_for init_version resolve_handle
make_in host gate none = pure none
make_in host gate (some tid) = do
  handle ← alloc_for host tid
  w ← get
  if handle == handle_null
      then pure none
      else init_version gate (resolve_handle w.pool.g_arena_table handle)

unfoldable pub atomsnap_make_version : Host → (me : ℕ) → (gate : Option ℕ) → Cmd World (Option Ptr)
unfolding get_or_init_thread_context make_in
atomsnap_make_version host me gate = do
  tid ← get_or_init_thread_context host me
  make_in host gate tid

-- `if (ver->gate && ver->gate->free_impl) ver->gate->free_impl(obj, ver->free_context)`
unfoldable pub run_free_impl : Version → Cmd World (Unit {0})
unfolding load_gate log_callback
run_free_impl version = elim version.gate [
  | none ↦ pure tt
  | some g ↦ do
    gate ← load_gate g
    elim gate.free_impl [
      | none ↦ pure tt
      | some f ↦
          log_callback
            (record { function = f; object = version.object; free_context = version.free_context })
    ]
]

unfoldable pub finalize_and_free : Host → Ptr → Cmd World (Unit {0})
unfolding run_free_impl
finalize_and_free host v = do
  version ← load_version v
  run_free_impl version
  on_pool (free_slot host.spurious v)

-- `atomsnap_free_version`
unfoldable pub atomsnap_free_version : Host → Option Ptr → Cmd World (Unit {0})
unfolding finalize_and_free
atomsnap_free_version host none = pure tt
atomsnap_free_version host (some v) = do
  version ← load_version v
  run_free_impl version
  on_pool (free_slot host.spurious v)

unfoldable pub atomsnap_set_object : Option Ptr → (object free_context : ℕ) → Cmd World (Unit {0})
atomsnap_set_object none object free_context = pure tt
atomsnap_set_object (some v) object free_context = do
  version ← load_version v
  store_version v (record version { object = object; free_context = free_context })

unfoldable pub atomsnap_get_object : Option Ptr → Cmd World ℕ
atomsnap_get_object none = pure 0
atomsnap_get_object (some v) = do version ← load_version v; pure version.object

-- FINALIZED is set in the inner state; one that was set before aborts.
unfoldable pub claim_and_free : Host → Ptr → Cmd World (Unit {0})
claim_and_free host v = do
  version ← load_version v
  let old = version.inner_state
  store_version v (record version { inner_state = finalized_state old })
  if has_finalized (inner_flags old) then (λ _. stopped) else finalize_and_free host v

unfoldable pub try_finalize : Host → Ptr → (state : ℕ) → Cmd World (Unit {0})
try_finalize host v state =
    if not (has_detached (inner_flags state))
    then pure tt
    else (if not (inner_cnt state == 0) then pure tt else claim_and_free host v)

-- The loop of `detach_and_adjust` from the value `cur` on; the weak compare-exchange fails
-- `spurious` times and gives the value back each time. The result is what it stored.
unfoldable pub adjust_loop : (spurious : ℕ) → Ptr → (cur old_refs : ℕ) → Cmd World ℕ
adjust_loop zero v cur old_refs = do
  version ← load_version v
  store_version v (record version { inner_state = detached_state cur old_refs })
  pure (detached_state cur old_refs)
adjust_loop (suc n) v cur old_refs = do
  version ← load_version v
  adjust_loop n v version.inner_state old_refs

unfoldable pub detach_and_adjust : Host → Ptr → (old_refs : ℕ) → Cmd World (Unit {0})
detach_and_adjust host v old_refs = do
  version ← load_version v
  next ← adjust_loop host.spurious v version.inner_state old_refs
  try_finalize host v next
