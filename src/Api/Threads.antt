-- ===== src/Api/Threads.antt =====
-- Threads of atomsnap.c: initialization, the context of the calling thread, and the destructor.
use atomsnap.Common.{ℕ, zero, suc, ◌+◌, Bool, true, false, Option, none, some, if◌then◌else◌}
use atomsnap.Common.Family.{update}
use atomsnap.Common.Outcome.{ok, stopped, fault, Cmd, pure, get, put, ◌>>=◌, ◌>>◌}
use atomsnap.Word.Pair.{handle_null}
use atomsnap.Word.Handle.{max_threads}
use atomsnap.Pool.Memory.{live, Context, Pool, Host}
use atomsnap.Pool.Arenas.{reclaim_last_arena_if_empty}
use atomsnap.Api.World.{World, on_pool}

-- `pthread_once(&g_init_once, global_init_routine)`; without a key the program exits.
unfoldable pub global_init : Host → Cmd World (Unit {0})
global_init host w =
    if w.once_done
    then ok tt w
    else (if host.key_create
        then ok tt (record w {
          pool = record (w.pool) { g_arena_table = λ _. none };
          contexts = λ _. none;
          tid_used = λ _. false;
          once_done = true;
        })
        else stopped)

unfoldable pub atomsnap_global_init : Host → Cmd World ℕ
unfolding global_init
atomsnap_global_init host = do global_init host; pure 0

-- The first free thread ID from `i` on, among `rounds`. Alone, the strong compare-exchange of a flag
-- that was read as false succeeds.
unfoldable pub find_tid : (rounds i : ℕ) → (ℕ → Bool) → Option ℕ
find_tid zero i used = none
find_tid (suc rounds) i used =
    let rest = find_tid rounds (i + 1) used in if used i then rest else some i

-- A context after `calloc` and the assignments to its fields.
abbrev pub new_context : ℕ → Context
new_context tid = record {
  thread_id = tid;
  owned_arenas = live 0 (λ _. none);
  arena_indices = live 0 (λ _. 0);
  active_arena_count = 0;
  vector_capacity = 0;
  local_top = handle_null;
  alloc_count = 0;
}

-- Step 3 of the thread's initialization; `false` is -1.
unfoldable pub set_tls : Host → (me tid : ℕ) → Cmd World Bool
set_tls host me tid w =
    if host.setspecific then ok true (record w { tls = update w.tls me (some tid) }) else ok false w

-- Step 2: the context of the ID is adopted, or a new one is made.
unfoldable pub adopt_or_allocate : Host → (me tid : ℕ) → Option Context → Cmd World Bool
unfolding set_tls
adopt_or_allocate host me tid (some ctx) = set_tls host me tid
adopt_or_allocate host me tid none = do
  w ← get
  elim host.calloc [
    | none ↦ do put (record w { tid_used = update w.tid_used tid false }); pure false
    | some _ ↦ do
      put (record w { contexts = update w.contexts tid (some (new_context tid)) })
      set_tls host me tid
  ]

-- Step 1: an ID is taken.
unfoldable pub take_tid : Host → (me : ℕ) → Option ℕ → Cmd World Bool
unfolding adopt_or_allocate
take_tid host me none = pure false
take_tid host me (some tid) = do
  w ← get
  put (record w { tid_used = update w.tid_used tid true })
  adopt_or_allocate host me tid (w.contexts tid)

unfoldable pub atomsnap_thread_init_internal : Host → (me : ℕ) → Cmd World Bool
unfolding take_tid
atomsnap_thread_init_internal host me w = take_tid host me (find_tid max_threads 0 w.tid_used) w

-- The ID of the context of the thread `me`; `none` on failure.
unfoldable pub get_or_init_thread_context : Host → (me : ℕ) → Cmd World (Option ℕ)
unfolding global_init atomsnap_thread_init_internal
get_or_init_thread_context host me = do
  global_init host
  w ← get
  elim (w.tls me) [
    | some tid ↦ pure (some tid)
    | none ↦ do
      done ← atomsnap_thread_init_internal host me
      w' ← get
      pure (if done then w'.tls me else none)
  ]

-- The context behind a pointer.
unfoldable pub load_context : ℕ → Cmd World Context
load_context tid w = elim (w.contexts tid) [ none ↦ fault | some ctx ↦ ok ctx w ]

unfoldable pub store_context : ℕ → Context → Cmd World (Unit {0})
store_context tid ctx w = ok tt (record w { contexts = update w.contexts tid (some ctx) })

-- The loop of the destructor: every round that goes on gives up one arena.
unfoldable pub reclaim_loop : (rounds : ℕ) → Host → Context → Cmd Pool Context
unfolding reclaim_last_arena_if_empty
reclaim_loop zero host ctx = pure ctx
reclaim_loop (suc rounds) host ctx = do
  (reclaimed, ctx') ← reclaim_last_arena_if_empty host ctx
  elim reclaimed [ true ↦ reclaim_loop rounds host ctx' | false ↦ pure ctx' ]

-- `tls_destructor`, for the context with ID `tid`.
unfoldable pub tls_destructor : Host → (tid : ℕ) → Cmd World (Unit {0})
unfolding reclaim_loop load_context store_context
tls_destructor host tid = do
  ctx ← load_context tid
  ctx' ← on_pool (reclaim_loop ctx.active_arena_count host ctx)
  store_context tid ctx'
  w ← get
  put (record w { tid_used = update w.tid_used ctx'.thread_id false })
