-- ===== src/Api/Published/Defs.antt =====
-- A published version with its two counts.
use atomsnap.Common.{ℕ, zero, suc, ◌+◌, ◌*◌, ◌^◌, ◌<◌, ◌≡◌, refl, some, arith}
use atomsnap.Common.Family.{update}
use atomsnap.Word.Handle.{max_arenas, slots_per_arena, construct_handle}
use atomsnap.Api.World.{Gate, World}
use atomsnap.Api.Gates.{read_block, write_block}

-- Slot `i` of the arena with index `id`, at the address `a`, is in the slot `k` of the gate `g`, whose
-- callback is `f`; it is not detached, its outer count is `refs` and its inner count `cnt`.
pub record IsPublished (g k a i id f refs cnt : ℕ) (w : World) : Type 0 where
  pub gate : Gate
  pub gate_is : w.gates g ≡ some gate
  pub impl : gate.free_impl ≡ some f
  pub block : read_block gate k ≡ some (refs * 2 ^ 32 + construct_handle id i)
  pub arena : id < max_arenas
  pub fits : i < slots_per_arena
  pub table : w.pool.g_arena_table id ≡ some a
  pub owner : ((w.pool.arenas a).slots i).gate ≡ some g
  pub link : ((w.pool.arenas a).slots i).link ≡ construct_handle id i
  pub inner : ((w.pool.arenas a).slots i).inner_state ≡ cnt * 2 ^ 32
  pub few_refs : refs < 2 ^ 32
  pub few_cnt : cnt < 2 ^ 32

-- A control block reads back what was written, if its index is in range.
pub read-write_block :
    (gate : Gate) (k v x : ℕ)
    → read_block gate k ≡ some v
    → read_block (write_block gate k x) k ≡ some x
unfolding read_block write_block
read-write_block gate zero v x e = refl
read-write_block gate (suc k) v x e = ground arith

pub write_block-free_impl :
    (gate : Gate) (k x : ℕ) → (write_block gate k x).free_impl ≡ gate.free_impl
unfolding write_block
write_block-free_impl gate zero x = refl
write_block-free_impl gate (suc k) x = refl

-- The world with another inner state in one version.
unfoldable pub with_inner : World → (a i s : ℕ) → World
with_inner w a i s = record w {
  pool = record (w.pool) {
    arenas = update w.pool.arenas a (record (w.pool.arenas a) {
      slots =
          update (w.pool.arenas a).slots i (record ((w.pool.arenas a).slots i) { inner_state = s });
    });
  };
}

-- The world with another gate.
unfoldable pub with_gate : World → (g : ℕ) → Gate → World
with_gate w g gate = record w { gates = update w.gates g (some gate) }
