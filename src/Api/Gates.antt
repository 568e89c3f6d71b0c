-- ===== src/Api/Gates.antt =====
-- Gates of atomsnap.c: `atomsnap_init_gate`, `atomsnap_destroy_gate` and `get_cb_slot`.
use atomsnap.Common.{ℕ, zero, suc, ◌+◌, Option, none, some, ltb, if◌then◌else◌}
use atomsnap.Common.Family.{update}
use atomsnap.Common.Int.{ℤ, pos_part}
use atomsnap.Common.Outcome.{Cmd, pure, ◌>>=◌, ◌>>◌, fails}
use atomsnap.Word.Pair.{handle_null}
use atomsnap.Pool.Memory.{Host}
use atomsnap.Api.World.{Gate, World, load_gate, store_gate}

-- `struct atomsnap_init_context`
pub record InitContext : Type 0 where
  pub free_impl : Option ℕ
  pub num_extra_control_blocks : ℤ

-- The loop that sets the extra blocks from `i` on to HANDLE_NULL.
unfoldable pub fill_blocks : (rounds i : ℕ) → (ℕ → ℕ) → ℕ → ℕ
fill_blocks zero i blocks = blocks
fill_blocks (suc rounds) i blocks = fill_blocks rounds (i + 1) (update blocks i handle_null)

-- A gate after `calloc` and the assignments from the init context.
abbrev pub new_gate : InitContext → Gate
new_gate ctx = record {
  control_block = 0;
  free_impl = ctx.free_impl;
  extra_control_blocks = none;
  num_extra_slots = ctx.num_extra_control_blocks;
}

-- The part behind the check of `free_impl`: the extra blocks, and the first control block. A gate
-- that is given up is freed.
unfoldable pub set_blocks : Host → (g : ℕ) → Gate → Cmd World (Option ℕ)
unfolding fill_blocks store_gate
set_blocks host g gate =
    let count = pos_part gate.num_extra_slots in
    if ltb 0 count
    then (if host.calloc_blocks
        then (do
          store_gate g (
              some (record gate {
                control_block = handle_null;
                extra_control_blocks = some (fill_blocks count 0 (λ _. 0));
              }))
          pure (some g))
        else (do store_gate g none; pure none))
    else (do store_gate g (some (record gate { control_block = handle_null })); pure (some g))

unfoldable pub atomsnap_init_gate : Host → InitContext → Cmd World (Option ℕ)
unfolding set_blocks store_gate
atomsnap_init_gate host ctx = elim host.calloc [
  | none ↦ pure none
  | some g ↦ elim ctx.free_impl [
    | none ↦ do store_gate g none; pure none
    | some f ↦ set_blocks host g (new_gate ctx)
  ]
]

unfoldable pub atomsnap_destroy_gate : Option ℕ → Cmd World (Unit {0})
unfolding load_gate store_gate
atomsnap_destroy_gate none = pure tt
atomsnap_destroy_gate (some g) = do _ ← load_gate g; store_gate g none

-- The control block that `get_cb_slot` names, read and written. An index beyond the extra blocks
-- faults.
unfoldable pub read_block : Gate → (slot_idx : ℕ) → Option ℕ
read_block gate zero = some gate.control_block
read_block gate (suc i) = elim gate.extra_control_blocks [
  | none ↦ none
  | some blocks ↦ if ltb i (pos_part gate.num_extra_slots) then some (blocks i) else none
]

unfoldable pub write_block : Gate → (slot_idx value : ℕ) → Gate
write_block gate zero value = record gate { control_block = value }
write_block gate (suc i) value = record gate {
  extra_control_blocks = elim gate.extra_control_blocks [
    | none ↦ none
    | some blocks ↦ some (update blocks i value)
  ];
}

unfoldable pub load_cb : (g slot_idx : ℕ) → Cmd World ℕ
unfolding load_gate
load_cb g slot_idx = do
  gate ← load_gate g
  elim (read_block gate slot_idx) [ none ↦ fails | some value ↦ pure value ]

unfoldable pub store_cb : (g slot_idx value : ℕ) → Cmd World (Unit {0})
unfolding load_gate store_gate
store_cb g slot_idx value = do
  gate ← load_gate g
  store_gate g (some (write_block gate slot_idx value))
