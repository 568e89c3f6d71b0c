-- ===== src/Api/Published/Counts.antt =====
-- What acquire, release and exchange do to the counts of a published version.
use atomsnap.Common.{ℕ, ◌+◌, ◌*◌, ◌^◌, ◌<◌, ◌≡◌, refl, some, arith, ap, ◌∙◌}
use atomsnap.Common.Outcome.{ok}
use atomsnap.Word.Pair.{u32, u64, handle_of, ref_count_inc}
use atomsnap.Word.Handle.{construct_handle, construct_handle_fields}
use atomsnap.Pool.Stack.Pop.{resolve_handle-construct}
use atomsnap.Api.World.{World}
use atomsnap.Api.Gates.{write_block, load_cb, store_cb}
use atomsnap.Api.Swaps.{atomsnap_acquire_version_slot}
use atomsnap.Api.Published.Defs.{IsPublished, read-write_block, write_block-free_impl, with_gate}

module _ {g k a i id f refs cnt : ℕ} {w : World} (pub_ : IsPublished g k a i id f refs cnt w) where
  open pub_ use {
    gate, gate_is, impl, block, arena, fits, table, owner, link, inner, few_refs, few_cnt,
  }

  pub load_cb_lem : load_cb g k w ≡ ok (refs * 2 ^ 32 + construct_handle id i) w
  unfolding load_cb
  load_cb_lem = ground arith

  pub store_cb_lem : (x : ℕ) → store_cb g k x w ≡ ok tt (with_gate w g (write_block gate k x))
  unfolding store_cb with_gate
  store_cb_lem x = ground arith

  handle_small : construct_handle id i < 2 ^ 32
  handle_small = (construct_handle_fields id i arena fits).2

  pub named : handle_of (refs * 2 ^ 32 + construct_handle id i) ≡ construct_handle id i
  named = omega (arith, handle_small)

  -- Acquire of a published version returns it, adds one to its outer count modulo 2^32, and changes
  -- neither its inner count nor the allocator; it calls no callback.
  pub acquire-IsPublished :
      (w' : World) × (atomsnap_acquire_version_slot g k w ≡ ok (some (a, i)) w')
      × IsPublished g k a i id f (u32 (refs + 1)) cnt w'
      × (w'.callbacks ≡ w.callbacks)
      × (w'.pool ≡ w.pool)
  unfolding atomsnap_acquire_version_slot with_gate
  acquire-IsPublished = (
    with_gate w g
        (write_block gate k (u64 (refs * 2 ^ 32 + construct_handle id i + ref_count_inc))),
    rw
        (
          load_cb_lem,
          store_cb_lem (u64 (refs * 2 ^ 32 + construct_handle id i + ref_count_inc)),
          named,
          resolve_handle-construct w.pool.g_arena_table id i a arena fits table,
        )
        refl,
    record {
      gate = write_block gate k (u64 (refs * 2 ^ 32 + construct_handle id i + ref_count_inc));
      gate_is = ground arith;
      impl = write_block-free_impl gate k _ ∙ impl;
      block = read-write_block gate k _ _ block ∙ ap some (omega (arith, handle_small));
      arena = arena;
      fits = fits;
      table = table;
      owner = owner;
      link = link;
      inner = inner;
      few_refs = omega arith;
      few_cnt = few_cnt;
    },
    refl,
    refl,
  )
