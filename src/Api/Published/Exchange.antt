-- ===== src/Api/Published/Exchange.antt =====
-- `atomsnap_exchange_version_slot` on a slot that holds a version.
use atomsnap.Common.{ℕ, zero, suc, ◌+◌, ◌*◌, ◌-◌, ◌^◌, ◌≡◌, ◌≢◌, refl, Option, arith, ◌∙◌, subst}
use atomsnap.Common.Outcome.{ok, Cmd, ◌>>=◌, pure}
use atomsnap.Word.Pair.{u32, refs_of, inner_f_detached}
use atomsnap.Word.Handle.{construct_handle}
use atomsnap.Pool.Memory.{Host}
use atomsnap.Pool.Stack.Pop.{resolve_handle-construct}
use atomsnap.Api.World.{World, Ptr}
use atomsnap.Api.Gates.{write_block}
use atomsnap.Api.Versions.{detach_and_adjust}
use atomsnap.Api.Swaps.{
  self_handle, detach_handle, detach_version, atomsnap_acquire_version_slot,
  atomsnap_exchange_version_slot,
}
use atomsnap.Api.Published.Defs.{IsPublished, write_block-free_impl, with_inner, with_gate}
use atomsnap.Api.Published.Counts.{load_cb_lem, store_cb_lem, named, acquire-IsPublished}
use atomsnap.Api.Published.Used.{IsUsed, published_used, with_gate-IsUsed}
use atomsnap.Api.Published.Finalize.{ended}
use atomsnap.Api.Published.Ends.{detach-eq, detach-ne}

module _ (host : Host) (new_ver : Option Ptr) (h : ℕ) {g k a i id f refs cnt : ℕ} {w : World}
    (self : self_handle new_ver w ≡ ok h w) (published : IsPublished g k a i id f refs cnt w) where
  open published use {gate, impl}

  -- The world in which the slot `k` of the gate `g` holds the new handle with an outer count of zero.
  abbrev pub swapped : World
  swapped = with_gate w g (write_block gate k h)

  pub swapped-IsUsed : IsUsed g f a i id (cnt * 2 ^ 32) swapped
  swapped-IsUsed =
      with_gate-IsUsed w (write_block gate k h) (write_block-free_impl gate k h ∙ impl)
        (published_used published)

  counted : refs_of (refs * 2 ^ 32 + construct_handle id i) ≡ refs
  counted = omega (arith, named published, published.few_refs)

  detach_handle_lem :
      detach_handle host (construct_handle id i) refs swapped
      ≡ detach_and_adjust host (a, i) refs swapped
  unfolding detach_handle with_gate detach_version
  detach_handle_lem =
      rw
        (resolve_handle-construct w.pool.g_arena_table id i a published.arena published.fits
          published.table)
        refl

  exchange_lem :
      atomsnap_exchange_version_slot host g k new_ver w ≡ detach_and_adjust host (a, i) refs swapped
  unfolding atomsnap_exchange_version_slot
  exchange_lem =
      rw (self, load_cb_lem published, store_cb_lem published h, named published, counted)
        detach_handle_lem

  -- Exchange with equal counts (modulo 2^32).
  pub exchange-eq :
      refs ≡ cnt
      → atomsnap_exchange_version_slot host g k new_ver w
        ≡ ok tt (ended (with_inner swapped a i 1) f a i id)
  exchange-eq same =
      exchange_lem ∙ detach-eq host refs published.few_refs published.few_cnt swapped-IsUsed same

  pub exchange-ne :
      refs ≢ cnt
      → atomsnap_exchange_version_slot host g k new_ver w
        ≡ ok tt (with_inner swapped a i (u32 (cnt + 2 ^ 32 - refs) * 2 ^ 32 + inner_f_detached))
  exchange-ne differ =
      exchange_lem ∙ detach-ne host refs published.few_refs published.few_cnt swapped-IsUsed differ

-- `n` acquires of the version in one slot.
unfoldable pub acquire_times : (n g k : ℕ) → Cmd World (Unit {0})
acquire_times zero g k = pure tt
acquire_times (suc n) g k = do _ ← atomsnap_acquire_version_slot g k; acquire_times n g k

-- Any number of acquires adds to the outer count, modulo 2^32, and calls no callback.
pub acquire_times-IsPublished :
    (n : ℕ) {g k a i id f refs cnt : ℕ} (w : World)
    → IsPublished g k a i id f refs cnt w
    → (w' : World) × (acquire_times n g k w ≡ ok tt w')
      × IsPublished g k a i id f (u32 (refs + n)) cnt w'
      × (w'.callbacks ≡ w.callbacks)
      × (w'.pool ≡ w.pool)
unfolding acquire_times
acquire_times-IsPublished zero {g} {k} {a} {i} {id} {f} {refs} {cnt} w published = (
  w,
  refl,
  subst (λ r. IsPublished g k a i id f r cnt w) (omega (arith, published.few_refs)) published,
  refl,
  refl,
)
acquire_times-IsPublished (suc n) {g} {k} {a} {i} {id} {f} {refs} {cnt} w published =
    let (w1, run1, published1, calls1, pool1) = acquire-IsPublished published in
    let (w2, run2, published2, calls2, pool2) = acquire_times-IsPublished n w1 published1 in
    (
      w2,
      rw (run1, run2) refl,
      subst (λ r. IsPublished g k a i id f r cnt w2) (omega arith) published2,
      calls2 ∙ calls1,
      pool2 ∙ pool1,
    )
