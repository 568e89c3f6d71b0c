-- ===== src/Api/Published/Release.antt =====
-- `atomsnap_release_version` on a version that is still in its slot.
use atomsnap.Common.{ℕ, ◌+◌, ◌*◌, ◌%◌, ◌^◌, ◌≡◌, false, some, arith, ◌∙◌, ==_ne}
use atomsnap.Common.Outcome.{ok}
use atomsnap.Word.Pair.{u32, u64, inner_flags, has_detached, inner_cnt_inc}
use atomsnap.Pool.Memory.{Host}
use atomsnap.Api.World.{World}
use atomsnap.Api.Swaps.{atomsnap_release_version}
use atomsnap.Api.Published.Defs.{IsPublished, with_inner}
use atomsnap.Api.Published.Used.{IsUsed, published_used, with_inner-IsUsed, with_inner-callbacks}
use atomsnap.Api.Published.Finalize.{try_finalize_keeps}
use atomsnap.Api.Published.Ends.{release_lem}

module _ {g k a i id f refs cnt : ℕ} (host : Host) {w : World}
    (published : IsPublished g k a i id f refs cnt w) where
  used : IsUsed g f a i id (cnt * 2 ^ 32) w
  used = published_used published

  word : u64 (cnt * 2 ^ 32 + inner_cnt_inc) ≡ u32 (cnt + 1) * 2 ^ 32
  word = omega (arith, published.few_cnt)

  off : has_detached (inner_flags (u32 (cnt + 1) * 2 ^ 32)) ≡ false
  off = ==_ne (inner_flags (u32 (cnt + 1) * 2 ^ 32) % 2) 1 (omega arith)

  -- Release of a version that is in its slot adds one to the inner count modulo 2^32 and leaves the
  -- outer count; it calls no callback.
  release-IsPublished :
      (w' : World) × (atomsnap_release_version host (some (a, i)) w ≡ ok tt w')
      × IsPublished g k a i id f refs (u32 (cnt + 1)) w'
      × (w'.callbacks ≡ w.callbacks)
  unfolding with_inner
  release-IsPublished =
      let w' = with_inner w a i (u32 (cnt + 1) * 2 ^ 32) in
      let next = with_inner-IsUsed w (u32 (cnt + 1) * 2 ^ 32) used in
      (
        w',
        release_lem host used ∙ rw word (try_finalize_keeps host (a, i) _ w' off),
        record {
          gate = published.gate;
          gate_is = published.gate_is;
          impl = published.impl;
          block = published.block;
          arena = published.arena;
          fits = published.fits;
          table = published.table;
          owner = next.owner;
          link = next.link;
          inner = next.inner;
          few_refs = published.few_refs;
          few_cnt = omega arith;
        },
        with_inner-callbacks w a i (u32 (cnt + 1) * 2 ^ 32),
      )
