-- ===== src/Api/Published/Ends.antt =====
-- `detach_and_adjust`, and `atomsnap_release_version` on a detached version.
use atomsnap.Common.{ℕ, ◌+◌, ◌*◌, ◌-◌, ◌^◌, ◌<◌, ◌≡◌, ◌≢◌, some, arith, ◌∙◌}
use atomsnap.Common.Outcome.{ok}
use atomsnap.Word.Pair.{
  u32, u64, inner_f_detached, detached_state, detached_state_lem, inner_cnt_inc,
}
use atomsnap.Pool.Memory.{Host}
use atomsnap.Api.World.{World}
use atomsnap.Api.Versions.{try_finalize, detach_and_adjust}
use atomsnap.Api.Swaps.{atomsnap_release_version}
use atomsnap.Api.Published.Defs.{with_inner}
use atomsnap.Api.Published.Used.{
  at_slot, load_version_lem, store_inner_lem, adjust_loop_lem, IsUsed, with_inner-IsUsed,
}
use atomsnap.Api.Published.Finalize.{try_finalize_waits, ended, try_finalize_ends}

module _ {g f a i id cnt : ℕ} (host : Host) (refs : ℕ) (few : refs < 2 ^ 32)
    (few_cnt : cnt < 2 ^ 32) {w : World} (used : IsUsed g f a i id (cnt * 2 ^ 32) w) where
  open used use {fits, inner}

  -- The word that the detach stores.
  abbrev next : ℕ
  next = detached_state (at_slot w a i).inner_state refs

  next_lem : next ≡ u32 (cnt + 2 ^ 32 - refs) * 2 ^ 32 + 1
  next_lem = omega (arith, detached_state_lem (at_slot w a i).inner_state refs)

  detach_lem :
      detach_and_adjust host (a, i) refs w ≡ try_finalize host (a, i) next (with_inner w a i next)
  unfolding detach_and_adjust
  detach_lem = rw (load_version_lem a i fits w, adjust_loop_lem a i fits host.spurious w refs)

  next_zero : refs ≡ cnt → next ≡ 1
  next_zero same = next_lem ∙ omega (arith, same)

  -- A detach at which the readers that have acquired it have all released it ends the version.
  pub detach-eq :
      refs ≡ cnt
      → detach_and_adjust host (a, i) refs w ≡ ok tt (ended (with_inner w a i 1) f a i id)
  detach-eq same =
      detach_lem
      ∙ rw (next_zero same)
          (try_finalize_ends host (with_inner w a i 1) (with_inner-IsUsed w 1 used))

  -- Any other detach leaves it to the readers that still hold it: no callback runs, and the counter
  -- is short of zero by their number.
  pub detach-ne :
      refs ≢ cnt
      → detach_and_adjust host (a, i) refs w
        ≡ ok tt (with_inner w a i (u32 (cnt + 2 ^ 32 - refs) * 2 ^ 32 + inner_f_detached))
  detach-ne differ = detach_lem ∙ rw next_lem (try_finalize_waits host (a, i) _ _ (omega arith))

module _ {g f a i id st : ℕ} (host : Host) {w : World} (used : IsUsed g f a i id st w) where
  open used use {fits, inner}

  pub release_lem :
      atomsnap_release_version host (some (a, i)) w
      ≡ try_finalize host
          (a, i)
          (u64 (st + inner_cnt_inc))
          (with_inner w a i (u64 (st + inner_cnt_inc)))
  unfolding atomsnap_release_version
  release_lem =
      rw (load_version_lem a i fits w, inner, store_inner_lem a i fits w (u64 (st + inner_cnt_inc)))

  wraps : st ≡ (2 ^ 32 - 1) * 2 ^ 32 + 1 → u64 (st + inner_cnt_inc) ≡ 1
  wraps last = omega arith

  counts :
      (cnt fl : ℕ)
      → cnt + 1 < 2 ^ 32
      → fl < 2 ^ 32
      → st ≡ cnt * 2 ^ 32 + fl
      → u64 (st + inner_cnt_inc) ≡ (cnt + 1) * 2 ^ 32 + fl
  counts cnt fl few small word = omega (arith, few, small, word)

  -- A release of a version, detached or not, that other readers of it are to follow.
  pub release_counts :
      (cnt fl : ℕ)
      → cnt + 1 < 2 ^ 32
      → fl < 2 ^ 32
      → st ≡ cnt * 2 ^ 32 + fl
      → atomsnap_release_version host (some (a, i)) w
        ≡ ok tt (with_inner w a i ((cnt + 1) * 2 ^ 32 + fl))
  release_counts cnt fl few small word =
      release_lem
      ∙ rw (counts cnt fl few small word)
          (try_finalize_waits host (a, i) _ _ (omega (arith, few, small)))

  -- The last release of a detached version calls the callback of its gate, once, with its object and
  -- its context, and pushes its slot on the stack of its arena.
  pub release_last :
      st ≡ (2 ^ 32 - 1) * 2 ^ 32 + 1
      → atomsnap_release_version host (some (a, i)) w ≡ ok tt (ended (with_inner w a i 1) f a i id)
  release_last last =
      release_lem
      ∙ rw (wraps last) (try_finalize_ends host (with_inner w a i 1) (with_inner-IsUsed w 1 used))
