-- ===== src/Protocol/Invariant/Count.antt =====
-- How many threads hold a version, before and after one thread changes.
use atomsnap.Common.{ℕ, ◌+◌, ◌≤◌, ◌<◌, ◌≡◌, arith}
use atomsnap.Common.Family.{update, total, total-update, total-le, le-total}
use atomsnap.Protocol.Machine.{Thread}
use atomsnap.Protocol.Invariant.Defs.{holds}

module _ {n : ℕ} (thr : ℕ → Thread) (i : ℕ) (lt : i < n) where
  pub recount :
      (t : Thread) (h : ℕ)
      → (total (holds h) n (update thr i t) + holds h (thr i) ≡ total (holds h) n thr + holds h t)
        × (total (holds h) n thr ≤ n)
        × (total (holds h) n (update thr i t) ≤ n)
        × (holds h (thr i) ≤ total (holds h) n thr)
  recount t h = (
    total-update (holds h) n thr i t lt,
    total-le (holds h) (λ a. ground arith) n thr,
    total-le (holds h) (λ a. ground arith) n (update thr i t),
    le-total (holds h) n thr i lt,
  )
