-- ===== src/Load/Snap/Safety.antt =====
-- What the backend never does, and which blocks of the pool are taken.
use atomsnap.Common.{false, ℕ, ◌<◌, ◌^◌, ◌≡◌, ◌≢◌, subst}
use atomsnap.Load.Snap.Code.{User, aborted, crashed, System}
use atomsnap.Load.Snap.Machine.{Role, Reach}
use atomsnap.Load.Snap.Invariant.{Stands}
use atomsnap.Load.Snap.Steps.{Reach-Inv}

module _ {n shards : ℕ} {role : ℕ → Role} {s : System} (few : n < 2 ^ 32)
    (r : Reach false n shards role s) where
  open (Reach-Inv few r) use {base, stands, placed}

  -- As long as no call of `atomsnap_make_version` returns NULL and the pool gives out no block that is
  -- taken: in every state that fewer than 2^32 threads reach, no reader has
  -- aborted on two values that differ, and no thread has used a block that is not taken from the pool or
  -- given one back twice.
  pub no_mismatch : (i : ℕ) → (s.user i ≢ aborted) × (s.user i ≢ crashed)
  no_mismatch i =
      let at : (u : User)
          → s.user i ≡ u
          → Stands s.object s.heap (s.lib.thr i).fresh (s.lib.thr i).held u =
        λ u e. subst (Stands s.object s.heap (s.lib.thr i).fresh (s.lib.thr i).held) e (stands i) in
      (at aborted, at crashed)
