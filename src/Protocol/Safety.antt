-- ===== src/Protocol/Safety.antt =====
-- What the reference counts promise in every reachable state, for fewer than 2^32 threads.
use atomsnap.Common.{ℕ, ◌+◌, ◌%◌, ◌^◌, ◌<◌, ◌≡◌, ◌≢◌, ◌⊎◌, inl, inr, true, false, none, some, arith}
use atomsnap.Common.Family.{total, le-total, total-eq-zero}
use atomsnap.Word.Pair.{handle_null, inner_cnt, handle_of, refs_of}
use atomsnap.Protocol.Machine.{Pc, ready, claiming, reclaiming, aborted, System, Reach}
use atomsnap.Protocol.Invariant.Defs.{
  Phase, free, owned, live, leaving, dying, claimed, holds, About, Detaches, Finishes,
}
use atomsnap.Protocol.Invariant.Moves.{Reach-Inv}

-- How many of the first `n` threads hold the version.
abbrev pub holders : ℕ → System → ℕ → ℕ
holders n s h = total (holds h) n s.thr

-- A thread that is about to run the callback on `h`, or to return it to the pool.
abbrev pub Reclaims : Pc → ℕ → Type 0
Reclaims (claiming v) h = v ≡ h
Reclaims (reclaiming v) h = v ≡ h
Reclaims _ h = ⊥

-- The places of a version between two incarnations of its slot.
pub data Place (n : ℕ) (s : System) (h : ℕ) : Type 0 where
  pooled : s.mem.avail h ≡ true → Place n s h
  unpublished : (i : ℕ) → (s.thr i).fresh ≡ some h → Place n s h
  published : (k : ℕ) → handle_of (s.mem.cb k) ≡ h → Place n s h
  detaching : (i refs : ℕ) → Detaches (s.thr i).pc h refs → Place n s h
  held : 0 < holders n s h → Place n s h
  finishing : (i : ℕ) → Finishes (s.thr i).pc h (s.mem.inner h) → Place n s h

module _ {n : ℕ} {s : System} (few : n < 2 ^ 32) (r : Reach n s) where
  open (Reach-Inv few r) use {phase, handles, made, stands, slots}

  -- A version that a thread holds is not in the pool, and no thread is about to run its callback
  -- or to return it, for fewer than 2^32 threads.
  pub held_safe :
      (i h : ℕ)
      → i < n
      → (s.thr i).held ≡ some h
      → (s.mem.avail h ≡ false) × ((j : ℕ) → ¬ Reclaims (s.thr j).pc h)
  held_safe i h lt e = (
    ground (arith, handles h, le-total (holds h) n s.thr i lt),
    λ j f. ground (arith, handles h, le-total (holds h) n s.thr i lt, stands j),
  )

  -- No thread ever finds FINALIZED set: `try_finalize` never aborts, for fewer than 2^32 threads.
  pub never_aborts : (i : ℕ) → (s.thr i).pc ≢ aborted
  never_aborts i e = ground (arith, stands i)

  -- At most one thread is about to run the callback on a version or to return it to the pool, for
  -- fewer than 2^32 threads.
  pub one_reclaimer : (i j h : ℕ) → Reclaims (s.thr i).pc h → Reclaims (s.thr j).pc h → i ≡ j
  one_reclaimer i j h f g = ground (arith, stands i, stands j)

  -- A published version is not in the pool, is in one slot alone, and its outer count is its inner
  -- count and the number of its holders, modulo 2^32, for fewer than 2^32 threads.
  pub published_accounts :
      (k h : ℕ)
      → handle_of (s.mem.cb k) ≡ h
      → h ≢ handle_null
      → (s.mem.avail h ≡ false)
        × ((j : ℕ) → handle_of (s.mem.cb j) ≡ h → j ≡ k)
        × (refs_of (s.mem.cb k) ≡ (inner_cnt (s.mem.inner h) + holders n s h) % 2 ^ 32)
  published_accounts k h e ne = (
    ground (arith, handles h, slots k),
    λ j f. ground (arith, slots k, slots j),
    ground (arith, handles h, slots k),
  )

  -- Every version has a place in every state that fewer than 2^32 threads reach: the pool, a thread that has made it and not
  -- published it, a slot, a thread that is detaching it, a holder, or a thread that finishes it.
  pub nothing_lost : (h : ℕ) → Place n s h
  nothing_lost h = placed (phase h) (handles h)
    where
      placed : (p : Phase) → About s.mem s.thr h (holders n s h) p → Place n s h
      placed free a = pooled a.0
      placed (owned i) a = unpublished i a.4
      placed (live k) a = published k a.1
      placed (leaving i refs) a = detaching i refs a.5
      placed dying a = held a.5
      placed (claimed i) a = finishing i a.3

  -- When every thread is between two calls and none holds a version or keeps one unpublished, each
  -- version is in the pool or in a slot of the gate, for fewer than 2^32 threads.
  pub no_leak :
      ((i : ℕ) → ((s.thr i).pc ≡ ready) × ((s.thr i).held ≡ none) × ((s.thr i).fresh ≡ none))
      → (h : ℕ) → (s.mem.avail h ≡ true) ⊎ ((k : ℕ) × (handle_of (s.mem.cb k) ≡ h))
  no_leak quiet h = settled (nothing_lost h)
    where
      none_held : holders n s h ≡ 0
      none_held = total-eq-zero (holds h) n s.thr (λ i. ground (arith, quiet i))

      settled : Place n s h → (s.mem.avail h ≡ true) ⊎ ((k : ℕ) × (handle_of (s.mem.cb k) ≡ h))
      settled (pooled a) = inl a
      settled (unpublished i e) = ground (arith, quiet i)
      settled (published k e) = inr (k, e)
      settled (detaching i refs d) = absurd (ground (arith, quiet i))
      settled (held some_held) = absurd (omega (arith, none_held))
      settled (finishing i f) = absurd (ground (arith, quiet i))
