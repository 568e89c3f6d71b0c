-- ===== src/Protocol/Tests.antt =====
-- Schedules of two threads, and the theorems at the states that they reach.
use atomsnap.Common.{
  ℕ, ◌+◌, ◌*◌, ◌%◌, ◌^◌, ◌<◌, ◌≡◌, ◌≢◌, ◌⊎◌, inl, inr, true, false, none, some, refl, arith,
}
use atomsnap.Common.{ℕ_discrete}
use atomsnap.Word.Pair.{inner_cnt, handle_of, refs_of, detached_state}
use atomsnap.Protocol.Machine.{
  ready, aborted, make, acquire, release, exchange, load_inner, adjust_win, check, System, pick,
  Reach, start, later, Move, Mem, Thread,
}
use atomsnap.Protocol.Safety.{
  holders, Reclaims, Place, held_safe, never_aborts, one_reclaimer, published_accounts,
  nothing_lost, no_leak,
}
use atomsnap.Protocol.Progress.{Returns, solo-Returns}

record Run (n : ℕ) : Type 0 where
  last : System
  reach : Reach n last

abbrev move :
    {n : ℕ} (r : Run n) (i : ℕ) {m : Mem} {t : Thread}
    → i < n
    → Move r.last.mem (r.last.thr i) m t
    → Run n
move r i lt mv = record { last = _; reach = later r.reach (pick i lt mv) }

abbrev boot : Run 2
boot = record { last = _; reach = start }

-- Thread 0 publishes version 5 in slot 0.
abbrev published_run : Run 2
unfolding ℕ_discrete
published_run =
    move (move boot 0 (omega arith) (make 5 refl refl refl (omega arith))) 0 (omega arith)
      (exchange 0 (some 5) refl (inr refl))

-- Thread 1 acquires it.
abbrev reading : Run 2
unfolding ℕ_discrete
reading = move published_run 1 (omega arith) (acquire 0 refl refl)

held_safe_example :
    (reading.last.mem.avail 5 ≡ false) × ((j : ℕ) → ¬ Reclaims (reading.last.thr j).pc 5)
unfolding ℕ_discrete
held_safe_example = held_safe (omega arith) reading.reach 1 5 (omega arith) refl

-- Thread 0 clears the slot and detaches the version that thread 1 still holds.
abbrev cleared : Run 2
unfolding ℕ_discrete
cleared = move reading 0 (omega arith) (exchange 0 none refl (inl refl))

abbrev detached_run : Run 2
unfolding detached_state ℕ_discrete
detached_run =
    move
      (move (move cleared 0 (omega arith) (load_inner 5 1 refl)) 0 (omega arith)
        (adjust_win 5 1 0 refl refl))
      0 (omega arith) (check 5 (detached_state 0 1) refl)

-- Thread 1 releases it, and passes the tests of `try_finalize`.
abbrev claiming_run : Run 2
unfolding detached_state ℕ_discrete
claiming_run =
    move (move detached_run 1 (omega arith) (release 5 refl refl)) 1 (omega arith) (check 5 1 refl)

detached_word : detached_run.last.mem.inner 5 ≡ 0xFFFF_FFFF * 2 ^ 32 + 1
unfolding detached_state ℕ_discrete
detached_word = refl

never_aborts_example : (claiming_run.last.thr 1).pc ≢ aborted
never_aborts_example = never_aborts (omega arith) claiming_run.reach 1

one_reclaimer_example : ◌≡◌ {A = ℕ} 1 1
unfolding detached_state ℕ_discrete
one_reclaimer_example = one_reclaimer (omega arith) claiming_run.reach 1 1 5 refl refl

published_accounts_example :
    (reading.last.mem.avail 5 ≡ false)
    × ((j : ℕ) → handle_of (reading.last.mem.cb j) ≡ 5 → j ≡ 0)
    × (refs_of (reading.last.mem.cb 0)
        ≡ (inner_cnt (reading.last.mem.inner 5) + holders 2 reading.last 5) % 2 ^ 32)
unfolding ℕ_discrete
published_accounts_example = published_accounts (omega arith) reading.reach 0 5 refl (omega arith)

nothing_lost_example : Place 2 claiming_run.last 5
nothing_lost_example = nothing_lost (omega arith) claiming_run.reach 5

-- Thread 1 gives back the version that it read from the slot: nobody is in a call.
abbrev quiet_run : Run 2
unfolding ℕ_discrete
quiet_run =
    move (move reading 1 (omega arith) (release 5 refl refl)) 1 (omega arith)
      (check 5 (2 ^ 32) refl)

quiet_threads :
    (i : ℕ)
    → ((quiet_run.last.thr i).pc ≡ ready)
      × ((quiet_run.last.thr i).held ≡ none)
      × ((quiet_run.last.thr i).fresh ≡ none)
unfolding ℕ_discrete
quiet_threads i = ground arith

no_leak_example :
    (quiet_run.last.mem.avail 5 ≡ true) ⊎ ((k : ℕ) × (handle_of (quiet_run.last.mem.cb k) ≡ 5))
no_leak_example = no_leak (omega arith) quiet_run.reach quiet_threads 5

solo-Returns_example : Returns 0 cleared.last
solo-Returns_example = solo-Returns (omega arith) cleared.reach 0
