-- ===== src/Protocol/Invariant/Ends.antt =====
-- Steps that end a version keep the invariant: `detach_and_adjust`, `try_finalize` and the return
-- to the pool.
use atomsnap.Common.{ℕ, ◌^◌, ◌<◌, ◌≡◌, true, arith, ◌==◌, if◌then◌else◌}
use atomsnap.Common.Family.{update}
use atomsnap.Word.Pair.{
  inner_cnt, inner_flags, has_finalized, detached_state, detached_state_lem, finalized_state,
  finalized_state_lem,
}
use atomsnap.Protocol.Machine.{
  Mem, ready, swapped, adjusting, checking, claiming, reclaiming, aborted, Thread, after_check,
}
use atomsnap.Protocol.Invariant.Defs.{Phase, free, dying, claimed, Inv}
use atomsnap.Protocol.Invariant.Count.{recount}

module _ {n : ℕ} {m : Mem} {thr : ℕ → Thread} (few : n < 2 ^ 32) (inv : Inv n m thr) (i : ℕ)
    (lt : i < n) where
  open inv use {phase, handles, made, stands, slots}

  abbrev adjuster : (v refs cur : ℕ) → Thread
  adjuster v refs cur = record (thr i) { pc = checking v (detached_state cur refs) }

  -- Detached: finished by thread `i` if no one holds the version.
  abbrev detached_phase : (v refs cur : ℕ) → Phase
  detached_phase v refs cur = if inner_cnt (detached_state cur refs) == 0 then claimed i else dying

  pub adjust-Inv :
      (v refs cur : ℕ)
      → (thr i).pc ≡ adjusting v refs cur
      → m.inner v ≡ cur
      → Inv n
          (record m { inner = update m.inner v (detached_state cur refs) })
          (update thr i (adjuster v refs cur))
  adjust-Inv v refs cur at same = record {
    phase = update phase v (detached_phase v refs cur);
    handles = λ g. ground (
      arith,
      handles g,
      handles v,
      stands i,
      detached_state_lem cur refs,
      recount thr i lt (adjuster v refs cur) g,
    );
    made = λ j g e. ground (arith, made j g, handles v, stands i);
    stands = λ j. ground (arith, stands j, stands i, handles v, detached_state_lem cur refs);
    slots = λ j ne. ground (arith, slots j, stands i);
  }

  -- Steps that change the program counter alone.
  pub load-Inv :
      (v refs : ℕ)
      → (thr i).pc ≡ swapped v refs
      → Inv n m (update thr i (record (thr i) { pc = adjusting v refs (m.inner v) }))
  load-Inv v refs at = record {
    phase = phase;
    handles = λ g. ground (
      arith,
      handles g,
      recount thr i lt (record (thr i) { pc = adjusting v refs (m.inner v) }) g,
    );
    made = λ j g e. ground (arith, made j g);
    stands = λ j. ground (arith, stands j, stands i);
    slots = slots;
  }

  pub reload-Inv :
      (v refs cur : ℕ)
      → (thr i).pc ≡ adjusting v refs cur
      → Inv n m (update thr i (record (thr i) { pc = adjusting v refs (m.inner v) }))
  reload-Inv v refs cur at = record {
    phase = phase;
    handles = λ g. ground (
      arith,
      handles g,
      recount thr i lt (record (thr i) { pc = adjusting v refs (m.inner v) }) g,
    );
    made = λ j g e. ground (arith, made j g);
    stands = λ j. ground (arith, stands j, stands i);
    slots = slots;
  }

  pub check-Inv :
      (v st : ℕ)
      → (thr i).pc ≡ checking v st
      → Inv n m (update thr i (record (thr i) { pc = after_check v st }))
  check-Inv v st at = record {
    phase = phase;
    handles = λ g.
        ground (
          arith,
          handles g,
          stands i,
          recount thr i lt (record (thr i) { pc = after_check v st }) g,
        );
    made = λ j g e. ground (arith, made j g);
    stands = λ j. ground (arith, stands j, stands i);
    slots = slots;
  }

  abbrev claimer : ℕ → Thread
  claimer v = record (thr i) {
    pc = if has_finalized (inner_flags (m.inner v)) then aborted else reclaiming v;
  }

  pub claim-Inv :
      (v : ℕ)
      → (thr i).pc ≡ claiming v
      → Inv n
          (record m { inner = update m.inner v (finalized_state (m.inner v)) })
          (update thr i (claimer v))
  claim-Inv v at = record {
    phase = phase;
    handles = λ g. ground (
      arith,
      handles g,
      handles v,
      stands i,
      finalized_state_lem (m.inner v),
      recount thr i lt (claimer v) g,
    );
    made = λ j g e. ground (arith, made j g);
    stands = λ j. ground (arith, stands j, stands i, handles v);
    slots = slots;
  }

  pub reclaim-Inv :
      (v : ℕ)
      → (thr i).pc ≡ reclaiming v
      → Inv n
          (record m { avail = update m.avail v true })
          (update thr i (record (thr i) { pc = ready }))
  reclaim-Inv v at = record {
    phase = update phase v free;
    handles = λ g.
        ground (
          arith,
          handles g,
          handles v,
          stands i,
          recount thr i lt (record (thr i) { pc = ready }) g,
        );
    made = λ j g e. ground (arith, made j g, stands i);
    stands = λ j. ground (arith, stands j, stands i);
    slots = λ j ne. ground (arith, slots j, stands i);
  }
