-- ===== src/Protocol/Invariant/Reads.antt =====
-- Steps of a reader keep the invariant: acquire, the first step of release.
use atomsnap.Common.{ℕ, ◌+◌, ◌^◌, ◌<◌, ◌≡◌, none, some, arith, ◌==◌, if◌then◌else◌}
use atomsnap.Common.Family.{update}
use atomsnap.Word.Pair.{u64, ref_count_inc, inner_cnt_inc, inner_cnt, handle_of}
use atomsnap.Protocol.Machine.{Mem, ready, checking, Thread, version_of}
use atomsnap.Protocol.Invariant.Defs.{Phase, dying, claimed, Inv}
use atomsnap.Protocol.Invariant.Count.{recount}

module _ {n : ℕ} {m : Mem} {thr : ℕ → Thread} (few : n < 2 ^ 32) (inv : Inv n m thr) (i : ℕ)
    (lt : i < n) where
  open inv use {phase, handles, made, stands, slots}

  abbrev acquired : (k : ℕ) → Thread
  acquired k = record (thr i) { held = version_of (handle_of (m.cb k)) }

  pub acquire-Inv :
      (k : ℕ)
      → (thr i).pc ≡ ready
      → (thr i).held ≡ none
      → Inv n
          (record m { cb = update m.cb k (u64 (m.cb k + ref_count_inc)) })
          (update thr i (acquired k))
  acquire-Inv k at none_held = record {
    phase = phase;
    handles = λ h. ground (arith, handles h, recount thr i lt (acquired k) h, slots k);
    made = λ j h e. ground (arith, made j h);
    stands = λ j. ground (arith, stands j);
    slots = λ j ne. ground (arith, slots j);
  }

  -- What `atomsnap_release_version` leaves in the inner state of `h`.
  abbrev released : ℕ → ℕ
  released h = u64 (m.inner h + inner_cnt_inc)

  abbrev releasing : ℕ → Thread
  releasing h = record (thr i) { held = none; pc = checking h (released h) }

  -- The last holder of a detached version is the one to finish it.
  abbrev last_release : (h : ℕ) → Phase → Phase
  last_release h dying = if inner_cnt (released h) == 0 then claimed i else dying
  last_release h p = p

  pub release-Inv :
      (h : ℕ)
      → (thr i).pc ≡ ready
      → (thr i).held ≡ some h
      → Inv n (record m { inner = update m.inner h (released h) }) (update thr i (releasing h))
  release-Inv h at held_h = record {
    phase = update phase h (last_release h (phase h));
    handles = λ g. ground (arith, handles g, handles h, recount thr i lt (releasing h) g);
    made = λ j g e. ground (arith, made j g, handles h, recount thr i lt (releasing h) h);
    stands = λ j. ground (arith, stands j, handles h, recount thr i lt (releasing h) h);
    slots = λ j ne. ground (arith, slots j, handles h);
  }
