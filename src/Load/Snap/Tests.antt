-- ===== src/Load/Snap/Tests.antt =====
-- `init` with one shard and a reader, and the theorems at the states reached.
use atomsnap.Common.{false, ℕ, ◌≡◌, ◌≢◌, inl, inr, refl, none, arith, ℕ_discrete}
use atomsnap.Protocol.Machine.{Pc}
use atomsnap.Load.Snap.Code.{AtomObj, first_of, aborted, crashed, System}
use atomsnap.Load.Snap.Machine.{
  Move, make_version, alloc, write_v1, write_v2, set_object, exchange_version, next,
  acquire_version, read_v1, pick, Role, reader, Reach, start, later,
}
use atomsnap.Load.Snap.Invariant.{block_of}
use atomsnap.Load.Snap.Safety.{no_mismatch}

record Run (n shards : ℕ) (role : ℕ → Role) : Type 0 where
  last : System
  reach : Reach false n shards role last

abbrev readers : ℕ → Role
readers i = reader 0

abbrev Runs : Type 0
Runs = Run 2 1 readers

abbrev boot : Runs
boot = record { last = _; reach = start }

-- A step of `init`.
abbrev main : (r : Runs) {t : System} → Move 1 0 r.last t → Runs
main r mv = record { last = _; reach = later r.reach (pick 0 (omega arith) (inl refl) mv) }

abbrev raw : AtomObj
raw = record { v1 = 11; v2 = 12 }

abbrev with_block : Runs
unfolding ℕ_discrete
with_block =
    main (main boot (make_version 5 refl refl refl (omega arith) (first_of 0) refl))
      (alloc 40 raw (first_of 0) refl refl refl)

abbrev filled : Runs
unfolding ℕ_discrete
filled =
    main (main with_block (write_v1 (first_of 0) 40 refl refl)) (write_v2 (first_of 0) 40 refl refl)

abbrev initialized : Runs
unfolding ℕ_discrete
initialized =
    main
      (main (main filled (set_object 5 (first_of 0) 40 refl refl refl))
        (exchange_version 5 (first_of 0) refl refl refl))
      (next (first_of 0) refl refl)

-- The reader has acquired the version and loaded its first value.
abbrev reading : Runs
unfolding ℕ_discrete
reading =
    let held =
      later initialized.reach
        (pick 1 (omega arith) (inr refl) (acquire_version 0 refl refl refl)) in
    record { last = _; reach = later held (pick 1 (omega arith) (inr refl) (read_v1 0 refl refl)) }

no_mismatch_example : (reading.last.user 1 ≢ aborted) × (reading.last.user 1 ≢ crashed)
no_mismatch_example = no_mismatch (omega arith) reading.reach 1

abbrev Idle : ℕ → Type 0
Idle i =
    ((initialized.last.lib.thr i).pc ≡ Pc.ready)
    × ((initialized.last.lib.thr i).held ≡ none)
    × ((initialized.last.lib.thr i).fresh ≡ none)
    × (block_of (initialized.last.user i) ≡ none)
