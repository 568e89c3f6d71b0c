-- ===== src/Bench/Sharing.antt =====
-- The benchmark with a shared mutex: what its readers see, and what its writers have written.
pub mod Invariant
pub mod Moves
use atomsnap.Common.{
  ℕ, ◌+◌, ◌≤◌, ◌<◌, ◌≡◌, ◌≢◌, ◌⊎◌, inl, inr, refl, sym, subst, ◌∙◌, Option-cases, true, false, none,
  some, arith, ℕ_discrete,
}
use atomsnap.Common.Family.{update, update_cases, sum, sum-same, sum-suc, sum-zero}
use atomsnap.Bench.Mutex.{
  Data, Pc, outside, writing, loaded1, stored1, loaded2, stored2, counting, reading, read1, read2,
  checking, exited, Thread, Move, lock_writer, load_value1, store_value1, load_value2, store_value2,
  unlock_writer, count, lock_reader, copy_value1, copy_value2, unlock_reader, check, System, Step,
  pick, Reach, start, later,
}
use atomsnap.Bench.Sharing.Invariant.{At, Locked, uncounted, writes, Inv, shared_equal}
use atomsnap.Bench.Sharing.Moves.{Move-own, Move-Locked, Move-other, Move-writes}

Step-Inv : (n : ℕ) (s s' : System) → Inv n s → Step n s s' → Inv n s'
Step-Inv n s s' inv (pick i {m = m'} {t = t'} lt mv) =
    let other : (j : ℕ) → i ≢ j → writes (update s.thr i t') j ≡ writes s.thr j =
      λ j ne. ground (arith, ne) in
    record {
      at =
          update_cases (λ j t. At j m' t.prev_value t.pc) s.thr i t'
            (Move-own i s.mem m' (s.thr i) t' (inv.at i) inv.locked mv)
            (λ j ne.
              Move-other i j s.mem m' (s.thr i) t' (s.thr j).prev_value (s.thr j).pc ne (inv.at i)
                inv.locked mv (inv.at j));
      locked = Move-Locked i s.mem m' (s.thr i) t' (inv.at i) inv.locked mv;
      written = elim (Move-writes i s.mem m' (s.thr i) t' (inv.at i) mv) [
        | inl (same, own) ↦
            same
            ∙ inv.written
            ∙ sum-same n (writes s.thr) (writes (update s.thr i t')) (λ j _. elim (ℕ_discrete i j) [
              | yes e ↦ ground (arith, e, own)
              | no ne ↦ sym (other j ne)
            ])
        | inr (more, own) ↦
            let grown : sum n (writes (update s.thr i t')) ≡ sum n (writes s.thr) + 1 =
              sum-suc n (writes s.thr) (writes (update s.thr i t')) i lt (ground (arith, own))
                other in
            omega (arith, more, inv.written, grown)
      ];
    }

Reach-Inv : {n : ℕ} {s : System} → Reach n s → Inv n s
Reach-Inv {n} start = record {
  at = λ _. omega arith;
  locked = record { apart = λ i j z. refl; equal = λ _. refl };
  written = sym (sum-zero n (λ j. 0) (λ j _. refl));
}
Reach-Inv {n} (later {s} {t} r st) = Step-Inv n s t (Reach-Inv r) st

all_counted :
    (i : ℕ) (m : Data) (prev : ℕ) (pc : Pc) (ops : ℕ)
    → At i m prev pc
    → m.alone ≡ none
    → pc ≢ counting
    → ops + uncounted pc ≡ ops
all_counted i m prev counting ops h free ne = absurd (ne refl)
all_counted i m prev stored1 ops h free ne = ground (arith, h, free)
all_counted i m prev (loaded2 v) ops h free ne = ground (arith, h, free)
all_counted i m prev stored2 ops h free ne = ground (arith, h, free)
all_counted i m prev pc ops h free ne = ground arith

-- However the steps of n readers and writers interleave, no reader reaches `exit(1)`: the two values that
-- it copied are equal, and not below those of its last round.
pub readers_agree : {n : ℕ} {s : System} → Reach n s → (i : ℕ) → (s.thr i).pc ≢ exited
readers_agree r i e = let inv = Reach-Inv r in ground (arith, inv.at i)

-- However the steps of n readers and writers interleave, when no thread has the lock alone and none is between
-- its unlock and its `ops++`, both values are the sum of the `ops` of the writers.
pub no_lost_round :
    {n : ℕ} {s : System}
    → Reach n s
    → s.mem.alone ≡ none
    → ((i : ℕ) → i < n → (s.thr i).pc ≢ counting)
    → (s.mem.value1 ≡ sum n (λ j. (s.thr j).ops)) × (s.mem.value2 ≡ sum n (λ j. (s.thr j).ops))
no_lost_round {n} {s} r free counted =
    let inv = Reach-Inv r in
    let all : sum n (writes s.thr) ≡ sum n (λ j. (s.thr j).ops) =
      sum-same n (writes s.thr) (λ j. (s.thr j).ops)
        (λ j lt.
          all_counted j s.mem (s.thr j).prev_value (s.thr j).pc (s.thr j).ops (inv.at j) free
            (counted j lt)) in
    (inv.written ∙ all, sym (inv.locked.equal free) ∙ inv.written ∙ all)
