-- ===== src/Bench/Counted/Tests.antt =====
-- A writer publishes one object while a reader checks the one before it.
use atomsnap.Common.{
  ℕ, zero, suc, ◌<◌, ◌≡◌, ◌≢◌, inl, inr, refl, subst, Bool, none, some, ◌==◌, arith, ℕ_discrete,
}
use atomsnap.Common.Family.{sum}
use atomsnap.Bench.Counted.Machine.{
  Data, w_got, w_won, r_got, exited, crashed, System, Step, new_object, load, write1, write2, swap,
  read1, read2, Reach, start, later,
}
use atomsnap.Bench.Counted.Safety.{readers_safe, no_lost_swap}

abbrev writes_at : ℕ → Bool
writes_at i = i == 0

record Run : Type 0 where
  last : System
  reach : Reach 2 writes_at 40 last

abbrev step : (r : Run) {t : System} → Step 2 r.last t → Run
step r st = record { last = _; reach = later r.reach st }

abbrev boot : Run
boot = record { last = _; reach = start }

absent : (b : ℕ) → none ≢ some b
absent b e = cc

abbrev raw : Data
raw = record { value1 = 11; value2 = 12 }

abbrev ready_run : Run
unfolding ℕ_discrete
ready_run =
    step boot
      (new_object 0 41 raw (omega arith) (inl refl) (omega arith) (λ j. absent 41) (λ j. absent 41))

abbrev reading : Run
unfolding ℕ_discrete
reading =
    step
      (step (step ready_run (load 1 r_got (omega arith) (inr (refl, refl))))
        (read1 1 (omega arith) refl))
      (load 0 w_got (omega arith) (inl (refl, refl)))

abbrev swapped_run : Run
unfolding ℕ_discrete
swapped_run =
    step
      (step (step reading (write1 0 41 40 (omega arith) refl refl refl))
        (write2 0 41 40 (omega arith) refl refl refl))
      (swap 0 41 (omega arith) refl refl refl)

abbrev checked_run : Run
unfolding ℕ_discrete
checked_run = step swapped_run (read2 1 0 (omega arith) refl)

readers_safe_example :
    ((checked_run.last.thr 1).pc ≢ exited) × ((checked_run.last.thr 1).pc ≢ crashed)
readers_safe_example = readers_safe checked_run.reach 1

-- No thread refers to the address 42.
abbrev Unused : ℕ → Type 0
Unused j =
    ((checked_run.last.thr j).new_data ≢ some 42) × ((checked_run.last.thr j).loaded ≢ some 42)

unused : (j : ℕ) → Unused j
unfolding ℕ_discrete
unused j = elim (ℕ_discrete 0 j) [
  | yes e ↦ subst (λ (k : ℕ). Unused k) e (λ z. ground (arith, z), λ z. ground (arith, z))
  | no ne ↦ elim (ℕ_discrete 1 j) [
    | yes e ↦ subst (λ (k : ℕ). Unused k) e (λ z. ground (arith, z), λ z. ground (arith, z))
    | no ne' ↦ (λ z. ground (arith, z, ne, ne'), λ z. ground (arith, z, ne, ne'))
  ]
]

-- The writer has counted its object, and takes the address 42 for the next one.
abbrev counted_run : Run
unfolding ℕ_discrete
counted_run = step checked_run (
    new_object 0 42 raw (omega arith) (inr refl) (omega arith) (λ j. (unused j).0)
      (λ j. (unused j).1))

none_won : (i : ℕ) → i < 2 → (counted_run.last.thr i).pc ≢ w_won
unfolding ℕ_discrete
none_won zero lt e = cc
none_won (suc zero) lt e = cc
none_won (suc (suc i)) lt e = absurd (omega (arith, lt))

no_lost_swap_example :
    ((counted_run.last.mem.heap counted_run.last.mem.global_ptr).value1
      ≡ sum 2 (λ j. (counted_run.last.thr j).ops))
    × ((counted_run.last.mem.heap counted_run.last.mem.global_ptr).value2
        ≡ sum 2 (λ j. (counted_run.last.thr j).ops))
no_lost_swap_example = no_lost_swap counted_run.reach none_won
