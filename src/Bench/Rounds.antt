-- ===== src/Bench/Rounds.antt =====
-- A round of a writer and one of a reader under the shared mutex.
use atomsnap.Common.{ℕ, zero, suc, ◌<◌, ◌≡◌, ◌≢◌, refl, arith, ℕ_discrete}
use atomsnap.Common.Family.{sum}
use atomsnap.Bench.Mutex.{
  Data, Thread, Move, counting, exited, lock_writer, load_value1, store_value1, load_value2,
  store_value2, unlock_writer, count, lock_reader, copy_value1, copy_value2, unlock_reader, check,
  System, pick, Reach, start, later,
}
use atomsnap.Bench.Sharing.{readers_agree, no_lost_round}

record Run : Type 0 where
  last : System
  reach : Reach 2 last

abbrev move :
    (r : Run) (i : ℕ) {m : Data} {t : Thread} → i < 2 → Move i r.last.mem (r.last.thr i) m t → Run
move r i lt mv = record { last = _; reach = later r.reach (pick i lt mv) }

abbrev boot : Run
boot = record { last = _; reach = start }

abbrev stored : Run
unfolding ℕ_discrete
stored =
    move
      (move (move boot 0 (omega arith) (lock_writer refl refl (λ j. refl))) 0 (omega arith)
        (load_value1 refl))
      0 (omega arith) (store_value1 0 refl)

abbrev written : Run
unfolding ℕ_discrete
written =
    move
      (move (move stored 0 (omega arith) (load_value2 refl)) 0 (omega arith) (store_value2 0 refl))
      0 (omega arith) (unlock_writer refl)

-- The writer has counted its round, and the reader has copied the values.
abbrev copied : Run
unfolding ℕ_discrete
copied =
    move
      (move
        (move (move written 0 (omega arith) (count refl)) 1 (omega arith) (lock_reader refl refl)) 1
        (omega arith) (copy_value1 refl))
      1 (omega arith) (copy_value2 1 refl)

abbrev checked_run : Run
unfolding ℕ_discrete
checked_run =
    move (move copied 1 (omega arith) (unlock_reader 1 1 refl)) 1 (omega arith) (check 1 1 refl)

readers_agree_example : (checked_run.last.thr 1).pc ≢ exited
readers_agree_example = readers_agree checked_run.reach 1

none_counting : (i : ℕ) → i < 2 → (copied.last.thr i).pc ≢ counting
unfolding ℕ_discrete
none_counting zero lt e = cc
none_counting (suc zero) lt e = cc
none_counting (suc (suc i)) lt e = absurd (omega (arith, lt))

no_lost_round_example :
    (copied.last.mem.value1 ≡ sum 2 (λ j. (copied.last.thr j).ops))
    × (copied.last.mem.value2 ≡ sum 2 (λ j. (copied.last.thr j).ops))
unfolding ℕ_discrete
no_lost_round_example = no_lost_round copied.reach refl none_counting
