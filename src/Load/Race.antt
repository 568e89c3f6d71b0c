-- ===== src/Load/Race.antt =====
-- Two readers that add a latency at once.
use atomsnap.Common.{ℕ, ◌≤◌, ◌≡◌, ◌⊎◌, refl, true, length, arith, ℕ_discrete}
use atomsnap.Word.Pair.{u64}
use atomsnap.Pool.Stack.Defs.{has}
use atomsnap.Load.Latency.{
  System, Step, count, sum, load, leave, win, lose, Reach, start, later, sum_of,
}
use atomsnap.Load.Peak.{latency_lem}

record Run : Type 0 where
  last : System
  reach : Reach last

abbrev move : (r : Run) {t : System} → Step r.last t → Run
move r step = record { last = _; reach = later r.reach step }

-- Thread 0 adds 5 and thread 1 adds 9; both have read the maximum 0.
abbrev both_read : Run
unfolding ℕ_discrete
both_read =
    move
      (move
        (move
          (move (move (move (record { last = _; reach = start }) (count 0 5 refl)) (sum 0 5 refl))
            (load 0 5 refl))
          (count 1 9 refl))
        (sum 1 9 refl))
      (load 1 9 refl)

-- Thread 1 wins, thread 0 loses and finds that it is done.
abbrev settled : Run
unfolding ℕ_discrete both_read
settled =
    move (move (move both_read (win 1 9 0 refl (omega arith) refl)) (lose 0 5 0 refl (omega arith)))
      (leave 0 5 9 refl (omega arith))

latency_lem_example :
    (settled.last.stats.samples ≡ u64 (length settled.last.begun))
    × (settled.last.stats.sum_ns ≡ u64 (sum_of settled.last.added))
    × ((settled.last.stats.max_ns ≡ 0) ⊎ (has settled.last.stats.max_ns settled.last.begun ≡ true))
    × ((x : ℕ) → has x settled.last.done ≡ true → x ≤ settled.last.stats.max_ns)
latency_lem_example = latency_lem settled.last settled.reach
