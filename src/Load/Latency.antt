-- ===== src/Load/Latency.antt =====
-- `LatencyStats` of microbench/bench2/bench_all.cpp, to which any number of readers add at once. One atomic
-- operation is one step.
use atomsnap.Common.{ℕ, ◌+◌, ◌≤◌, ◌<◌, ◌≡◌, List, [], ◌∷◌}
use atomsnap.Common.Family.{update}
use atomsnap.Word.Pair.{u64}

pub record LatencyStats : Type 0 where
  pub samples : ℕ
  pub sum_ns : ℕ
  pub max_ns : ℕ

-- Where a thread stands in `add(ns)`.
pub data Pc : Type 0 where
  outside : Pc
  counted : (ns : ℕ) → Pc
  summed : (ns : ℕ) → Pc
  comparing : (ns cur : ℕ) → Pc

-- `begun` has the values that were counted, `added` those that were summed and `done` those whose call has
-- returned.
pub record System : Type 0 where
  pub stats : LatencyStats
  pub thr : ℕ → Pc
  pub begun : List ℕ
  pub added : List ℕ
  pub done : List ℕ

pub data Step (s : System) : System → Type 0 where
  count :
      (i ns : ℕ)
      → s.thr i ≡ outside
      → Step s (record s {
        stats = record (s.stats) { samples = u64 (s.stats.samples + 1) };
        thr = update s.thr i (counted ns);
        begun = ns ∷ s.begun;
      })
  sum :
      (i ns : ℕ)
      → s.thr i ≡ counted ns
      → Step s (record s {
        stats = record (s.stats) { sum_ns = u64 (s.stats.sum_ns + ns) };
        thr = update s.thr i (summed ns);
        added = ns ∷ s.added;
      })
  load :
      (i ns : ℕ)
      → s.thr i ≡ summed ns
      → Step s (record s { thr = update s.thr i (comparing ns s.stats.max_ns) })
  -- the loop's condition is false
  leave :
      (i ns cur : ℕ)
      → s.thr i ≡ comparing ns cur
      → ns ≤ cur
      → Step s (record s { thr = update s.thr i outside; done = ns ∷ s.done })
  win :
      (i ns cur : ℕ)
      → s.thr i ≡ comparing ns cur
      → cur < ns
      → s.stats.max_ns ≡ cur
      → Step s (record s {
        stats = record (s.stats) { max_ns = ns };
        thr = update s.thr i outside;
        done = ns ∷ s.done;
      })
  -- the maximum has changed, or the weak compare-exchange fails for no reason
  lose :
      (i ns cur : ℕ)
      → s.thr i ≡ comparing ns cur
      → cur < ns
      → Step s (record s { thr = update s.thr i (comparing ns s.stats.max_ns) })

abbrev pub init : System
init = record {
  stats = record { samples = 0; sum_ns = 0; max_ns = 0 };
  thr = λ _. outside;
  begun = [];
  added = [];
  done = [];
}

pub data Reach : System → Type 0 where
  start : Reach init
  later : {s t : System} → Reach s → Step s t → Reach t

abbrev pub sum_of : List ℕ → ℕ
sum_of [] = 0
sum_of (x ∷ xs) = x + sum_of xs
