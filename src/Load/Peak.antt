-- ===== src/Load/Peak.antt =====
-- What `LatencyStats` holds, however the calls of `add` interleave.
use atomsnap.Common.{ℕ, ◌≤◌, ◌≡◌, ◌⊎◌, inl, inr, refl, subst, true, ◌∷◌, length, arith}
use atomsnap.Common.Family.{update, update_cases}
use atomsnap.Word.Pair.{u64}
use atomsnap.Pool.Stack.Defs.{has}
use atomsnap.Load.Latency.{
  Pc, outside, counted, summed, comparing, System, Step, count, sum, load, leave, win, lose, Reach,
  start, later, sum_of,
}

-- What a thread knows: its value is counted, and the maximum does not fall.
abbrev Stands : System → Pc → Type 0
Stands s outside = Unit {0}
Stands s (counted ns) = has ns s.begun ≡ true
Stands s (summed ns) = has ns s.begun ≡ true
Stands s (comparing ns cur) = (has ns s.begun ≡ true) × (cur ≤ s.stats.max_ns)

record Inv (s : System) : Type 0 where
  samples : s.stats.samples ≡ u64 (length s.begun)
  total_ns : s.stats.sum_ns ≡ u64 (sum_of s.added)
  max_begun : (s.stats.max_ns ≡ 0) ⊎ (has s.stats.max_ns s.begun ≡ true)
  done_below : (x : ℕ) → has x s.done ≡ true → x ≤ s.stats.max_ns
  stands : (i : ℕ) → Stands s (s.thr i)

-- What a thread knows stays so when values are counted and the maximum grows.
Stands-grown :
    (s t : System) (pc : Pc)
    → ((x : ℕ) → has x s.begun ≡ true → has x t.begun ≡ true)
    → s.stats.max_ns ≤ t.stats.max_ns
    → Stands s pc
    → Stands t pc
Stands-grown s t outside more grown st = tt
Stands-grown s t (counted ns) more grown st = more ns st
Stands-grown s t (summed ns) more grown st = more ns st
Stands-grown s t (comparing ns cur) more grown st = (more ns st.0, omega (arith, st.1, grown))

Stands-update :
    (s t : System) (i : ℕ) (pc : Pc)
    → ((x : ℕ) → has x s.begun ≡ true → has x t.begun ≡ true)
    → s.stats.max_ns ≤ t.stats.max_ns
    → ((j : ℕ) → Stands s (s.thr j))
    → Stands t pc
    → (j : ℕ) → Stands t (update s.thr i pc j)
Stands-update s t i pc more grown all here =
    update_cases (λ j p. Stands t p) s.thr i pc here
      (λ j ne. Stands-grown s t (s.thr j) more grown (all j))

at-Stands : (s : System) (i : ℕ) (pc : Pc) → Inv s → s.thr i ≡ pc → Stands s pc
at-Stands s i pc inv e = subst (Stands s) e (inv.stands i)

Step-Inv : (s t : System) → Inv s → Step s t → Inv t
Step-Inv s t inv (count i ns at) =
    let more : (x : ℕ) → has x s.begun ≡ true → has x (ns ∷ s.begun) ≡ true =
      λ x on. ground (arith, on) in
    record {
      samples = omega (arith, inv.samples);
      total_ns = inv.total_ns;
      max_begun = ground (arith, inv.max_begun);
      done_below = inv.done_below;
      stands = Stands-update s t i (counted ns) more (omega arith) inv.stands (ground arith);
    }
Step-Inv s t inv (sum i ns at) = record {
  samples = inv.samples;
  total_ns = omega (arith, inv.total_ns);
  max_begun = inv.max_begun;
  done_below = inv.done_below;
  stands =
      Stands-update s t i (summed ns) (λ x on. on) (omega arith) inv.stands
        (at-Stands s i (counted ns) inv at);
}
Step-Inv s t inv (load i ns at) = record {
  samples = inv.samples;
  total_ns = inv.total_ns;
  max_begun = inv.max_begun;
  done_below = inv.done_below;
  stands =
      Stands-update s t i (comparing ns s.stats.max_ns) (λ x on. on) (omega arith) inv.stands
        (at-Stands s i (summed ns) inv at, omega arith);
}
Step-Inv s t inv (leave i ns cur at le) =
    let here = at-Stands s i (comparing ns cur) inv at in
    record {
      samples = inv.samples;
      total_ns = inv.total_ns;
      max_begun = inv.max_begun;
      done_below = λ x on. ground (arith, inv.done_below x, here.1, le);
      stands = Stands-update s t i outside (λ x on. on) (omega arith) inv.stands tt;
    }
Step-Inv s t inv (win i ns cur at lt same) =
    let here = at-Stands s i (comparing ns cur) inv at in
    record {
      samples = inv.samples;
      total_ns = inv.total_ns;
      max_begun = inr here.0;
      done_below = λ x on. ground (arith, inv.done_below x, lt, same);
      stands = Stands-update s t i outside (λ x on. on) (omega (arith, lt, same)) inv.stands tt;
    }
Step-Inv s t inv (lose i ns cur at lt) =
    let here = at-Stands s i (comparing ns cur) inv at in
    record {
      samples = inv.samples;
      total_ns = inv.total_ns;
      max_begun = inv.max_begun;
      done_below = inv.done_below;
      stands =
          Stands-update s t i (comparing ns s.stats.max_ns) (λ x on. on) (omega arith) inv.stands
            (here.0, omega arith);
    }

Reach-Inv : (s : System) → Reach s → Inv s
Reach-Inv s start = record {
  samples = omega arith;
  total_ns = omega arith;
  max_begun = inl refl;
  done_below = λ x on. ground (arith, on);
  stands = λ i. tt;
}
Reach-Inv t (later {s} r step) = Step-Inv s t (Reach-Inv s r) step

-- However the calls of `add` interleave, `samples` counts those begun and `sum_ns` is the sum of what they have
-- added, both modulo 2^64; `max_ns` is 0 or one of the values, and not below any whose call has returned.
pub latency_lem :
    (s : System)
    → Reach s
    → (s.stats.samples ≡ u64 (length s.begun))
      × (s.stats.sum_ns ≡ u64 (sum_of s.added))
      × ((s.stats.max_ns ≡ 0) ⊎ (has s.stats.max_ns s.begun ≡ true))
      × ((x : ℕ) → has x s.done ≡ true → x ≤ s.stats.max_ns)
latency_lem s r =
    let inv = Reach-Inv s r in (inv.samples, inv.total_ns, inv.max_begun, inv.done_below)
