-- ===== src/Bench/Sharing/Invariant.antt =====
-- What every reachable state of the benchmark with a shared mutex satisfies.
use atomsnap.Common.{ℕ, ◌+◌, ◌≤◌, ◌≡◌, inl, inr, Option-cases, true, false, none, some, arith}
use atomsnap.Common.Family.{sum}
use atomsnap.Bench.Mutex.{
  Data, Pc, outside, writing, loaded1, stored1, loaded2, stored2, counting, reading, read1, read2,
  checking, exited, Thread, System,
}

-- What holds where thread `i` stands.
abbrev pub At : (i : ℕ) → Data → (prev : ℕ) → Pc → Type 0
At i m prev outside = prev ≤ m.value1
At i m prev writing = (prev ≤ m.value1) × (m.alone ≡ some i) × (m.value1 ≡ m.value2)
At i m prev (loaded1 v) =
    (prev ≤ m.value1) × (m.alone ≡ some i) × (m.value1 ≡ m.value2) × (v ≡ m.value1)
At i m prev stored1 = (prev ≤ m.value1) × (m.alone ≡ some i) × (m.value1 ≡ m.value2 + 1)
At i m prev (loaded2 v) =
    (prev ≤ m.value1) × (m.alone ≡ some i) × (m.value1 ≡ m.value2 + 1) × (v ≡ m.value2)
At i m prev stored2 = (prev ≤ m.value1) × (m.alone ≡ some i) × (m.value1 ≡ m.value2)
At i m prev counting = prev ≤ m.value1
At i m prev reading = (prev ≤ m.value1) × (m.shares i ≡ true)
At i m prev (read1 v) = (prev ≤ v) × (m.shares i ≡ true) × (v ≡ m.value1)
At i m prev (read2 v1 v2) = (prev ≤ v1) × (m.shares i ≡ true) × (v1 ≡ m.value1) × (v2 ≡ m.value2)
At i m prev (checking v1 v2) = (prev ≤ v1) × (v1 ≤ m.value1) × (v1 ≡ v2)
At i m prev exited = ⊥

-- The lock is had alone or shared, and without a writer the values are equal.
pub record Locked (m : Data) : Type 0 where
  pub apart : (i j : ℕ) → m.alone ≡ some i → m.shares j ≡ false
  pub equal : m.alone ≡ none → m.value1 ≡ m.value2

-- A first value that is stored and not counted.
abbrev pub uncounted : Pc → ℕ
uncounted stored1 = 1
uncounted (loaded2 v) = 1
uncounted stored2 = 1
uncounted counting = 1
uncounted _ = 0

abbrev pub writes : (ℕ → Thread) → ℕ → ℕ
writes thr j = (thr j).ops + uncounted (thr j).pc

pub record Inv (n : ℕ) (s : System) : Type 0 where
  pub at : (i : ℕ) → At i s.mem (s.thr i).prev_value (s.thr i).pc
  pub locked : Locked s.mem
  pub written : s.mem.value1 ≡ sum n (writes s.thr)

-- While a thread shares the lock the values are equal.
pub shared_equal : (i : ℕ) (m : Data) → Locked m → m.shares i ≡ true → m.value1 ≡ m.value2
shared_equal i m l shared = elim (Option-cases m.alone) [
  | inl free ↦ l.equal free
  | inr (k, taken) ↦ ground (arith, l.apart k i taken, shared)
]
