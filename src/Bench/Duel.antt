-- ===== src/Bench/Duel.antt =====
-- The benchmark with a spin lock: what its readers see.
use atomsnap.Common.{ℕ, ◌+◌, ◌≤◌, ◌≡◌, ◌≢◌, refl, none, some, arith}
use atomsnap.Common.Family.{update_cases}
use atomsnap.Bench.Spin.{
  Data, Pc, outside, writing, loaded1, stored1, loaded2, stored2, reading, read1, read2, checking,
  exited, Thread, Move, lock_writer, load_value1, store_value1, load_value2, store_value2,
  unlock_writer, lock_reader, copy_value1, copy_value2, unlock_reader, check, System, Step, pick,
  Reach, start, later,
}

-- What holds where thread `i` stands.
abbrev pub At : (i : ℕ) → Data → (prev : ℕ) → Pc → Type 0
At i m prev outside = prev ≤ m.value1
At i m prev writing = (prev ≤ m.value1) × (m.spinlock ≡ some i) × (m.value1 ≡ m.value2)
At i m prev (loaded1 v) =
    (prev ≤ m.value1) × (m.spinlock ≡ some i) × (m.value1 ≡ m.value2) × (v ≡ m.value1)
At i m prev stored1 = (prev ≤ m.value1) × (m.spinlock ≡ some i) × (m.value1 ≡ m.value2 + 1)
At i m prev (loaded2 v) =
    (prev ≤ m.value1) × (m.spinlock ≡ some i) × (m.value1 ≡ m.value2 + 1) × (v ≡ m.value2)
At i m prev stored2 = (prev ≤ m.value1) × (m.spinlock ≡ some i) × (m.value1 ≡ m.value2)
At i m prev reading = (prev ≤ m.value1) × (m.spinlock ≡ some i) × (m.value1 ≡ m.value2)
At i m prev (read1 v) =
    (prev ≤ m.value1) × (m.spinlock ≡ some i) × (m.value1 ≡ m.value2) × (v ≡ m.value1)
At i m prev (read2 v1 v2) =
    (prev ≤ v1) × (m.spinlock ≡ some i) × (m.value1 ≡ m.value2) × (v1 ≡ m.value1) × (v2 ≡ m.value2)
At i m prev (checking v1 v2) = (prev ≤ v1) × (v1 ≤ m.value1) × (v1 ≡ v2)
At i m prev exited = ⊥

pub record Inv (s : System) : Type 0 where
  pub at : (i : ℕ) → At i s.mem (s.thr i).prev_value (s.thr i).pc
  pub unlocked : s.mem.spinlock ≡ none → s.mem.value1 ≡ s.mem.value2

-- Where thread `j` stands stays true when another thread, or none, has the lock.
At-other :
    (j : ℕ) (m m' : Data) (prev : ℕ) (pc : Pc)
    → m.value1 ≤ m'.value1
    → m.spinlock ≢ some j
    → At j m prev pc
    → At j m' prev pc
At-other j m m' prev pc more other h = ground arith

-- What a step keeps and makes true for its own thread.
Move-own :
    (i : ℕ) (m m' : Data) (t t' : Thread)
    → At i m t.prev_value t.pc
    → (m.spinlock ≡ none → m.value1 ≡ m.value2)
    → Move i m t m' t'
    → At i m' t'.prev_value t'.pc
      × (m'.spinlock ≡ none → m'.value1 ≡ m'.value2)
      × (m.value1 ≤ m'.value1)
Move-own i m m' t t' h u (lock_writer e f) = ground arith
Move-own i m m' t t' h u (load_value1 e) = ground arith
Move-own i m m' t t' h u (store_value1 v e) = ground arith
Move-own i m m' t t' h u (load_value2 e) = ground arith
Move-own i m m' t t' h u (store_value2 v e) = ground arith
Move-own i m m' t t' h u (unlock_writer e) = ground arith
Move-own i m m' t t' h u (lock_reader e f) = ground arith
Move-own i m m' t t' h u (copy_value1 e) = ground arith
Move-own i m m' t t' h u (copy_value2 v e) = ground arith
Move-own i m m' t t' h u (unlock_reader v1 v2 e) = ground arith
Move-own i m m' t t' h u (check v1 v2 e) = ground arith

-- What a step keeps true for another thread.
Move-other :
    (i j : ℕ) (m m' : Data) (t t' : Thread) (prev : ℕ) (pc : Pc)
    → i ≢ j
    → At i m t.prev_value t.pc
    → m.value1 ≤ m'.value1
    → Move i m t m' t'
    → At j m prev pc
    → At j m' prev pc
Move-other i j m m' t t' prev pc ne h more (lock_writer e f) g =
    At-other j m m' prev pc more (λ o. ground arith) g
Move-other i j m m' t t' prev pc ne h more (load_value1 e) g = g
Move-other i j m m' t t' prev pc ne h more (store_value1 v e) g =
    At-other j m m' prev pc more (λ o. ground arith) g
Move-other i j m m' t t' prev pc ne h more (load_value2 e) g = g
Move-other i j m m' t t' prev pc ne h more (store_value2 v e) g =
    At-other j m m' prev pc more (λ o. ground arith) g
Move-other i j m m' t t' prev pc ne h more (unlock_writer e) g =
    At-other j m m' prev pc more (λ o. ground arith) g
Move-other i j m m' t t' prev pc ne h more (lock_reader e f) g =
    At-other j m m' prev pc more (λ o. ground arith) g
Move-other i j m m' t t' prev pc ne h more (copy_value1 e) g = g
Move-other i j m m' t t' prev pc ne h more (copy_value2 v e) g = g
Move-other i j m m' t t' prev pc ne h more (unlock_reader v1 v2 e) g =
    At-other j m m' prev pc more (λ o. ground arith) g
Move-other i j m m' t t' prev pc ne h more (check v1 v2 e) g = g

Step-Inv : (s s' : System) → Inv s → Step s s' → Inv s'
Step-Inv s s' inv (pick i {m = m'} {t = t'} mv) =
    let (own, unlocked', more) = Move-own i s.mem m' (s.thr i) t' (inv.at i) inv.unlocked mv in
    record {
      at =
          update_cases (λ j t. At j m' t.prev_value t.pc) s.thr i t' own
            (λ j ne.
              Move-other i j s.mem m' (s.thr i) t' (s.thr j).prev_value (s.thr j).pc ne (inv.at i)
                more mv (inv.at j));
      unlocked = unlocked';
    }

Reach-Inv : {s : System} → Reach s → Inv s
Reach-Inv start = record { at = λ _. omega arith; unlocked = λ _. refl }
Reach-Inv (later {s} {t} r st) = Step-Inv s t (Reach-Inv r) st

-- However the steps of any number of readers and writers interleave, no reader reaches `exit(1)`: the two
-- values that it copied are equal, and not below those of its last round.
pub never_exits : {s : System} → Reach s → (i : ℕ) → (s.thr i).pc ≢ exited
never_exits r i e = let inv = Reach-Inv r in ground (arith, inv.at i)
